-- ===== src/Tests/Sidecars.antt =====
-- A pod with one container, and the sidecar that it gets.
use cnpg_plugin_pgbackrest.Base.{
  ◌≡◌, refl, ◌++◌, ◌||◌, true, is_nil, [], ◌∷◌, Option, none, some, Text, codes, List, Distinct,
  Result, ok, err, api_not_found,
}
use cnpg_plugin_pgbackrest.Api.Archive.{EnvVar}
use cnpg_plugin_pgbackrest.Lifecycle.{
  PodSpec, Container, has_container, container_envs, fixed_envs, sidecar_for,
}
use cnpg_plugin_pgbackrest.Lifecycle.Envs.{find_env, env_names, env-sidecar_for}
use cnpg_plugin_pgbackrest.Lifecycle.Hook.{Machinery, container_of_args, mutated_pod}
use cnpg_plugin_pgbackrest.Lifecycle.Reconciled.{mutated_pod_settles}
use cnpg_plugin_pgbackrest.Tests.Configs.{small_cluster, referring}

abbrev variable : Text → EnvVar
variable name = record { name = name; value = codes "x"; value_from = none }

abbrev postgres_container : Container
unfolding container_of_args
postgres_container = record (container_of_args []) {
  name = codes "postgres";
  env = variable (codes "NAMESPACE") ∷ variable (codes "TZ") ∷ [];
}

abbrev small_pod : PodSpec
unfolding container_of_args
small_pod = record { volumes = []; containers = postgres_container ∷ []; init_containers = [] }

abbrev instance_sidecar : Container
unfolding container_of_args
instance_sidecar = container_of_args (codes "instance" ∷ [])

env-sidecar_for_example :
    Distinct (
      env_names
        (sidecar_for
          (codes "image")
          small_cluster
          small_pod
          (codes "postgres")
          instance_sidecar
          (variable (codes "TZ") ∷ [])
          none
          none).env)
    × (find_env
          (codes "TZ")
          (sidecar_for
            (codes "image")
            small_cluster
            small_pod
            (codes "postgres")
            instance_sidecar
            (variable (codes "TZ") ∷ [])
            none
            none).env
        ≡ find_env (codes "TZ") (
            instance_sidecar.env
            ++ (container_envs (codes "postgres") small_pod.containers
                ++ (fixed_envs small_cluster.namespace small_cluster.name
                    ++ variable (codes "TZ") ∷ []))))
unfolding instance_sidecar
env-sidecar_for_example =
    env-sidecar_for (codes "image") small_cluster small_pod (codes "postgres") instance_sidecar
      (variable (codes "TZ") ∷ []) none none (codes "TZ") tt

abbrev small_machinery : Text → Machinery
small_machinery image = record {
  get_archive = λ namespace name. err api_not_found;
  recovery_source_plugin = λ cluster. none;
  create_patch = λ mutated spec. ok [];
  sidecar_image = image;
}

-- The small pod with the sidecar.
abbrev mutated_spec : Result PodSpec → PodSpec
mutated_spec (ok spec) = spec
mutated_spec (err e) = small_pod

abbrev small_pod_with_sidecar : PodSpec
unfolding mutated_pod
small_pod_with_sidecar =
    mutated_spec
      (mutated_pod (small_machinery (codes "image")) small_cluster small_pod referring [] none none)

mutated_pod_settles_example :
    ((is_nil referring.pgbackrest_object_name
        || has_container (codes "plugin-pgbackrest") small_pod_with_sidecar.init_containers)
      ≡ true)
    × (mutated_pod
          (small_machinery (codes "new"))
          small_cluster
          small_pod_with_sidecar
          referring
          (variable (codes "TZ") ∷ [])
          (some (codes "more"))
          none
        ≡ ok small_pod_with_sidecar)
unfolding mutated_pod small_pod_with_sidecar codes cnpg_plugin_pgbackrest.Base.str_eq
mutated_pod_settles_example =
    mutated_pod_settles (small_machinery (codes "image")) (small_machinery (codes "new"))
      small_cluster small_cluster small_pod small_pod_with_sidecar referring referring []
      (variable (codes "TZ") ∷ []) none (some (codes "more")) none none refl refl
