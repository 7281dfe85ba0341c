-- ===== src/Lifecycle.antt =====
-- internal/cnpgi/operator/lifecycle.go: the sidecar that is injected into the pods of a cluster. Of
-- Kubernetes' types these are the fields that the code reads or sets; what it only copies is a text.
pub mod Envs
pub mod Hook
pub mod Idempotent
pub mod Reconciled
use cnpg_plugin_pgbackrest.Base.{
  ℕ, Bool, true, false, ◌&&◌, ◌||◌, List, [], ◌∷◌, ◌++◌, Option, none, some, Text, codes, str_eq,
  if◌then◌else◌, Result, ok, err, Error, message,
}
use cnpg_plugin_pgbackrest.Api.Archive.{EnvVar}
use cnpg_plugin_pgbackrest.Config.{Cluster}

pub record VolumeMount : Type 0 where
  pub name : Text
  pub mount_path : Text

pub record Volume : Type 0 where
  pub name : Text
  pub source : Text

pub record Probe : Type 0 where
  pub failure_threshold : ℕ
  pub timeout_seconds : ℕ
  pub command : List Text

pub record Container : Type 0 where
  pub name : Text
  pub image : Text
  pub image_pull_policy : Text
  pub args : List Text
  pub env : List EnvVar
  pub startup_probe : Option Probe
  pub resources : Text
  pub security_context : Option Text
  pub volume_mounts : List VolumeMount
  pub restart_policy : Option Text

pub record PodSpec : Type 0 where
  pub volumes : List Volume
  pub containers : List Container
  pub init_containers : List Container

abbrev pub plugin_volume_name : Text
plugin_volume_name = codes "plugins"

abbrev pub plugin_mount : VolumeMount
plugin_mount = record { name = codes "plugins"; mount_path = codes "/plugins" }

abbrev pub plugin_volume : Volume
plugin_volume = record { name = codes "plugins"; source = codes "emptyDir" }

unfoldable pub has_volume : Text → List Volume → Bool
has_volume name [] = false
has_volume name (v ∷ volumes) = str_eq v.name name || has_volume name volumes

-- The loop that mounts the volume in the main containers.
unfoldable pub mount_plugin : Text → List Container → List Container
mount_plugin main [] = []
mount_plugin main (c ∷ containers) =
    (if str_eq c.name main
      then record c { volume_mounts = c.volume_mounts ++ plugin_mount ∷ [] }
      else c)
    ∷ mount_plugin main containers

-- `InjectPluginVolumePodSpec`
unfoldable pub inject_plugin_volume_pod_spec : PodSpec → Text → PodSpec
unfolding has_volume mount_plugin
inject_plugin_volume_pod_spec spec main =
    if has_volume plugin_volume_name spec.volumes then spec else record spec {
      volumes = spec.volumes ++ plugin_volume ∷ [];
      containers = mount_plugin main spec.containers;
    }

-- The mounts of the last container of that name, and whether there is one.
unfoldable pub main_mounts :
    Text → List Container → Option (List VolumeMount) → Option (List VolumeMount)
main_mounts main [] found = found
main_mounts main (c ∷ containers) found =
    main_mounts main containers (if str_eq c.name main then some c.volume_mounts else found)

unfoldable pub has_container : Text → List Container → Bool
has_container name [] = false
has_container name (c ∷ containers) = str_eq c.name name || has_container name containers

-- The sidecar as it is added.
unfoldable pub final_sidecar : Container → Bool → List VolumeMount → Container
final_sidecar sidecar inject_main_container_volumes mounts = record sidecar {
  volume_mounts =
      if inject_main_container_volumes
      then sidecar.volume_mounts ++ mounts
      else sidecar.volume_mounts;
  restart_policy = some (codes "Always");
}

add_sidecar : PodSpec → Container → Bool → Option (List VolumeMount) → Result (Unit {0}) × PodSpec
unfolding has_container final_sidecar
add_sidecar spec sidecar inject none = (err (message (codes "main container not found")), spec)
add_sidecar spec sidecar inject (some mounts) =
    if has_container sidecar.name spec.init_containers then (ok tt, spec) else (
      ok tt,
      record spec {
        init_containers = spec.init_containers ++ final_sidecar sidecar inject mounts ∷ [];
      },
    )

-- `InjectPluginSidecarPodSpec`, with the specification as it leaves it.
unfoldable pub inject_plugin_sidecar_pod_spec :
    PodSpec → Container → Text → Bool → Result (Unit {0}) × PodSpec
unfolding inject_plugin_volume_pod_spec main_mounts add_sidecar
inject_plugin_sidecar_pod_spec spec sidecar main inject_main_container_volumes =
    let mounted = inject_plugin_volume_pod_spec spec main in
    add_sidecar mounted sidecar inject_main_container_volumes
      (main_mounts main mounted.containers none)

unfoldable pub has_env : Text → List EnvVar → Bool
has_env name [] = false
has_env name (e ∷ envs) = str_eq e.name name || has_env name envs

-- The loop that appends the variables that are not set yet.
unfoldable pub merge_envs : List EnvVar → List EnvVar → List EnvVar
unfolding has_env
merge_envs set [] = set
merge_envs set (e ∷ envs) = merge_envs (if has_env e.name set then set else set ++ e ∷ []) envs

-- The variables of the first container of that name.
unfoldable pub container_envs : Text → List Container → List EnvVar
container_envs main [] = []
container_envs main (c ∷ containers) =
    let rest = container_envs main containers in if str_eq c.name main then c.env else rest

abbrev pub fixed_envs : Text → Text → List EnvVar
fixed_envs namespace cluster_name =
    record { name = codes "NAMESPACE"; value = namespace; value_from = none }
    ∷ record { name = codes "CLUSTER_NAME"; value = cluster_name; value_from = none }
    ∷ record {
      name = codes "SPOOL_DIRECTORY";
      value = codes "/controller/wal-restore-spool";
      value_from = none;
    }
    ∷ []

abbrev pub base_probe : Probe
base_probe = record {
  failure_threshold = 10;
  timeout_seconds = 10;
  command = codes "/manager" ∷ codes "healthcheck" ∷ codes "unix" ∷ [];
}

abbrev text_or : Text → Option Text → Text
text_or d none = d
text_or d (some t) = t

abbrev option_or : Option Text → Option Text → Option Text
option_or d none = d
option_or d (some t) = some t

-- The sidecar that `reconcilePodSpec` makes of the one that it is given. The image is the setting
-- `sidecar-image` of the process.
unfoldable pub sidecar_for :
    Text
    → Cluster
    → PodSpec
    → Text
    → Container
    → List EnvVar
    → Option Text
    → Option Text
    → Container
unfolding merge_envs container_envs
sidecar_for sidecar_image cluster spec main sidecar additional_envs resources security_context =
    record sidecar {
      name = codes "plugin-pgbackrest";
      image = sidecar_image;
      image_pull_policy = cluster.image_pull_policy;
      startup_probe = some base_probe;
      env =
          merge_envs (merge_envs sidecar.env (container_envs main spec.containers))
            (fixed_envs cluster.namespace cluster.name ++ additional_envs);
      resources = text_or sidecar.resources resources;
      security_context = option_or sidecar.security_context security_context;
    }

-- `reconcilePodSpec`
unfoldable pub reconcile_pod_spec :
    Text
    → Cluster
    → PodSpec
    → Text
    → Container
    → List EnvVar
    → Option Text
    → Option Text
    → Result (Unit {0}) × PodSpec
unfolding sidecar_for inject_plugin_sidecar_pod_spec
reconcile_pod_spec sidecar_image cluster spec main sidecar additional_envs resources
      security_context =
    inject_plugin_sidecar_pod_spec spec
      (sidecar_for sidecar_image cluster spec main sidecar additional_envs resources
        security_context)
      main true
