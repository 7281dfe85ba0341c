-- ===== src/Lifecycle/Reconciled.antt =====
-- The pods that the lifecycle hook mutates again.
use cnpg_plugin_pgbackrest.Base.{
  ◌≡◌, refl, sym, ap, ◌∙◌, inl, inr, false, List, [], ◌∷◌, Option, Text, codes, is_nil, Result, ok,
  err, true, ◌||◌, Bool-cases,
}
use cnpg_plugin_pgbackrest.Api.Archive.{EnvVar}
use cnpg_plugin_pgbackrest.Config.{Cluster, PluginConfiguration}
use cnpg_plugin_pgbackrest.Lifecycle.{PodSpec, has_container, reconcile_pod_spec}
use cnpg_plugin_pgbackrest.Lifecycle.Hook.{Machinery, mutated_pod, finish_spec, container_of_args}
use cnpg_plugin_pgbackrest.Lifecycle.Idempotent.{reconcile_pod_spec_settles}

finish_spec_ok :
    (m : Text) (r : Result (Unit {0}) × PodSpec) (spec : PodSpec)
    → finish_spec m r ≡ ok spec
    → r ≡ (ok tt, spec)
unfolding finish_spec
finish_spec_ok m (ok tt, s) spec h = cc
finish_spec_ok m (err e, s) spec h = cc

mutated_pod_named :
    (k : Machinery) (cluster : Cluster) (spec : PodSpec) (config : PluginConfiguration)
    (envs : List EnvVar) (resources security_context : Option Text)
    → is_nil config.pgbackrest_object_name ≡ false
    → mutated_pod k cluster spec config envs resources security_context
      ≡ finish_spec (codes "while reconciling pod spec for pod") (
          reconcile_pod_spec k.sidecar_image cluster spec
            (codes "postgres")
            (container_of_args (codes "instance" ∷ []))
            envs
            resources
            security_context)
unfolding mutated_pod
mutated_pod_named k cluster spec config envs resources security_context named = rw named

-- Where the configuration names an archive for backups, a pod that the hook has mutated has the sidecar
-- among its init containers. The hook that has mutated a pod leaves it as it is when it comes to it again, also when the sidecar's
-- image, the cluster's settings, the environment, the resources or the security context differ then,
-- as long as the configuration still names an archive for backups or still names none.
pub mutated_pod_settles :
    (k k' : Machinery) (cluster cluster' : Cluster) (spec spec' : PodSpec)
    (config config' : PluginConfiguration) (envs envs' : List EnvVar)
    (resources resources' security_context security_context' : Option Text)
    → is_nil config'.pgbackrest_object_name ≡ is_nil config.pgbackrest_object_name
    → mutated_pod k cluster spec config envs resources security_context ≡ ok spec'
    → ((is_nil config.pgbackrest_object_name
          || has_container (codes "plugin-pgbackrest") spec'.init_containers)
        ≡ true)
      × (mutated_pod k' cluster' spec' config' envs' resources' security_context' ≡ ok spec')
unfolding mutated_pod finish_spec
mutated_pod_settles k k' cluster cluster' spec spec' config config' envs envs' resources resources'
      security_context security_context' same h =
    elim (Bool-cases (is_nil config.pgbackrest_object_name)) [
      | inl unnamed ↦ rw (unnamed, same ∙ unnamed) (refl, refl)
      | inr named ↦
          let args = container_of_args (codes "instance" ∷ []) in
          let first =
            finish_spec_ok (codes "while reconciling pod spec for pod")
              (reconcile_pod_spec k.sidecar_image cluster spec (codes "postgres") args envs
                resources security_context)
              spec'
              (sym (mutated_pod_named k cluster spec config envs resources security_context named)
                ∙ h) in
          let (there, again) =
            reconcile_pod_spec_settles spec spec' (codes "postgres") k.sidecar_image
              k'.sidecar_image cluster cluster' args args envs envs' resources resources'
              security_context security_context' first in
          (
            rw named there,
            mutated_pod_named k' cluster' spec' config' envs' resources' security_context'
                  (same ∙ named)
                ∙ ap (finish_spec (codes "while reconciling pod spec for pod")) again,
          )
    ]
