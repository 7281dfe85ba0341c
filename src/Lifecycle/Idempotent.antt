-- ===== src/Lifecycle/Idempotent.antt =====
-- A sidecar that was injected is not injected again.
use cnpg_plugin_pgbackrest.Base.{
  ◌≡◌, refl, sym, ap, subst, ◌∙◌, inl, inr, Bool, true, false, List, [], ◌∷◌, ◌++◌, Option, none,
  some, Text, codes, str_eq, str_eq_self, Result, ok, Bool-cases, arith,
}
use cnpg_plugin_pgbackrest.Api.Archive.{EnvVar}
use cnpg_plugin_pgbackrest.Config.{Cluster}
use cnpg_plugin_pgbackrest.Lifecycle.{
  PodSpec, Container, Volume, VolumeMount, has_volume, inject_plugin_volume_pod_spec,
  plugin_volume_name, plugin_volume, main_mounts, has_container, final_sidecar, add_sidecar,
  inject_plugin_sidecar_pod_spec, sidecar_for, reconcile_pod_spec,
}

has_volume-snoc :
    (name : Text) (volumes : List Volume) (v : Volume)
    → str_eq v.name name ≡ true
    → has_volume name (volumes ++ v ∷ []) ≡ true
unfolding has_volume
has_volume-snoc name [] v h = rw h
has_volume-snoc name (w ∷ volumes) v h = ground (arith, has_volume-snoc name volumes v h)

has_container-snoc :
    (name : Text) (containers : List Container) (c : Container)
    → str_eq c.name name ≡ true
    → has_container name (containers ++ c ∷ []) ≡ true
unfolding has_container
has_container-snoc name [] c h = rw h
has_container-snoc name (d ∷ containers) c h =
    ground (arith, has_container-snoc name containers c h)

-- The volume is there after the injection.
has_volume-inject :
    (spec : PodSpec) (main : Text)
    → has_volume plugin_volume_name (inject_plugin_volume_pod_spec spec main).volumes ≡ true
unfolding inject_plugin_volume_pod_spec
has_volume-inject spec main = elim (Bool-cases (has_volume plugin_volume_name spec.volumes)) [
  | inl h ↦ rw h h
  | inr h ↦ rw h (
      has_volume-snoc plugin_volume_name spec.volumes plugin_volume
        (str_eq_self plugin_volume_name))
]

inject_present :
    (spec : PodSpec) (main : Text)
    → has_volume plugin_volume_name spec.volumes ≡ true
    → inject_plugin_volume_pod_spec spec main ≡ spec
unfolding inject_plugin_volume_pod_spec
inject_present spec main h = rw h

-- A pod with the volume, the main container and an init container of that name.
Settled : Text → Text → PodSpec → Type 0
Settled name main spec =
    (has_volume plugin_volume_name spec.volumes ≡ true)
    × ((mounts : List VolumeMount) × (main_mounts main spec.containers none ≡ some mounts))
    × (has_container name spec.init_containers ≡ true)

inject-Settled :
    (spec : PodSpec) (sidecar : Container) (main : Text) (b : Bool)
    → Settled sidecar.name main spec
    → inject_plugin_sidecar_pod_spec spec sidecar main b ≡ (ok tt, spec)
unfolding Settled inject_plugin_sidecar_pod_spec add_sidecar
inject-Settled spec sidecar main b (hv, (mounts, hm), hc) = rw (inject_present spec main hv, hm, hc)

abbrev with_sidecar : PodSpec → Container → Bool → List VolumeMount → PodSpec
unfolding final_sidecar
with_sidecar spec sidecar b mounts = record spec {
  init_containers = spec.init_containers ++ final_sidecar sidecar b mounts ∷ [];
}

add_present :
    (spec : PodSpec) (sidecar : Container) (b : Bool) (mounts : List VolumeMount)
    → has_container sidecar.name spec.init_containers ≡ true
    → add_sidecar spec sidecar b (some mounts) ≡ (ok tt, spec)
unfolding add_sidecar
add_present spec sidecar b mounts h = rw h

add_absent :
    (spec : PodSpec) (sidecar : Container) (b : Bool) (mounts : List VolumeMount)
    → has_container sidecar.name spec.init_containers ≡ false
    → add_sidecar spec sidecar b (some mounts) ≡ (ok tt, with_sidecar spec sidecar b mounts)
unfolding add_sidecar
add_absent spec sidecar b mounts h = rw h

-- What an addition that succeeds leaves, from the pod with the volume.
add_settles :
    (spec : PodSpec) (sidecar : Container) (main : Text) (b : Bool)
    (found : Option (List VolumeMount)) (spec' : PodSpec)
    → has_volume plugin_volume_name spec.volumes ≡ true
    → main_mounts main spec.containers none ≡ found
    → add_sidecar spec sidecar b found ≡ (ok tt, spec')
    → Settled sidecar.name main spec'
unfolding Settled add_sidecar
add_settles spec sidecar main b none spec' hv hm h = cc
add_settles spec sidecar main b (some mounts) spec' hv hm h =
    let reached = λ (s : PodSpec) (e : add_sidecar spec sidecar b (some mounts) ≡ (ok tt, s)).
      ap (λ (p : Result (Unit {0}) × PodSpec). p.1) (sym e ∙ h) in
    elim (Bool-cases (has_container sidecar.name spec.init_containers)) [
      | inl hc ↦
          subst (Settled sidecar.name main) (reached spec (add_present spec sidecar b mounts hc))
            (hv, (mounts, hm), hc)
      | inr hc ↦
          subst (Settled sidecar.name main)
            (reached (with_sidecar spec sidecar b mounts) (add_absent spec sidecar b mounts hc))
            (
              hv,
              (mounts, hm),
              has_container-snoc sidecar.name spec.init_containers (final_sidecar sidecar b mounts)
                  (str_eq_self sidecar.name),
            )
    ]

inject_leaves-Settled :
    (spec spec' : PodSpec) (sidecar : Container) (main : Text) (b : Bool)
    → inject_plugin_sidecar_pod_spec spec sidecar main b ≡ (ok tt, spec')
    → Settled sidecar.name main spec'
unfolding inject_plugin_sidecar_pod_spec
inject_leaves-Settled spec spec' sidecar main b h =
    let mounted = inject_plugin_volume_pod_spec spec main in
    add_settles mounted sidecar main b (main_mounts main mounted.containers none) spec'
      (has_volume-inject spec main) refl h

-- A pod that was given the sidecar with success has a container of its name, and is left as it is by
-- each later reconciliation, which succeeds, also when the image, the environment, the resources or the security context differ then.
pub reconcile_pod_spec_settles :
    (spec spec' : PodSpec) (main : Text) (image image' : Text) (cluster cluster' : Cluster)
    (sidecar sidecar' : Container) (envs envs' : List EnvVar)
    (resources resources' security_context security_context' : Option Text)
    → reconcile_pod_spec image cluster spec main sidecar envs resources security_context
      ≡ (ok tt, spec')
    → (has_container (codes "plugin-pgbackrest") spec'.init_containers ≡ true)
      × (reconcile_pod_spec image' cluster' spec' main sidecar' envs' resources' security_context'
          ≡ (ok tt, spec'))
unfolding reconcile_pod_spec sidecar_for Settled
reconcile_pod_spec_settles spec spec' main image image' cluster cluster' sidecar sidecar' envs envs'
      resources resources' security_context security_context' h =
    let settled =
      inject_leaves-Settled spec spec'
        (sidecar_for image cluster spec main sidecar envs resources security_context) main true h in
    (
      settled.2,
      inject-Settled spec'
          (sidecar_for image' cluster' spec' main sidecar' envs' resources' security_context') main
          true settled,
    )
