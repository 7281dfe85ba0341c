-- ===== src/Reconciler/Again.antt =====
-- The hook before the reconciliation of a cluster, run again.
use cnpg_plugin_pgbackrest.Base.{
  ◌≡◌, refl, sym, ap, subst, ◌∙◌, Bool, true, false, List, [], ◌∷◌, ◌++◌, Text, codes, str_eq_self,
  ◌≢◌, Result, ok, err, Error, is_not_found,
}
use cnpg_plugin_pgbackrest.Host.{and_then, and_then-ok}
use cnpg_plugin_pgbackrest.Api.Archive.{Archive}
use cnpg_plugin_pgbackrest.Config.{Cluster, new_from_cluster, get_referred_archive_objects}
use cnpg_plugin_pgbackrest.Role.{RoleBinding, build_role, build_role_binding, get_rbac_name}
use cnpg_plugin_pgbackrest.Reconciler.{
  ApiServer, Request, behavior_continue, missing_binding, requeue_or_fail, create_role_binding,
  role_binding_found, ensure_role, ensure_role_binding, read_archives, ensure_both, after_archives,
  pre_cluster, pre_kind, pre,
}
use cnpg_plugin_pgbackrest.Reconciler.Settles.{
  IsLawful, SameArchives, HasRole, HasBinding, ensure_role_keeps, ensure_role_settled,
}

module _ (api : ApiServer) (law : IsLawful api) where
  SameRoles : api.State → api.State → Type 0
  SameRoles s s' =
      (namespace name : Text) → api.get_role namespace name s' ≡ api.get_role namespace name s

  abbrev BindingKeeps : Cluster → api.State → api.State → Type 0
  BindingKeeps cluster s s' = SameArchives api s s' × SameRoles s s' × HasBinding api cluster s'

  missing_binding_keeps :
      (b : Bool) (cluster : Cluster) (e : Error) (s s' : api.State)
      → missing_binding api b cluster e s ≡ (ok tt, s')
      → BindingKeeps cluster s s'
  unfolding missing_binding create_role_binding SameRoles build_role_binding
  missing_binding_keeps false cluster e s s' h = cc
  missing_binding_keeps true cluster e s s' h =
      let binding = build_role_binding cluster in
      let (u, s1, set, created) =
        and_then-ok (api.set_controller_reference cluster, s) (λ _. api.create_role_binding binding)
          tt s' h in
      let done =
        subst (λ t. api.create_role_binding binding t ≡ (ok tt, s')) (ap (λ p. p.1) (sym set))
          created in
      (
        (λ namespace name. law.get_archive-create_binding binding namespace name s s' done),
        (λ namespace name. law.get_role-create_binding binding namespace name s s' done),
        (binding, law.get_role_binding-create binding s s' done),
      )

  role_binding_found_keeps :
      (cluster : Cluster) (r : Result RoleBinding) (s s' : api.State)
      → api.get_role_binding cluster.namespace (get_rbac_name cluster.name) s ≡ r
      → role_binding_found api cluster r s ≡ (ok tt, s')
      → BindingKeeps cluster s s'
  unfolding role_binding_found SameRoles
  role_binding_found_keeps cluster (err e) s s' there h =
      missing_binding_keeps (is_not_found e) cluster e s s' h
  role_binding_found_keeps cluster (ok binding) s s' there h =
      let stay = ap (λ (p : Result (Unit {0}) × api.State). p.1) (sym h) in
      (
        (λ namespace name. ap (api.get_archive namespace name) stay),
        (λ namespace name. ap (api.get_role namespace name) stay),
        (
          binding,
          ap (api.get_role_binding cluster.namespace (get_rbac_name cluster.name)) stay ∙ there,
        ),
      )

  ensure_role_binding_keeps :
      (cluster : Cluster) (s s' : api.State)
      → ensure_role_binding api cluster s ≡ (ok tt, s')
      → BindingKeeps cluster s s'
  unfolding ensure_role_binding
  ensure_role_binding_keeps cluster s s' h =
      role_binding_found_keeps cluster
        (api.get_role_binding cluster.namespace (get_rbac_name cluster.name) s) s s' refl h

  ensure_role_binding_settled :
      (cluster : Cluster) (s : api.State)
      → HasBinding api cluster s
      → ensure_role_binding api cluster s ≡ (ok tt, s)
  unfolding ensure_role_binding role_binding_found
  ensure_role_binding_settled cluster s (binding, there) = rw there

  -- What a success of both leaves.
  ensure_both_keeps :
      (cluster : Cluster) (archives : List Archive) (s s' : api.State)
      → ensure_both api cluster archives s ≡ (ok behavior_continue, s')
      → SameArchives api s s' × HasRole api cluster archives s' × HasBinding api cluster s'
  unfolding ensure_both SameRoles
  ensure_both_keeps cluster archives s s' h =
      let (u, s1, first, h1) =
        and_then-ok (ensure_role api cluster archives s)
          (λ _ t. and_then (ensure_role_binding api cluster t) (λ _ t'. (ok behavior_continue, t')))
          behavior_continue s' h in
      let (v, s2, second, h2) =
        and_then-ok (ensure_role_binding api cluster s1) (λ _ t'. (ok behavior_continue, t'))
          behavior_continue s' h1 in
      let (archives1, (role, there, rules)) =
        ensure_role_keeps api law cluster archives s s1 first in
      let done =
        subst (λ t. ensure_role_binding api cluster s1 ≡ (ok tt, t)) (ap (λ p. p.1) h2) second in
      let (archives2, roles2, binding2) = ensure_role_binding_keeps cluster s1 s' done in
      let new_role = build_role api.to_sorted_list cluster archives in
      (
        (λ namespace name. archives2 namespace name ∙ archives1 namespace name),
        (role, roles2 new_role.namespace new_role.name ∙ there, rules),
        binding2,
      )

  ensure_both_settled :
      (cluster : Cluster) (archives : List Archive) (s : api.State)
      → HasRole api cluster archives s
      → HasBinding api cluster s
      → ensure_both api cluster archives s ≡ (ok behavior_continue, s)
  unfolding ensure_both
  ensure_both_settled cluster archives s has_role has_binding = rw (
    ensure_role_settled api law cluster archives s has_role,
    ensure_role_binding_settled cluster s has_binding,
  )

  read_archives_again :
      (namespace : Text) (names : List Text) (found archives : List Archive) (s s' t : api.State)
      → SameArchives api s s'
      → read_archives api namespace names found s ≡ (ok archives, t)
      → (t ≡ s) × (read_archives api namespace names found s' ≡ (ok archives, s'))
  unfolding read_archives
  read_archives_again namespace [] found archives s s' t same h = (
    ap (λ (p : Result (List Archive) × api.State). p.1) (sym h),
    rw (ap (λ (p : Result (List Archive) × api.State). p.0) h),
  )
  read_archives_again namespace (name ∷ names) found archives s s' t same h =
      let (archive, s1, got, rest) =
        and_then-ok (api.get_archive namespace name s, s)
          (λ archive. read_archives api namespace names (found ++ archive ∷ [])) archives t h in
      let here =
        subst (λ u. read_archives api namespace names (found ++ archive ∷ []) u ≡ (ok archives, t))
          (ap (λ p. p.1) (sym got)) rest in
      let (same_state, again) =
        read_archives_again namespace names (found ++ archive ∷ []) archives s s' t same here in
      (same_state, rw (same namespace name ∙ ap (λ p. p.0) got) again)

  Settled : Cluster → api.State → api.State → Type 0
  Settled cluster s s' =
      (archives : List Archive) × (read_archives api cluster.namespace
          (get_referred_archive_objects (new_from_cluster cluster)) [] s
        ≡ (ok archives, s))
      × HasRole api cluster archives s'
      × HasBinding api cluster s'
      × (pre_cluster api cluster s' ≡ (ok behavior_continue, s'))

  no_continue :
      (b : Bool) (e : Error) (s s' : api.State)
      → requeue_or_fail api b e s ≢ (ok behavior_continue, s')
  unfolding requeue_or_fail
  no_continue true e s s' h = cc
  no_continue false e s s' h = cc

  after_archives_settles :
      (cluster : Cluster) (r : Result (List Archive) × api.State) (s s' : api.State)
      → read_archives api cluster.namespace
          (get_referred_archive_objects (new_from_cluster cluster))
          []
          s
        ≡ r
      → after_archives api cluster r ≡ (ok behavior_continue, s')
      → Settled cluster s s'
  unfolding after_archives Settled pre_cluster
  after_archives_settles cluster (err e, t) s s' read h =
      absurd (no_continue (is_not_found e) e t s' h)
  after_archives_settles cluster (ok archives, t) s s' read h =
      let names = get_referred_archive_objects (new_from_cluster cluster) in
      let (kept, role, binding) = ensure_both_keeps cluster archives t s' h in
      let back =
        (read_archives_again cluster.namespace names [] archives s s t (λ ns n. refl) read).0 in
      let same =
        λ (namespace name : Text). kept namespace name ∙ ap (api.get_archive namespace name) back in
      (
        archives,
        read ∙ ap (λ u. (ok archives, u)) back,
        role,
        binding,
        ap (after_archives api cluster)
              (read_archives_again cluster.namespace names [] archives s s' t same read).1
            ∙ ensure_both_settled cluster archives s' role binding,
      )

  pre_of_cluster :
      (request : Request) (cluster : Cluster) (s : api.State)
      → request.kind ≡ ok (codes "Cluster")
      → request.cluster ≡ ok cluster
      → pre api request s ≡ pre_cluster api cluster s
  unfolding pre pre_kind
  pre_of_cluster request cluster s kind decoded = rw (kind, str_eq_self (codes "Cluster"), decoded)

  -- Where the hook answers for a cluster that the reconciliation continues, the archives that the
  -- configuration names were read, the role of the cluster is there with the rules that are built for
  -- them, the role binding is there, and the hook run again continues and writes nothing. For an API
  -- server that reads what was written.
  pub pre_settles :
      (request : Request) (cluster : Cluster) (s s' : api.State)
      → request.kind ≡ ok (codes "Cluster")
      → request.cluster ≡ ok cluster
      → pre api request s ≡ (ok behavior_continue, s')
      → (archives : List Archive) × (read_archives api cluster.namespace
            (get_referred_archive_objects (new_from_cluster cluster))
            []
            s
          ≡ (ok archives, s))
        × HasRole api cluster archives s'
        × HasBinding api cluster s'
        × (pre api request s' ≡ (ok behavior_continue, s'))
  unfolding Settled pre_cluster
  pre_settles request cluster s s' kind decoded h =
      let run = λ (t : api.State). pre_of_cluster request cluster t kind decoded in
      let (archives, read, role, binding, again) =
        after_archives_settles cluster
          (read_archives api cluster.namespace
            (get_referred_archive_objects (new_from_cluster cluster)) [] s)
          s s' refl (sym (run s) ∙ h) in
      (archives, read, role, binding, run s' ∙ again)
