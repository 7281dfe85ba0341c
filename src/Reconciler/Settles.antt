-- ===== src/Reconciler/Settles.antt =====
-- What the hook before the reconciliation of a cluster leaves.
use cnpg_plugin_pgbackrest.Base.{
  ◌≡◌, refl, sym, ap, subst, ◌∙◌, Bool, true, false, List, [], ◌∷◌, Text, str_eq_iff, str_eq_self,
  Result, ok, err, Error, is_not_found, arith,
}
use cnpg_plugin_pgbackrest.Host.{and_then-ok}
use cnpg_plugin_pgbackrest.Api.Archive.{Archive}
use cnpg_plugin_pgbackrest.Config.{Cluster}
use cnpg_plugin_pgbackrest.Role.{PolicyRule, Role, RoleBinding, build_role, get_rbac_name}
use cnpg_plugin_pgbackrest.Reconciler.{
  ApiServer, missing_role, existing_role, names_eq, rule_eq, rules_eq, role_found, ensure_role,
}

names_eq_sound : (a b : List Text) → names_eq a b ≡ true → a ≡ b
unfolding names_eq
names_eq_sound [] [] h = refl
names_eq_sound [] (y ∷ b) h = cc
names_eq_sound (x ∷ a) [] h = cc
names_eq_sound (x ∷ a) (y ∷ b) h = ground (arith, names_eq_sound a b, str_eq_iff x y)

names_eq_self : (b : List Text) → names_eq b b ≡ true
unfolding names_eq
names_eq_self [] = refl
names_eq_self (y ∷ b) = ground (arith, names_eq_self b, str_eq_self y)

rule_eq_sound : (a b : PolicyRule) → rule_eq a b ≡ true → a ≡ b
unfolding rule_eq
rule_eq_sound a b h = ground (
  arith,
  names_eq_sound a.api_groups b.api_groups,
  names_eq_sound a.resources b.resources,
  names_eq_sound a.verbs b.verbs,
  names_eq_sound a.resource_names b.resource_names,
)

rule_eq_self : (a : PolicyRule) → rule_eq a a ≡ true
unfolding rule_eq
rule_eq_self a = rw (
  names_eq_self a.api_groups,
  names_eq_self a.resources,
  names_eq_self a.verbs,
  names_eq_self a.resource_names,
)

rules_eq_sound : (a b : List PolicyRule) → rules_eq a b ≡ true → a ≡ b
unfolding rules_eq
rules_eq_sound [] [] h = refl
rules_eq_sound [] (y ∷ b) h = cc
rules_eq_sound (x ∷ a) [] h = cc
rules_eq_sound (x ∷ a) (y ∷ b) h = ground (arith, rules_eq_sound a b, rule_eq_sound x y)

rules_eq_self : (a : List PolicyRule) → rules_eq a a ≡ true
unfolding rules_eq
rules_eq_self [] = refl
rules_eq_self (x ∷ a) = ground (arith, rules_eq_self a, rule_eq_self x)

-- A read gives the object of that namespace and name; what was created or patched is read after it;
-- the writes on roles and bindings leave the archives, and those on bindings the roles.
pub record IsLawful (api : ApiServer) : Type 0 where
  pub get_role-names :
      (namespace name : Text) (role : Role) (s : api.State)
      → api.get_role namespace name s ≡ ok role
      → (role.namespace ≡ namespace) × (role.name ≡ name)
  pub get_role-create :
      (role : Role) (s s' : api.State)
      → api.create_role role s ≡ (ok tt, s')
      → api.get_role role.namespace role.name s' ≡ ok role
  pub get_role-patch :
      (old role : Role) (s s' : api.State)
      → api.patch_role old role s ≡ (ok tt, s')
      → api.get_role role.namespace role.name s' ≡ ok role
  pub get_role-create_binding :
      (binding : RoleBinding) (namespace name : Text) (s s' : api.State)
      → api.create_role_binding binding s ≡ (ok tt, s')
      → api.get_role namespace name s' ≡ api.get_role namespace name s
  pub get_role_binding-create :
      (binding : RoleBinding) (s s' : api.State)
      → api.create_role_binding binding s ≡ (ok tt, s')
      → api.get_role_binding binding.namespace binding.name s' ≡ ok binding
  pub get_archive-create_role :
      (role : Role) (namespace name : Text) (s s' : api.State)
      → api.create_role role s ≡ (ok tt, s')
      → api.get_archive namespace name s' ≡ api.get_archive namespace name s
  pub get_archive-patch_role :
      (old role : Role) (namespace name : Text) (s s' : api.State)
      → api.patch_role old role s ≡ (ok tt, s')
      → api.get_archive namespace name s' ≡ api.get_archive namespace name s
  pub get_archive-create_binding :
      (binding : RoleBinding) (namespace name : Text) (s s' : api.State)
      → api.create_role_binding binding s ≡ (ok tt, s')
      → api.get_archive namespace name s' ≡ api.get_archive namespace name s

module _ (api : ApiServer) where
  -- The archives are read alike in two states.
  abbrev pub SameArchives : api.State → api.State → Type 0
  SameArchives s s' =
      (namespace name : Text) → api.get_archive namespace name s' ≡ api.get_archive namespace name s

  -- The role of the cluster is there with the rules that are built for the archives.
  abbrev pub HasRole : Cluster → List Archive → api.State → Type 0
  HasRole cluster archives s =
      let new_role = build_role api.to_sorted_list cluster archives in
      (role : Role) × (api.get_role new_role.namespace new_role.name s ≡ ok role)
      × (role.rules ≡ new_role.rules)

  abbrev pub HasBinding : Cluster → api.State → Type 0
  HasBinding cluster s =
      (binding : RoleBinding) × (api.get_role_binding cluster.namespace (get_rbac_name cluster.name)
          s
        ≡ ok binding)

module _ (api : ApiServer) (law : IsLawful api) where
  missing_role_keeps :
      (b : Bool) (cluster : Cluster) (archives : List Archive) (e : Error) (s s' : api.State)
      → missing_role api b cluster (build_role api.to_sorted_list cluster archives) e s
        ≡ (ok tt, s')
      → SameArchives api s s' × HasRole api cluster archives s'
  unfolding missing_role
  missing_role_keeps false cluster archives e s s' h = cc
  missing_role_keeps true cluster archives e s s' h =
      let new_role = build_role api.to_sorted_list cluster archives in
      let (u, s1, set, created) =
        and_then-ok (api.set_controller_reference cluster, s) (λ _. api.create_role new_role) tt s'
          h in
      let done =
        subst (λ t. api.create_role new_role t ≡ (ok tt, s')) (ap (λ p. p.1) (sym set)) created in
      (
        (λ namespace name. law.get_archive-create_role new_role namespace name s s' done),
        (new_role, law.get_role-create new_role s s' done, refl),
      )

  existing_role_keeps :
      (b : Bool) (cluster : Cluster) (archives : List Archive) (role : Role) (s s' : api.State)
      → rules_eq (build_role api.to_sorted_list cluster archives).rules role.rules ≡ b
      → api.get_role
          (build_role api.to_sorted_list cluster archives).namespace
          (build_role api.to_sorted_list cluster archives).name
          s
        ≡ ok role
      → existing_role api b (build_role api.to_sorted_list cluster archives) role s ≡ (ok tt, s')
      → SameArchives api s s' × HasRole api cluster archives s'
  unfolding existing_role
  existing_role_keeps true cluster archives role s s' same there h =
      let new_role = build_role api.to_sorted_list cluster archives in
      let stay = ap (λ (p : Result (Unit {0}) × api.State). p.1) h in
      (
        (λ namespace name. ap (api.get_archive namespace name) (sym stay)),
        (
          role,
          ap (api.get_role new_role.namespace new_role.name) (sym stay) ∙ there,
          sym (rules_eq_sound new_role.rules role.rules same),
        ),
      )
  existing_role_keeps false cluster archives role s s' same there h =
      let new_role = build_role api.to_sorted_list cluster archives in
      let patched = record role { rules = new_role.rules } in
      let names = law.get_role-names new_role.namespace new_role.name role s there in
      (
        (λ namespace name. law.get_archive-patch_role role patched namespace name s s' h),
        (
          patched,
          ap (λ n. api.get_role n new_role.name s') (sym names.0)
              ∙ ap (λ n. api.get_role role.namespace n s') (sym names.1)
              ∙ law.get_role-patch role patched s s' h,
          refl,
        ),
      )

  role_found_keeps :
      (cluster : Cluster) (archives : List Archive) (r : Result Role) (s s' : api.State)
      → api.get_role
          (build_role api.to_sorted_list cluster archives).namespace
          (build_role api.to_sorted_list cluster archives).name
          s
        ≡ r
      → role_found api cluster (build_role api.to_sorted_list cluster archives) r s ≡ (ok tt, s')
      → SameArchives api s s' × HasRole api cluster archives s'
  unfolding role_found
  role_found_keeps cluster archives (err e) s s' there h =
      missing_role_keeps (is_not_found e) cluster archives e s s' h
  role_found_keeps cluster archives (ok role) s s' there h =
      existing_role_keeps
        (rules_eq (build_role api.to_sorted_list cluster archives).rules role.rules) cluster
        archives role s s' refl there h

  pub ensure_role_keeps :
      (cluster : Cluster) (archives : List Archive) (s s' : api.State)
      → ensure_role api cluster archives s ≡ (ok tt, s')
      → SameArchives api s s' × HasRole api cluster archives s'
  unfolding ensure_role
  ensure_role_keeps cluster archives s s' h =
      let new_role = build_role api.to_sorted_list cluster archives in
      role_found_keeps cluster archives (api.get_role new_role.namespace new_role.name s) s s' refl
        h

  -- Nothing is written where the role is there with its rules.
  pub ensure_role_settled :
      (cluster : Cluster) (archives : List Archive) (s : api.State)
      → HasRole api cluster archives s
      → ensure_role api cluster archives s ≡ (ok tt, s)
  unfolding ensure_role role_found existing_role
  ensure_role_settled cluster archives s (role, there, same) =
      rw (there, same, rules_eq_self (build_role api.to_sorted_list cluster archives).rules)
