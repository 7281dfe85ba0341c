-- ===== src/Reconciler.antt =====
-- internal/cnpgi/operator/reconciler.go: the hook before the reconciliation of a cluster, which keeps
-- the role and the role binding. The API server, `SetControllerReference` and the decoding of the
-- request are parameters.
pub mod Again
pub mod Settles
use cnpg_plugin_pgbackrest.Base.{
  Bool, true, false, not, ◌&&◌, List, [], ◌∷◌, ◌++◌, Text, codes, str_eq, if◌then◌else◌, Result, ok,
  err, Error, is_not_found,
}
use cnpg_plugin_pgbackrest.Host.{Act, ◌>>=◌, ◌>>◌, and_then, return, fail, from_result}
use cnpg_plugin_pgbackrest.Api.Archive.{Archive}
use cnpg_plugin_pgbackrest.Config.{Cluster, new_from_cluster, get_referred_archive_objects}
use cnpg_plugin_pgbackrest.Role.{
  PolicyRule, Role, RoleBinding, build_role, build_role_binding, get_rbac_name,
}

-- The objects of the API server by namespace and name, and the writes on them. A patch is given as
-- the object before it and after it.
pub record ApiServer : Type 1 where
  pub State : Type 0
  pub get_archive : Text → Text → State → Result Archive
  pub get_role : Text → Text → State → Result Role
  pub create_role : Role → Act State (Unit {0})
  pub patch_role : Role → Role → Act State (Unit {0})
  pub get_role_binding : Text → Text → State → Result RoleBinding
  pub create_role_binding : RoleBinding → Act State (Unit {0})
  -- `ctrl.SetControllerReference`, whose mark on the object nothing here reads
  pub set_controller_reference : Cluster → Result (Unit {0})
  -- `stringset.ToSortedList`
  pub to_sorted_list : List Text → List Text

unfoldable pub names_eq : List Text → List Text → Bool
names_eq [] [] = true
names_eq (a ∷ s) (b ∷ t) = str_eq a b && names_eq s t
names_eq _ _ = false

unfoldable pub rule_eq : PolicyRule → PolicyRule → Bool
unfolding names_eq
rule_eq a b =
    names_eq a.api_groups b.api_groups
    && names_eq a.resources b.resources
    && names_eq a.verbs b.verbs
    && names_eq a.resource_names b.resource_names

-- `equality.Semantic.DeepEqual` on lists of rules.
unfoldable pub rules_eq : List PolicyRule → List PolicyRule → Bool
unfolding rule_eq
rules_eq [] [] = true
rules_eq (a ∷ s) (b ∷ t) = rule_eq a b && rules_eq s t
rules_eq _ _ = false

-- `ReconcilerHooksResult_Behavior`
pub data Behavior : Type 0 where
  behavior_continue behavior_requeue : Behavior

-- The `ReconcilerHooksRequest`: the kind of its resource, and the cluster that it decodes to.
pub record Request : Type 0 where
  pub kind : Result Text
  pub cluster : Result Cluster

module _ (api : ApiServer) where
  unfoldable pub missing_role : Bool → Cluster → Role → Error → Act api.State (Unit {0})
  missing_role false cluster new_role e = fail e
  missing_role true cluster new_role e =
      from_result (api.set_controller_reference cluster) >> api.create_role new_role

  unfoldable pub existing_role : Bool → Role → Role → Act api.State (Unit {0})
  existing_role true new_role role = return tt
  existing_role false new_role role = api.patch_role role (record role { rules = new_role.rules })

  unfoldable pub role_found : Cluster → Role → Result Role → Act api.State (Unit {0})
  unfolding rules_eq missing_role existing_role
  role_found cluster new_role (err e) = missing_role (is_not_found e) cluster new_role e
  role_found cluster new_role (ok role) =
      existing_role (rules_eq new_role.rules role.rules) new_role role

  -- `ensureRole`
  unfoldable pub ensure_role : Cluster → List Archive → Act api.State (Unit {0})
  unfolding role_found
  ensure_role cluster archives s =
      let new_role = build_role api.to_sorted_list cluster archives in
      role_found cluster new_role (api.get_role new_role.namespace new_role.name s) s

  -- `createRoleBinding`
  unfoldable pub create_role_binding : Cluster → Act api.State (Unit {0})
  unfolding build_role_binding
  create_role_binding cluster =
      from_result (api.set_controller_reference cluster)
      >> api.create_role_binding (build_role_binding cluster)

  unfoldable pub missing_binding : Bool → Cluster → Error → Act api.State (Unit {0})
  unfolding create_role_binding
  missing_binding false cluster e = fail e
  missing_binding true cluster e = create_role_binding cluster

  unfoldable pub role_binding_found : Cluster → Result RoleBinding → Act api.State (Unit {0})
  unfolding missing_binding
  role_binding_found cluster (ok role_binding) = return tt
  role_binding_found cluster (err e) = missing_binding (is_not_found e) cluster e

  -- `ensureRoleBinding`
  unfoldable pub ensure_role_binding : Cluster → Act api.State (Unit {0})
  unfolding role_binding_found get_rbac_name
  ensure_role_binding cluster s =
      role_binding_found cluster
        (api.get_role_binding cluster.namespace (get_rbac_name cluster.name) s) s

  -- The loop that reads the archives.
  unfoldable pub read_archives : Text → List Text → List Archive → Act api.State (List Archive)
  read_archives namespace [] archives s = (ok archives, s)
  read_archives namespace (name ∷ names) archives s =
      and_then (api.get_archive namespace name s, s)
        (λ archive. read_archives namespace names (archives ++ archive ∷ []))

  unfoldable pub ensure_both : Cluster → List Archive → Act api.State Behavior
  unfolding ensure_role ensure_role_binding
  ensure_both cluster archives = do
    ensure_role cluster archives
    ensure_role_binding cluster
    return behavior_continue

  unfoldable pub requeue_or_fail : Bool → Error → Act api.State Behavior
  requeue_or_fail true e = return behavior_requeue
  requeue_or_fail false e = fail e

  -- The answer for the archives as they were read.
  unfoldable pub after_archives :
      Cluster → Result (List Archive) × api.State → Result Behavior × api.State
  unfolding ensure_both requeue_or_fail
  after_archives cluster (ok archives, s) = ensure_both cluster archives s
  after_archives cluster (err e, s) = requeue_or_fail (is_not_found e) e s

  unfoldable pub pre_cluster : Cluster → Act api.State Behavior
  unfolding after_archives read_archives new_from_cluster
  pre_cluster cluster s = after_archives cluster (
      read_archives cluster.namespace (get_referred_archive_objects (new_from_cluster cluster)) []
        s)

  unfoldable pub pre_kind : Bool → Request → Act api.State Behavior
  unfolding pre_cluster
  pre_kind false request = return behavior_continue
  pre_kind true request = from_result request.cluster >>= pre_cluster

  -- `Pre`
  unfoldable pub pre : Request → Act api.State Behavior
  unfolding pre_kind
  pre request = do kind ← from_result request.kind; pre_kind (str_eq kind (codes "Cluster")) request

-- `Post`
unfoldable pub post : {S : Type 0} → Request → Act S Behavior
post request = return behavior_continue
