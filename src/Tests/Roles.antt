-- ===== src/Tests/Roles.antt =====
-- A cluster with one archive, on an API server that keeps one role and one role binding.
use cnpg_plugin_pgbackrest.Base.{
  ◌≡◌, refl, sym, ap, ◌∙◌, false, ◌&&◌, ◌||◌, List, [], ◌∷◌, Option, none, some, Text, codes,
  is_nil, contains, str_eq, str_eq_self, if◌then◌else◌, Result, ok, err, api_not_found,
  is_not_found, api_forbidden, arith, str_eq_iff,
}
use cnpg_plugin_pgbackrest.Host.{Act}
use cnpg_plugin_pgbackrest.Api.{PgbackrestRepository}
use cnpg_plugin_pgbackrest.Api.Archive.{Archive, zero_archive}
use cnpg_plugin_pgbackrest.Config.{new_from_cluster, get_referred_archive_objects}
use cnpg_plugin_pgbackrest.Credentials.{
  SecretData, env_set_backup_cloud_credentials, env_set_restore_cloud_credentials,
}
use cnpg_plugin_pgbackrest.Role.{Role, RoleBinding, build_role}
use cnpg_plugin_pgbackrest.Role.Grants.{allows, referenced_secrets, build_role-secrets}
use cnpg_plugin_pgbackrest.Role.Covers.{credentials_within_role}
use cnpg_plugin_pgbackrest.Reconciler.{ApiServer, Request, behavior_continue, read_archives, pre}
use cnpg_plugin_pgbackrest.Reconciler.Settles.{IsLawful, HasRole, HasBinding}
use cnpg_plugin_pgbackrest.Reconciler.Again.{pre_settles}
use cnpg_plugin_pgbackrest.Tests.Configs.{small_cluster}

abbrev encrypted : PgbackrestRepository
encrypted = record {
  aws = none;
  encryption = codes "aes-256-cbc";
  encryption_key = some (record { name = codes "cipher"; key = codes "key" });
  endpoint_url = [];
  endpoint_ca = none;
  disable_verify_tls = false;
  destination_path = codes "/backups";
  bucket = codes "bucket";
  retention = none;
}

abbrev small_archive : Archive
unfolding zero_archive
small_archive = record zero_archive {
  name = codes "archive";
  configuration = record zero_archive.configuration { repositories = encrypted ∷ [] };
}

abbrev in_order : List Text → List Text
in_order l = l

build_role-secrets_example :
    allows
      (build_role in_order small_cluster (small_archive ∷ []))
      []
      (codes "secrets")
      (codes "get")
      (codes "cipher")
    ≡ (is_nil (referenced_secrets (small_archive ∷ []))
        || contains (referenced_secrets (small_archive ∷ [])) (codes "cipher"))
build_role-secrets_example =
    build_role-secrets in_order (λ l n. refl) small_cluster (small_archive ∷ []) (codes "cipher")

abbrev open_server : Text → Text → Act (Unit {0}) SecretData
open_server namespace name s = (ok ((codes "key", codes "secret") ∷ []), s)

-- The same secrets, under the role of the cluster.
abbrev guarded_server : Text → Text → Act (Unit {0}) SecretData
guarded_server namespace name s =
    if allows (build_role in_order small_cluster (small_archive ∷ [])) [] (codes "secrets")
      (codes "get") name
    then open_server namespace name s
    else (err api_forbidden, s)

abbrev nothing_done : Act (Unit {0}) (Unit {0})
nothing_done s = (ok tt, s)

credentials_within_role_example :
    (env_set_backup_cloud_credentials open_server
        (λ p. nothing_done)
        (λ p d. nothing_done)
        small_cluster.namespace
        small_archive.configuration
        []
        tt
      ≡ env_set_backup_cloud_credentials guarded_server
          (λ p. nothing_done)
          (λ p d. nothing_done)
          small_cluster.namespace
          small_archive.configuration
          []
          tt)
    × (env_set_restore_cloud_credentials open_server
          (λ p. nothing_done)
          (λ p d. nothing_done)
          small_cluster.namespace
          small_archive.configuration
          []
          tt
        ≡ env_set_restore_cloud_credentials guarded_server
            (λ p. nothing_done)
            (λ p d. nothing_done)
            small_cluster.namespace
            small_archive.configuration
            []
            tt)
credentials_within_role_example =
    credentials_within_role in_order (λ l n. refl) small_cluster [] small_archive [] open_server
      guarded_server (λ p. nothing_done) (λ p d. nothing_done) (λ n h s. rw h) [] tt

role_named : Text → Text → Option Role → Result Role
role_named namespace name none = err api_not_found
role_named namespace name (some r) =
    if str_eq r.namespace namespace && str_eq r.name name then ok r else err api_not_found

binding_named : Text → Text → Option RoleBinding → Result RoleBinding
binding_named namespace name none = err api_not_found
binding_named namespace name (some b) =
    if str_eq b.namespace namespace && str_eq b.name name then ok b else err api_not_found

abbrev small_server : ApiServer
unfolding role_named binding_named
small_server = record {
  State = Option Role × Option RoleBinding;
  get_archive = λ namespace name s. ok small_archive;
  get_role = λ namespace name s. role_named namespace name s.0;
  create_role = λ r s. (ok tt, (some r, s.1));
  patch_role = λ old r s. (ok tt, (some r, s.1));
  get_role_binding = λ namespace name s. binding_named namespace name s.1;
  create_role_binding = λ b s. (ok tt, (s.0, some b));
  set_controller_reference = λ cluster. ok tt;
  to_sorted_list = in_order;
}

role_named_names :
    (namespace name : Text) (o : Option Role) (r : Role)
    → role_named namespace name o ≡ ok r
    → (r.namespace ≡ namespace) × (r.name ≡ name)
unfolding role_named
role_named_names namespace name none r h = cc
role_named_names namespace name (some x) r h =
    ground (arith, str_eq_iff x.namespace namespace, str_eq_iff x.name name)

role_named_self : (r : Role) → role_named r.namespace r.name (some r) ≡ ok r
unfolding role_named
role_named_self r = rw (str_eq_self r.namespace, str_eq_self r.name)

binding_named_self : (b : RoleBinding) → binding_named b.namespace b.name (some b) ≡ ok b
unfolding binding_named
binding_named_self b = rw (str_eq_self b.namespace, str_eq_self b.name)

small_server_lawful : IsLawful small_server
unfolding small_server
small_server_lawful = record {
  get_role-names = λ namespace name role s h. role_named_names namespace name s.0 role h;
  get_role-create = λ role s s' h.
      ap (λ p. role_named role.namespace role.name p.1.0) (sym h) ∙ role_named_self role;
  get_role-patch = λ old role s s' h.
      ap (λ p. role_named role.namespace role.name p.1.0) (sym h) ∙ role_named_self role;
  get_role-create_binding =
      λ binding namespace name s s' h. ap (λ p. role_named namespace name p.1.0) (sym h);
  get_role_binding-create = λ binding s s' h.
      ap (λ p. binding_named binding.namespace binding.name p.1.1) (sym h)
      ∙ binding_named_self binding;
  get_archive-create_role = λ role namespace name s s' h. refl;
  get_archive-patch_role = λ old role namespace name s s' h. refl;
  get_archive-create_binding = λ binding namespace name s s' h. refl;
}

abbrev small_request : Request
small_request = record { kind = ok (codes "Cluster"); cluster = ok small_cluster }

abbrev server_before : small_server.State
unfolding small_server
server_before = (none, none)

abbrev server_after : small_server.State
unfolding server_before small_server pre
server_after = (pre small_server small_request server_before).1

pre_settles_example :
    (archives : List Archive) × (read_archives small_server small_cluster.namespace
        (get_referred_archive_objects (new_from_cluster small_cluster))
        []
        server_before
      ≡ (ok archives, server_before))
    × HasRole small_server small_cluster archives server_after
    × HasBinding small_server small_cluster server_after
    × (pre small_server small_request server_after ≡ (ok behavior_continue, server_after))
unfolding server_after str_eq codes get_referred_archive_objects contains is_not_found
pre_settles_example =
    pre_settles small_server small_server_lawful small_request small_cluster server_before
      server_after refl refl refl
