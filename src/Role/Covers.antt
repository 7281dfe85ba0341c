-- ===== src/Role/Covers.antt =====
-- The secrets that the credentials are read from, against the role of the cluster.
use cnpg_plugin_pgbackrest.Base.{
  ◌≡◌, refl, ◌∙◌, Bool, true, false, ◌||◌, List, [], ◌∷◌, ◌++◌, Text, codes, contains, is_nil,
  arith,
}
use cnpg_plugin_pgbackrest.Host.{Act}
use cnpg_plugin_pgbackrest.Api.Archive.{Archive}
use cnpg_plugin_pgbackrest.Config.{Cluster}
use cnpg_plugin_pgbackrest.Role.{build_role}
use cnpg_plugin_pgbackrest.Role.Grants.{
  allows, repository_secrets, referenced_secrets, build_role-secrets,
}
use cnpg_plugin_pgbackrest.Credentials.{
  SecretData, env_set_backup_cloud_credentials, env_set_restore_cloud_credentials,
}
use cnpg_plugin_pgbackrest.Base.Members.{contains-append, All-members}
use cnpg_plugin_pgbackrest.Role.Readers.{backup-agree, restore-agree}

or_right : (a : Bool) {b : Bool} → b ≡ true → (a || b) ≡ true
or_right true h = refl
or_right false h = h

-- The secrets of an archive are among those of all archives.
referenced-member :
    (before : List Archive) (archive : Archive) (after : List Archive) (n : Text)
    → contains (repository_secrets archive.configuration.repositories) n ≡ true
    → contains (referenced_secrets (before ++ archive ∷ after)) n ≡ true
referenced-member [] archive after n h =
    contains-append (repository_secrets archive.configuration.repositories)
      (referenced_secrets after) n
    ∙ rw h
referenced-member (a ∷ before) archive after n h =
    contains-append (repository_secrets a.configuration.repositories)
      (referenced_secrets (before ++ archive ∷ after)) n
    ∙ ground (arith, referenced-member before archive after n h)

-- The credentials of a backup and of a restore with one of the archives of a cluster are read from
-- no secret that the cluster's role does not let its service account get: where two API servers
-- answer alike for each secret that the role allows, the variables, the files and the errors are
-- the same. The sorted list of a set has the members of the set.
pub credentials_within_role :
    (to_sorted_list : List Text → List Text)
    (members : (l : List Text) (n : Text) → contains (to_sorted_list l) n ≡ contains l n)
    (cluster : Cluster) (before : List Archive) (archive : Archive) (after : List Archive)
    {S : Type 0} (get get' : Text → Text → Act S SecretData) (mkdir_all : Text → Act S (Unit {0}))
    (write_file : Text → Text → Act S (Unit {0}))
    (agree : (n : Text)
      → allows
          (build_role to_sorted_list cluster (before ++ archive ∷ after))
          []
          (codes "secrets")
          (codes "get")
          n
        ≡ true
      → (s : S) → get cluster.namespace n s ≡ get' cluster.namespace n s)
    (env : List Text) (s : S)
    → (env_set_backup_cloud_credentials get mkdir_all write_file cluster.namespace
          archive.configuration env s
        ≡ env_set_backup_cloud_credentials get' mkdir_all write_file cluster.namespace
            archive.configuration env s)
      × (env_set_restore_cloud_credentials get mkdir_all write_file cluster.namespace
            archive.configuration env s
          ≡ env_set_restore_cloud_credentials get' mkdir_all write_file cluster.namespace
              archive.configuration env s)
credentials_within_role to_sorted_list members cluster before archive after get get' mkdir_all
      write_file agree env s =
    let archives = before ++ archive ∷ after in
    let granted = λ (n : Text).
      allows (build_role to_sorted_list cluster archives) [] (codes "secrets") (codes "get") n in
    let all =
      All-members (λ n. granted n ≡ true) (repository_secrets archive.configuration.repositories)
        (λ n h.
          build_role-secrets to_sorted_list members cluster archives n
          ∙ or_right (is_nil (referenced_secrets archives))
              (referenced-member before archive after n h)) in
    (
      backup-agree get get' mkdir_all write_file cluster.namespace granted agree
          archive.configuration env s all,
      restore-agree get get' mkdir_all write_file cluster.namespace granted agree
          archive.configuration env s all,
    )
