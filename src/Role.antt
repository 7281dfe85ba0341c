-- ===== src/Role.antt =====
-- internal/cnpgi/operator/specs: the role and the role binding of a cluster. `stringset` stands as the
-- sequence of what was put, and its `ToSortedList` is a parameter.
pub mod Grants
pub mod Covers
pub mod Readers
use cnpg_plugin_pgbackrest.Base.{List, [], ◌∷◌, ◌++◌, Option, none, some, Text, codes}
use cnpg_plugin_pgbackrest.Api.{SecretKeySelector, S3Credentials, PgbackrestRepository}
use cnpg_plugin_pgbackrest.Api.Archive.{Archive}
use cnpg_plugin_pgbackrest.Config.{Cluster}

-- `rbacv1.PolicyRule`
pub record PolicyRule : Type 0 where
  pub api_groups : List Text
  pub resources : List Text
  pub verbs : List Text
  pub resource_names : List Text

pub record Role : Type 0 where
  pub namespace : Text
  pub name : Text
  pub rules : List PolicyRule

pub record Subject : Type 0 where
  pub kind : Text
  pub api_group : Text
  pub name : Text
  pub namespace : Text

-- `rbacv1.RoleBinding`, with its role reference.
pub record RoleBinding : Type 0 where
  pub namespace : Text
  pub name : Text
  pub subjects : List Subject
  pub role_api_group : Text
  pub role_kind : Text
  pub role_name : Text

-- `GetRBACName`
unfoldable pub get_rbac_name : Text → Text
get_rbac_name cluster_name = cluster_name ++ codes "-pgbackrest"

unfoldable pub reference_names : List (Option SecretKeySelector) → List Text
reference_names [] = []
reference_names (none ∷ references) = reference_names references
reference_names (some reference ∷ references) = reference.name ∷ reference_names references

-- `CollectSecretNamesFromCredentials`
unfoldable pub collect_secret_names_from_credentials : Option S3Credentials → List Text
unfolding reference_names
collect_secret_names_from_credentials none = []
collect_secret_names_from_credentials (some aws) =
    reference_names (aws.access_key_id_reference ∷ aws.secret_access_key_reference ∷ [])

-- `CollectSecretNamesFromRepositories`
unfoldable pub collect_secret_names_from_repositories : List PgbackrestRepository → List Text
unfolding reference_names
collect_secret_names_from_repositories [] = []
collect_secret_names_from_repositories (repo ∷ repos) =
    reference_names (repo.endpoint_ca ∷ repo.encryption_key ∷ [])
    ++ collect_secret_names_from_repositories repos

-- What the inner loop of `BuildRole` puts for the repositories of one archive.
unfoldable pub put_repositories : List PgbackrestRepository → List Text → List Text
unfolding collect_secret_names_from_credentials collect_secret_names_from_repositories
put_repositories [] secrets = secrets
put_repositories (repo ∷ repos) secrets = put_repositories repos (
    secrets
    ++ (collect_secret_names_from_credentials repo.aws
        ++ collect_secret_names_from_repositories (repo ∷ [])))

-- The loop of `BuildRole`: the two sets.
unfoldable pub put_archives : List Archive → List Text → List Text → List Text × List Text
unfolding put_repositories
put_archives [] names secrets = (names, secrets)
put_archives (archive ∷ archives) names secrets =
    put_archives archives (names ++ archive.name ∷ [])
      (put_repositories archive.configuration.repositories secrets)

abbrev read_verbs : List Text
read_verbs = codes "get" ∷ codes "watch" ∷ codes "list" ∷ []

-- `BuildRole`
unfoldable pub build_role : (List Text → List Text) → Cluster → List Archive → Role
unfolding put_archives get_rbac_name
build_role to_sorted_list cluster archives =
    let (names, secrets) = put_archives archives [] [] in
    record {
      namespace = cluster.namespace;
      name = get_rbac_name cluster.name;
      rules =
          record {
            api_groups = codes "pgbackrest.cnpg.opera.com" ∷ [];
            resources = codes "archives" ∷ [];
            verbs = read_verbs;
            resource_names = to_sorted_list names;
          }
          ∷ record {
            api_groups = [] ∷ [];
            resources = codes "secrets" ∷ [];
            verbs = read_verbs;
            resource_names = to_sorted_list secrets;
          }
          ∷ [];
    }

-- `BuildRoleBinding`
unfoldable pub build_role_binding : Cluster → RoleBinding
unfolding get_rbac_name
build_role_binding cluster = record {
  namespace = cluster.namespace;
  name = get_rbac_name cluster.name;
  subjects =
      record {
        kind = codes "ServiceAccount";
        api_group = [];
        name = cluster.name;
        namespace = cluster.namespace;
      }
      ∷ [];
  role_api_group = codes "rbac.authorization.k8s.io";
  role_kind = codes "Role";
  role_name = get_rbac_name cluster.name;
}
