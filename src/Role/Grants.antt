-- ===== src/Role/Grants.antt =====
-- What the role of a cluster grants.
use cnpg_plugin_pgbackrest.Base.{
  ◌≡◌, refl, sym, ap, ◌∙◌, Bool, true, false, ◌&&◌, ◌||◌, List, [], ◌∷◌, ◌++◌, append-nil,
  append_assoc, Text, codes, str_eq, str_eq_self, contains, is_nil, arith,
}
use cnpg_plugin_pgbackrest.Api.{PgbackrestRepository}
use cnpg_plugin_pgbackrest.Api.Archive.{Archive}
use cnpg_plugin_pgbackrest.Config.{Cluster}
use cnpg_plugin_pgbackrest.Role.{
  PolicyRule, Role, collect_secret_names_from_credentials, collect_secret_names_from_repositories,
  put_repositories, put_archives, build_role,
}

-- How Kubernetes reads a rule: an empty list of resource names stands for every name.
abbrev rule_allows : Text → Text → Text → Text → PolicyRule → Bool
rule_allows group resource verb name rule =
    contains rule.api_groups group
    && contains rule.resources resource
    && contains rule.verbs verb
    && (is_nil rule.resource_names || contains rule.resource_names name)

abbrev any_rule_allows : Text → Text → Text → Text → List PolicyRule → Bool
any_rule_allows group resource verb name [] = false
any_rule_allows group resource verb name (rule ∷ rules) =
    rule_allows group resource verb name rule || any_rule_allows group resource verb name rules

-- A role lets its subjects use a verb on a named resource of its namespace.
abbrev pub allows : Role → Text → Text → Text → Text → Bool
allows role group resource verb name = any_rule_allows group resource verb name role.rules

-- The names of the secrets of some repositories.
abbrev pub repository_secrets : List PgbackrestRepository → List Text
repository_secrets [] = []
repository_secrets (repo ∷ repos) =
    (collect_secret_names_from_credentials repo.aws
      ++ collect_secret_names_from_repositories (repo ∷ []))
    ++ repository_secrets repos

-- The names of the secrets of some archives.
abbrev pub referenced_secrets : List Archive → List Text
referenced_secrets [] = []
referenced_secrets (archive ∷ archives) =
    repository_secrets archive.configuration.repositories ++ referenced_secrets archives

put_repositories_lem :
    (repos : List PgbackrestRepository) (secrets : List Text)
    → put_repositories repos secrets ≡ secrets ++ repository_secrets repos
unfolding put_repositories
put_repositories_lem [] secrets = sym (append-nil secrets)
put_repositories_lem (repo ∷ repos) secrets =
    let here =
      collect_secret_names_from_credentials repo.aws
      ++ collect_secret_names_from_repositories (repo ∷ []) in
    put_repositories_lem repos (secrets ++ here)
    ∙ append_assoc secrets here (repository_secrets repos)

put_archives_lem :
    (archives : List Archive) (names secrets : List Text)
    → (put_archives archives names secrets).1 ≡ secrets ++ referenced_secrets archives
unfolding put_archives
put_archives_lem [] names secrets = sym (append-nil secrets)
put_archives_lem (archive ∷ archives) names secrets =
    let repos = archive.configuration.repositories in
    put_archives_lem archives (names ++ archive.name ∷ []) (put_repositories repos secrets)
    ∙ ap (λ l. l ++ referenced_secrets archives) (put_repositories_lem repos secrets)
    ∙ append_assoc secrets (repository_secrets repos) (referenced_secrets archives)

or_false : (b : Bool) → (b || false) ≡ b
or_false true = refl
or_false false = refl

-- A list with the same members is empty exactly when the other one is.
is_nil-members :
    (l l' : List Text) → ((n : Text) → contains l' n ≡ contains l n) → is_nil l' ≡ is_nil l
unfolding contains
is_nil-members [] [] same = refl
is_nil-members [] (y ∷ l') same = ground (arith, same y, str_eq_self y)
is_nil-members (x ∷ l) [] same = ground (arith, same x, str_eq_self x)
is_nil-members (x ∷ l) (y ∷ l') same = refl

-- The role of a cluster lets its service account get a secret exactly when one of the archives names
-- it, or when no archive names any secret. The sorted list of a set has the members of the set.
pub build_role-secrets :
    (to_sorted_list : List Text → List Text)
    (members : (l : List Text) (n : Text) → contains (to_sorted_list l) n ≡ contains l n)
    (cluster : Cluster) (archives : List Archive) (name : Text)
    → allows (build_role to_sorted_list cluster archives) [] (codes "secrets") (codes "get") name
      ≡ (is_nil (referenced_secrets archives) || contains (referenced_secrets archives) name)
unfolding build_role codes str_eq contains
build_role-secrets to_sorted_list members cluster archives name =
    let put = (put_archives archives [] []).1 in
    let sorted = to_sorted_list put in
    or_false (is_nil sorted || contains sorted name)
    ∙ ap (λ b. b || contains sorted name) (is_nil-members put sorted (members put))
    ∙ ap (λ b. is_nil put || b) (members put name)
    ∙ ap (λ l. is_nil l || contains l name) (put_archives_lem archives [] [])
