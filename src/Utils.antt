-- ===== src/Utils.antt =====
-- internal/pgbackrest/utils: the flags and environment variables that carry an index.
pub mod Environ
use cnpg_plugin_pgbackrest.Base.{ℕ, ◌+◌, ◌++◌, ◌∷◌, Text, codes}
use cnpg_plugin_pgbackrest.Go.Strconv.{itoa}

-- `FormatEnv`
unfoldable pub format_env : Text → Text → Text
unfolding codes
format_env env value = codes "PGBACKREST_" ++ (env ++ b'=' ∷ value)

-- `FormatRepoEnv`
unfoldable pub format_repo_env : ℕ → Text → Text → Text
unfolding codes itoa
format_repo_env repository env value =
    codes "PGBACKREST_REPO" ++ (itoa (repository + 1) ++ b'_' ∷ (env ++ b'=' ∷ value))

-- `FormatDbEnv`, which prints the index as it is given.
unfoldable pub format_db_env : ℕ → Text → Text → Text
unfolding codes itoa
format_db_env database env value =
    codes "PGBACKREST_PG" ++ (itoa database ++ b'_' ∷ (env ++ b'=' ∷ value))

-- `FormatRepoFlag`
unfoldable pub format_repo_flag : ℕ → Text → Text
unfolding codes itoa
format_repo_flag repository flag = codes "--repo" ++ (itoa (repository + 1) ++ b'-' ∷ flag)

-- `FormatDbFlag`
unfoldable pub format_db_flag : ℕ → Text → Text
unfolding codes itoa
format_db_flag database flag = codes "--pg" ++ (itoa (database + 1) ++ b'-' ∷ flag)
