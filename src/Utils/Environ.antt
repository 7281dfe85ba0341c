-- ===== src/Utils/Environ.antt =====
-- internal/pgbackrest/utils/env_utils.go: the environment without the variables that Kubernetes adds
-- for services whose names begin with pgbackrest.
pub mod Pattern
use cnpg_plugin_pgbackrest.Base.{
  ℕ, Bool, true, false, not, ◌&&◌, ◌||◌, List, [], ◌∷◌, Text, codes, ◌==◌, leb, if◌then◌else◌,
}

-- `[A-Z0-9]`
unfoldable pub is_token_byte : ℕ → Bool
is_token_byte c = (leb b'A' c && leb c b'Z') || (leb b'0' c && leb c b'9')

unfoldable pub begins_with : Text → Text → Bool
begins_with [] t = true
begins_with (p ∷ ps) [] = false
begins_with (p ∷ ps) (c ∷ t) = (p == c) && begins_with ps t

-- `PORT|SERVICE`
unfoldable pub begins_word : Text → Bool
unfolding begins_with codes
begins_word t = begins_with (codes "PORT") t || begins_with (codes "SERVICE") t

-- The rest of a text for `[A-Z0-9]+_` and what may follow it; the flag says whether the token has a
-- byte yet.
unfoldable pub after_token : Bool → Text → Bool
unfolding begins_word is_token_byte
after_token seen [] = false
after_token seen (c ∷ t) =
    let rest = after_token (not (c == b'_')) t in
    if c == b'_' then seen && (begins_word t || rest) else is_token_byte c && rest

-- `(?:[A-Z0-9]+_)*(?:PORT|SERVICE)` at the begin of a text
unfoldable pub matches_tokens : Text → Bool
unfolding after_token begins_word
matches_tokens t = begins_word t || after_token false t

-- What follows a prefix.
strip_prefix_then : (Text → Bool) → Text → Text → Bool
strip_prefix_then f [] t = f t
strip_prefix_then f (p ∷ ps) [] = false
strip_prefix_then f (p ∷ ps) (c ∷ t) = (p == c) && strip_prefix_then f ps t

-- `PgbackrestServiceEnvVarPattern.MatchString`
unfoldable pub is_service_variable : Text → Bool
unfolding matches_tokens strip_prefix_then codes
is_service_variable variable = strip_prefix_then matches_tokens (codes "PGBACKREST_") variable

-- `stripServicesFromEnv`
unfoldable pub strip_services_from_env : List Text → List Text
unfolding is_service_variable
strip_services_from_env [] = []
strip_services_from_env (variable ∷ env) =
    let rest = strip_services_from_env env in
    if is_service_variable variable then rest else variable ∷ rest
