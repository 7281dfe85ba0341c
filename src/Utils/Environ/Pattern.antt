-- ===== src/Utils/Environ/Pattern.antt =====
-- The pattern of the variables of services, against the words that the regular expression describes.
use cnpg_plugin_pgbackrest.Base.{
  ℕ, ◌≡◌, ◌≢◌, ◌↔◌, ◌⊎◌, inl, inr, refl, sym, ap, subst, ◌∙◌, Bool, true, false, not, ◌&&◌, ◌||◌,
  List, [], ◌∷◌, ◌++◌, Text, codes, ◌==◌, ==_iff, if◌then◌else◌, contains, str_eq, str_eq_sound,
  str_eq_self, All, Bool-cases, arith,
}
use cnpg_plugin_pgbackrest.Utils.Environ.{
  is_token_byte, begins_word, after_token, matches_tokens, strip_prefix_then, is_service_variable,
  strip_services_from_env,
}

abbrev TokenBytes : Text → Type 0
TokenBytes = All (λ c. is_token_byte c ≡ true)

-- Tokens, each with an underscore behind it, and then one of the two words.
pub data Tokens : Text → Type 0 where
  word : {t : Text} → begins_word t ≡ true → Tokens t
  token :
      {t : Text} (c : ℕ) (tok rest : Text)
      → t ≡ c ∷ (tok ++ b'_' ∷ rest)
      → All (λ c. is_token_byte c ≡ true) (c ∷ tok)
      → Tokens rest
      → Tokens t

-- A text that the regular expression matches: the prefix, and then these.
abbrev pub IsService : Text → Type 0
IsService variable = (rest : Text) × (variable ≡ codes "PGBACKREST_" ++ rest) × Tokens rest

no_underscore : (c : ℕ) → is_token_byte c ≡ true → (c == b'_') ≡ false
unfolding is_token_byte
no_underscore c h = ground (arith, h)

token_begun :
    (seen : Bool) (c : ℕ) (t : Text)
    → is_token_byte c ≡ true
    → after_token seen (c ∷ t) ≡ after_token true t
unfolding after_token
token_begun seen c t h = rw (no_underscore c h, h)

-- A token that has begun or is not empty.
token_read :
    (seen : Bool) (c : ℕ) (tok t : Text)
    → TokenBytes (c ∷ tok)
    → matches_tokens t ≡ true
    → after_token seen (c ∷ (tok ++ b'_' ∷ t)) ≡ true
unfolding after_token matches_tokens
token_read seen c [] t h m = token_begun seen c (b'_' ∷ t) h.0 ∙ m
token_read seen c (d ∷ tok) t h m =
    token_begun seen c (d ∷ (tok ++ b'_' ∷ t)) h.0 ∙ token_read true d tok t h.1 m

or_right : (a : Bool) {b : Bool} → b ≡ true → (a || b) ≡ true
or_right true h = refl
or_right false h = h

Tokens-matches : {t : Text} → Tokens t → matches_tokens t ≡ true
unfolding matches_tokens
Tokens-matches (word {t = t} h) = rw h
Tokens-matches (token {t = t} c tok rest e h tokens) =
    subst (λ t. matches_tokens t ≡ true) (sym e)
      (or_right (begins_word (c ∷ (tok ++ b'_' ∷ rest)))
        (token_read false c tok rest h (Tokens-matches tokens)))

-- What is left of a text behind the token at its begin.
Behind : Bool → Text → Type 0
Behind seen t =
    (tok : Text) × (rest : Text) × (t ≡ tok ++ b'_' ∷ rest)
    × TokenBytes tok
    × ((seen ≡ true) ⊎ (tok ≢ []))
    × Tokens rest

and_both : (a b : Bool) → (a && b) ≡ true → (a ≡ true) × (b ≡ true)
and_both true b h = (refl, h)
and_both false b h = cc

or_either : (a b : Bool) → (a || b) ≡ true → (a ≡ true) ⊎ (b ≡ true)
or_either true b h = inl refl
or_either false b h = inr h

at_underscore :
    (seen : Bool) (c : ℕ) (t : Text)
    → (c == b'_') ≡ true
    → after_token seen (c ∷ t) ≡ (seen && (begins_word t || after_token false t))
unfolding after_token
at_underscore seen c t h = rw h

before_underscore :
    (seen : Bool) (c : ℕ) (t : Text)
    → (c == b'_') ≡ false
    → after_token seen (c ∷ t) ≡ (is_token_byte c && after_token true t)
unfolding after_token
before_underscore seen c t h = rw h

Behind-Tokens : (t : Text) → Behind false t → Tokens t
unfolding Behind
Behind-Tokens t ([], rest, e, bytes, inl seen, tokens) = cc
Behind-Tokens t ([], rest, e, bytes, inr some, tokens) = absurd (some refl)
Behind-Tokens t (c ∷ tok, rest, e, bytes, begun, tokens) = token c tok rest e bytes tokens

-- A text that begins with a token is behind it, and a token byte can be put before it.
Behind-cons :
    (seen : Bool) (c : ℕ) (t : Text) → is_token_byte c ≡ true → Behind true t → Behind seen (c ∷ t)
unfolding Behind
Behind-cons seen c t h (tok, rest, e, bytes, begun, tokens) =
    (c ∷ tok, rest, ap (λ t. c ∷ t) e, (h, bytes), inr (λ none. cc), tokens)

after_token_sound : (seen : Bool) (t : Text) → after_token seen t ≡ true → Behind seen t
unfolding Behind after_token
after_token_sound seen [] h = cc
after_token_sound seen (c ∷ t) h = elim (Bool-cases (c == b'_')) [
  | inl under ↦
      let (begun, more) =
        and_both seen (begins_word t || after_token false t)
          (sym (at_underscore seen c t under) ∙ h) in
      let tokens : Tokens t = elim (or_either (begins_word t) (after_token false t) more) [
        | inl here ↦ word here
        | inr further ↦ Behind-Tokens t (after_token_sound false t further)
      ] in
      ([], t, ap (λ d. d ∷ t) ((==_iff c b'_').0 under), tt, inl begun, tokens)
  | inr other ↦
      let (byte, more) =
        and_both (is_token_byte c) (after_token true t)
          (sym (before_underscore seen c t other) ∙ h) in
      Behind-cons seen c t byte (after_token_sound true t more)
]

matches-Tokens : (t : Text) → matches_tokens t ≡ true → Tokens t
unfolding matches_tokens
matches-Tokens t h = elim (or_either (begins_word t) (after_token false t) h) [
  | inl here ↦ word here
  | inr further ↦ Behind-Tokens t (after_token_sound false t further)
]

strips :
    (f : Text → Bool) (p t : Text)
    → strip_prefix_then f p t ≡ true
    → (rest : Text) × (t ≡ p ++ rest) × (f rest ≡ true)
unfolding strip_prefix_then
strips f [] t h = (t, refl, h)
strips f (a ∷ p) [] h = cc
strips f (a ∷ p) (c ∷ t) h =
    let (same, more) = and_both (a == c) (strip_prefix_then f p t) h in
    let (rest, e, m) = strips f p t more in
    (rest, ap (λ d. d ∷ t) (sym ((==_iff a c).0 same)) ∙ ap (λ l. a ∷ l) e, m)

stripped :
    (f : Text → Bool) (p rest : Text) → f rest ≡ true → strip_prefix_then f p (p ++ rest) ≡ true
unfolding strip_prefix_then
stripped f [] rest h = h
stripped f (a ∷ p) rest h = rw ((==_iff a a).1 refl) (stripped f p rest h)

strip_here :
    (env : List Text) (variable : Text)
    → contains (strip_services_from_env env) variable
      ≡ (contains env variable && not (is_service_variable variable))
    → contains (strip_services_from_env (variable ∷ env)) variable
      ≡ (contains (variable ∷ env) variable && not (is_service_variable variable))
unfolding strip_services_from_env contains
strip_here env variable further = elim (Bool-cases (is_service_variable variable)) [
  | inl service ↦ ground (arith, further, service)
  | inr other ↦ ground (arith, str_eq_self variable, other)
]

skipped :
    (b : Bool) (v variable : Text) (l : List Text)
    → str_eq v variable ≡ false
    → contains (if b then l else v ∷ l) variable ≡ contains l variable
unfolding contains
skipped true v variable l other = refl
skipped false v variable l other = rw other

strip_contains :
    (env : List Text) (variable : Text)
    → contains (strip_services_from_env env) variable
      ≡ (contains env variable && not (is_service_variable variable))
unfolding strip_services_from_env contains
strip_contains [] variable = refl
strip_contains (v ∷ env) variable = elim (Bool-cases (str_eq v variable)) [
  | inl same ↦
      subst
        (λ w.
          contains (strip_services_from_env (w ∷ env)) variable
          ≡ (contains (w ∷ env) variable && not (is_service_variable variable)))
        (sym (str_eq_sound v variable same)) (strip_here env variable (strip_contains env variable))
  | inr other ↦
      skipped (is_service_variable v) v variable (strip_services_from_env env) other
      ∙ strip_contains env variable
      ∙ ap (λ b. (b || contains env variable) && not (is_service_variable variable)) (sym other)
]

-- The pattern matches a variable exactly when the variable is the prefix, tokens of upper-case letters
-- and digits with an underscore behind each, a word PORT or SERVICE, and any rest. The environment
-- without such variables holds exactly the other ones.
pub strip_services_from_env_lem :
    (env : List Text) (variable : Text)
    → ((is_service_variable variable ≡ true) ↔ IsService variable)
      × (contains (strip_services_from_env env) variable
          ≡ (contains env variable && not (is_service_variable variable)))
unfolding is_service_variable
strip_services_from_env_lem env variable = (
  (
    (λ h.
        let (rest, e, m) = strips matches_tokens (codes "PGBACKREST_") variable h in
        (rest, e, matches-Tokens rest m)),
    (λ (rest, e, tokens).
        subst (λ v. strip_prefix_then matches_tokens (codes "PGBACKREST_") v ≡ true) (sym e)
          (stripped matches_tokens (codes "PGBACKREST_") rest (Tokens-matches tokens))),
  ),
  strip_contains env variable,
)
