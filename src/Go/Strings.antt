-- ===== src/Go/Strings.antt =====
-- `strings.HasSuffix`, `strings.TrimSuffix`, and `strings.Split(s, "=")[0]`.
use cnpg_plugin_pgbackrest.Base.{
  ℕ, ◌≡◌, refl, Bool, ◌&&◌, [], ◌∷◌, ◌++◌, Text, ◌==◌, str_eq, if◌then◌else◌, ap, length, ◌-◌, leb,
}

-- The last `n` bytes start after `length s - n` of them.
unfoldable pub drop : ℕ → Text → Text
drop ℕ.zero s = s
drop (ℕ.suc n) [] = []
drop (ℕ.suc n) (c ∷ s) = drop n s

unfoldable pub take : ℕ → Text → Text
take ℕ.zero s = []
take (ℕ.suc n) [] = []
take (ℕ.suc n) (c ∷ s) = c ∷ take n s

unfoldable pub has_suffix : Text → Text → Bool
unfolding drop str_eq
has_suffix s suffix =
    leb (length suffix) (length s) && str_eq (drop (length s - length suffix) s) suffix

unfoldable pub trim_suffix : Text → Text → Text
unfolding has_suffix take
trim_suffix s suffix = if has_suffix s suffix then take (length s - length suffix) s else s

-- The part before the first `=`, or the whole text.
unfoldable pub before_eq : Text → Text
before_eq [] = []
before_eq (c ∷ s) = let rest = before_eq s in if c == b'=' then [] else c ∷ rest

pub drop-append : (s t : Text) → drop (length s) (s ++ t) ≡ t
unfolding drop
drop-append [] t = refl
drop-append (c ∷ s) t = drop-append s t

pub take-append : (s t : Text) → take (length s) (s ++ t) ≡ s
unfolding take
take-append [] t = refl
take-append (c ∷ s) t = ap (λ r. c ∷ r) (take-append s t)
