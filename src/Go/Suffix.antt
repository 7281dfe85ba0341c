-- ===== src/Go/Suffix.antt =====
-- What `strings.HasSuffix` and `strings.TrimSuffix` say of a text.
use cnpg_plugin_pgbackrest.Base.{
  ℕ, ◌-◌, ◌≡◌, ap, ◌∙◌, refl, true, false, [], ◌∷◌, ◌++◌, Text, str_eq_iff, str_eq_self, length,
  length-append, leb, arith,
}
use cnpg_plugin_pgbackrest.Go.Strings.{drop, take, has_suffix, trim_suffix, drop-append}

take-drop : (n : ℕ) (s : Text) → s ≡ take n s ++ drop n s
unfolding take drop
take-drop ℕ.zero s = refl
take-drop (ℕ.suc n) [] = refl
take-drop (ℕ.suc n) (c ∷ s) = ap (λ r. c ∷ r) (take-drop n s)

drop_of_suffix :
    (s suffix : Text) → has_suffix s suffix ≡ true → drop (length s - length suffix) s ≡ suffix
unfolding has_suffix
drop_of_suffix s suffix h = (str_eq_iff (drop (length s - length suffix) s) suffix).0 (ground arith)

-- What is left in front of a suffix, together with the suffix, is the text.
pub trim_suffix_lem :
    (s suffix : Text) → has_suffix s suffix ≡ true → s ≡ trim_suffix s suffix ++ suffix
unfolding trim_suffix
trim_suffix_lem s suffix h = rw h (
    take-drop (length s - length suffix) s
    ∙ ap (λ r. take (length s - length suffix) s ++ r) (drop_of_suffix s suffix h))

length_front : (p suffix : Text) → length (p ++ suffix) - length suffix ≡ length p
length_front p suffix = omega (arith, length-append p suffix)

fits_suffix : (p suffix : Text) → leb (length suffix) (length (p ++ suffix)) ≡ true
fits_suffix p suffix = ground (arith, length-append p suffix)

pub has_suffix-append : (p suffix : Text) → has_suffix (p ++ suffix) suffix ≡ true
unfolding has_suffix
has_suffix-append p suffix =
    rw (fits_suffix p suffix, length_front p suffix, drop-append p suffix, str_eq_self suffix)

pub not_suffix : (s front suffix : Text) → has_suffix s suffix ≡ false → s ≡ front ++ suffix → ⊥
not_suffix s front suffix h e =
    let yes : has_suffix s suffix ≡ true =
      ap (λ w. has_suffix w suffix) e ∙ has_suffix-append front suffix in
    cc
