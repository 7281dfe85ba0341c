-- ===== src/Base/Distinctness.antt =====
-- Lists of texts with no text twice.
use mathlib.Core.Bool.{false, ◌||◌}
use mathlib.Core.List.{List, [], ◌∷◌, ◌++◌}
use mathlib.Core.Path.{◌≡◌, refl, ◌∙◌}
use native.Mathlib.Omega.{arith}
use cnpg_plugin_pgbackrest.Base.Texts.{Text, contains, str_eq_iff, str_eq}

-- No name stands in the list twice.
abbrev pub Distinct : List Text → Type 0
Distinct [] = Unit
Distinct (n ∷ names) = (contains names n ≡ false) × Distinct names

pub contains-snoc :
    (l : List Text) (n m : Text) → contains (l ++ n ∷ []) m ≡ (contains l m || str_eq n m)
unfolding contains
contains-snoc [] n m = ground arith
contains-snoc (x ∷ l) n m = ground (arith, contains-snoc l n m)

pub Distinct-snoc :
    (l : List Text) (n : Text) → contains l n ≡ false → Distinct l → Distinct (l ++ n ∷ [])
unfolding contains
Distinct-snoc [] n h d = (refl, tt)
Distinct-snoc (x ∷ l) n h (fresh, d) = (
  contains-snoc l n x ∙ ground (arith, str_eq_iff x n, str_eq_iff n x),
  Distinct-snoc l n (ground arith) d,
)
