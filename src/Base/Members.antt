-- ===== src/Base/Members.antt =====
-- Membership in a list of texts.
use cnpg_plugin_pgbackrest.Base.{
  ◌≡◌, refl, true, ◌||◌, List, [], ◌∷◌, ◌++◌, Text, str_eq_self, contains, All, arith,
}

pub contains-append :
    (xs ys : List Text) (t : Text) → contains (xs ++ ys) t ≡ (contains xs t || contains ys t)
unfolding contains
contains-append [] ys t = refl
contains-append (x ∷ xs) ys t = ground (arith, contains-append xs ys t)

pub contains_left :
    (xs ys : List Text) (t : Text) → contains xs t ≡ true → contains (xs ++ ys) t ≡ true
contains_left xs ys t h = ground (arith, contains-append xs ys t)

pub contains_right :
    (xs ys : List Text) (t : Text) → contains ys t ≡ true → contains (xs ++ ys) t ≡ true
contains_right xs ys t h = ground (arith, contains-append xs ys t)

pub contains_head : (t : Text) (ys : List Text) → contains (t ∷ ys) t ≡ true
unfolding contains
contains_head t ys = rw (str_eq_self t)

pub All-members :
    (P : Text → Type 0) (l : List Text) → ((n : Text) → contains l n ≡ true → P n) → All P l
unfolding contains
All-members P [] h = tt
All-members P (x ∷ l) h =
    (h x (ground (arith, str_eq_self x)), All-members P l (λ n m. h n (ground (arith, m))))
