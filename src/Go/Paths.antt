-- ===== src/Go/Paths.antt =====
-- `path.Base`, `path.Clean` and `path.Join` (`filepath` is the same on the systems that run this).
use mathlib.Core.List.{reverse, reverse-reverse, reverse-append}
use cnpg_plugin_pgbackrest.Base.{
  ℕ, ◌≡◌, refl, Bool, false, ◌||◌, List, [], ◌∷◌, ◌++◌, Text, codes, ◌==◌, str_eq, if◌then◌else◌,
  is_nil, All, All-append, ap,
}

drop_slashes : Text → Text
drop_slashes [] = []
drop_slashes (c ∷ s) = let rest = drop_slashes s in if c == b'/' then rest else c ∷ s

until_slash : Text → Text
until_slash [] = []
until_slash (c ∷ s) = let rest = until_slash s in if c == b'/' then [] else c ∷ rest

-- The last element of the path: `.` for an empty path, `/` for one of slashes only.
unfoldable pub base : Text → Text
unfolding drop_slashes until_slash codes
base s =
    let name = reverse (until_slash (drop_slashes (reverse s))) in
    if is_nil s then codes "." else if is_nil name then codes "/" else name

-- A text without a slash.
abbrev pub Slashless : Text → Type 0
Slashless = All (λ c. (c == b'/') ≡ false)

drop_slashes-Slashless : (s : Text) → Slashless s → drop_slashes s ≡ s
unfolding drop_slashes
drop_slashes-Slashless [] h = refl
drop_slashes-Slashless (c ∷ s) h = rw h.0

until_slash-Slashless : (s : Text) → Slashless s → until_slash s ≡ s
unfolding until_slash
until_slash-Slashless [] h = refl
until_slash-Slashless (c ∷ s) h = rw h.0 (ap (λ t. c ∷ t) (until_slash-Slashless s h.1))

reverse-Slashless : (s : Text) → Slashless s → Slashless (reverse s)
reverse-Slashless [] h = tt
reverse-Slashless (c ∷ s) h =
    rw (reverse-append (c ∷ []) s)
      (All-append _ (reverse s) (c ∷ []) (reverse-Slashless s h.1) (h.0, tt))

-- A name without a slash is its own base.
pub base_of_Slashless : (c : ℕ) (s : Text) → Slashless (c ∷ s) → base (c ∷ s) ≡ c ∷ s
unfolding base
base_of_Slashless c s h =
    let r = reverse-Slashless (c ∷ s) h in
    rw (drop_slashes-Slashless _ r, until_slash-Slashless _ r, reverse-reverse)

cons_head : ℕ → List Text → List Text
cons_head c [] = (c ∷ []) ∷ []
cons_head c (p ∷ ps) = (c ∷ p) ∷ ps

-- The elements between the slashes.
elements : Text → List Text
unfolding cons_head
elements [] = [] ∷ []
elements (c ∷ s) = let rest = elements s in if c == b'/' then [] ∷ rest else cons_head c rest

-- `..` takes the last element away; at the root it is dropped, before a relative path it stays.
pop : Bool → List Text → List Text
unfolding codes str_eq
pop rooted [] = if rooted then [] else codes ".." ∷ []
pop rooted (top ∷ stack) = if str_eq top (codes "..") then codes ".." ∷ top ∷ stack else stack

walk : Bool → List Text → List Text → List Text
unfolding pop codes str_eq
walk rooted stack [] = stack
walk rooted stack (p ∷ ps) =
    walk rooted
      (if is_nil p || str_eq p (codes ".")
        then stack
        else if str_eq p (codes "..")
        then pop rooted stack
        else p ∷ stack)
      ps

glue : List Text → Text
glue [] = []
glue (p ∷ []) = p
glue (p ∷ q ∷ ps) = p ++ b'/' ∷ glue (q ∷ ps)

is_rooted : Text → Bool
is_rooted [] = false
is_rooted (c ∷ s) = c == b'/'

unfoldable pub clean : Text → Text
unfolding elements walk glue is_rooted codes
clean s =
    let kept = glue (reverse (walk (is_rooted s) [] (elements s))) in
    if is_rooted s then b'/' ∷ kept else if is_nil kept then codes "." else kept

-- `path.Join(a, b)`: empty elements are skipped.
unfoldable pub join : Text → Text → Text
unfolding clean
join a b =
    if is_nil a
    then (if is_nil b then [] else clean b)
    else if is_nil b
    then clean a
    else clean (a ++ b'/' ∷ b)

join_examples :
    (join (codes "/spool") (codes "0001") ≡ codes "/spool/0001")
    × (join (codes "a//b/.") (codes "../c/..") ≡ codes "a")
    × (join (codes "../x") (codes "/../../y") ≡ codes "../../y")
    × (base (codes "pg_wal/0001/") ≡ codes "0001")
    × (clean (codes "/../a") ≡ codes "/a")
unfolding join base
join_examples = (refl, refl, refl, refl, refl)
