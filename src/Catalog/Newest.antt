-- ===== src/Catalog/Newest.antt =====
-- What a search from the newest backup finds: in the order of the list, the last backup that fits.
use mathlib.Core.List.{reverse, reverse-append, reverse-reverse}
use cnpg_plugin_pgbackrest.Base.{
  ◌≡◌, refl, sym, ap, ◌∙◌, subst, Bool, true, false, List, [], ◌∷◌, ◌++◌, append_assoc, Option,
  none, some, Result, ok, err, ◌>>=◌, if◌then◌else◌, All, All-append,
}
use cnpg_plugin_pgbackrest.Catalog.{PgbackrestBackup}
use cnpg_plugin_pgbackrest.Catalog.Find.{search_newest}

abbrev pub Misses : (PgbackrestBackup → Result Bool) → List PgbackrestBackup → Type 0
Misses f = All (λ b. f b ≡ ok false)

-- The backup `b` is the last one of the list for which the round answers `answer`; on the later ones
-- it misses.
abbrev pub IsLast :
    (PgbackrestBackup → Result Bool)
    → List PgbackrestBackup
    → PgbackrestBackup
    → Result Bool
    → Type 0
IsLast f l b answer =
    (older : List PgbackrestBackup) × (newer : List PgbackrestBackup) × (l ≡ older ++ b ∷ newer)
    × (f b ≡ answer)
    × Misses f newer

-- The result of a search is a backup that fits, nothing where none fits, or the error of a round.
abbrev pub IsNewest :
    (PgbackrestBackup → Result Bool)
    → List PgbackrestBackup
    → Result (Option PgbackrestBackup)
    → Type 0
IsNewest f l (ok none) = Misses f l
IsNewest f l (ok (some b)) = IsLast f l b (ok true)
IsNewest f l (err e) = (b : PgbackrestBackup) × IsLast f l b (err e)

pub All-reverse {ℓ κ} : {A : Type ℓ} (P : A → Type κ) (l : List A) → All P l → All P (reverse l)
All-reverse P [] h = tt
All-reverse P (x ∷ l) h =
    subst (All P) (sym (reverse-append (x ∷ []) l))
      (All-append P (reverse l) (x ∷ []) (All-reverse P l h.1) (h.0, tt))

append-Misses :
    (f : PgbackrestBackup → Result Bool) (b : PgbackrestBackup) (l : List PgbackrestBackup)
    → f b ≡ ok false
    → Misses f l
    → Misses f (l ++ b ∷ [])
append-Misses f b l h hs = All-append _ l (b ∷ []) hs (h, tt)

-- One backup more at the new end.
IsNewest-append :
    (f : PgbackrestBackup → Result Bool) (b : PgbackrestBackup) (l : List PgbackrestBackup)
    (r : Result (Option PgbackrestBackup))
    → f b ≡ ok false
    → IsNewest f l r
    → IsNewest f (l ++ b ∷ []) r
IsNewest-append f b l (ok none) miss h = append-Misses f b l miss h
IsNewest-append f b l (ok (some x)) miss (older, newer, e, hit, rest) = (
  older,
  newer ++ b ∷ [],
  ap (λ t. t ++ b ∷ []) e ∙ append_assoc older (x ∷ newer) (b ∷ []),
  hit,
  append-Misses f b newer miss rest,
)
IsNewest-append f b l (err x) miss (y, (older, newer, e, hit, rest)) = (
  y,
  (
    older,
    newer ++ b ∷ [],
    ap (λ t. t ++ b ∷ []) e ∙ append_assoc older (y ∷ newer) (b ∷ []),
    hit,
    append-Misses f b newer miss rest,
  ),
)

module _ (f : PgbackrestBackup → Result Bool) where
  search_step :
      (b : PgbackrestBackup) (bs : List PgbackrestBackup) (answer : Result Bool)
      → f b ≡ answer
      → IsNewest f (reverse bs) (search_newest f bs)
      → IsNewest f
          (reverse bs ++ b ∷ [])
          (answer >>= λ hit. if hit then ok (some b) else search_newest f bs)
  search_step b bs (ok true) e ih = (reverse bs, [], refl, e, tt)
  search_step b bs (ok false) e ih = IsNewest-append f b (reverse bs) (search_newest f bs) e ih
  search_step b bs (err x) e ih = (b, (reverse bs, [], refl, e, tt))

  search-IsNewest : (bs : List PgbackrestBackup) → IsNewest f (reverse bs) (search_newest f bs)
  unfolding search_newest
  search-IsNewest [] = tt
  search-IsNewest (b ∷ bs) =
      subst (λ l. IsNewest f l (search_newest f (b ∷ bs))) (sym (reverse-append (b ∷ []) bs))
        (search_step b bs (f b) refl (search-IsNewest bs))

  pub search_newest_lem : (l : List PgbackrestBackup) → IsNewest f l (search_newest f (reverse l))
  search_newest_lem l =
      subst (λ m. IsNewest f m (search_newest f (reverse l))) (reverse-reverse l)
        (search-IsNewest (reverse l))
