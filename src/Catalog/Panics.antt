-- ===== src/Catalog/Panics.antt =====
-- Where the search for the latest backup of a timeline stops the program.
use mathlib.Core.List.{reverse, reverse-append}
use cnpg_plugin_pgbackrest.Base.{
  ◌<◌, ◌≡◌, ◌↔◌, inl, inr, refl, ap, ◌∙◌, Bool, true, false, List, [], ◌∷◌, ◌++◌, append_assoc,
  Option, none, some, length, ltb, Result, ok, err, panic, All, Bool-cases, arith,
}
use cnpg_plugin_pgbackrest.Base.Int.{ℤ}
use cnpg_plugin_pgbackrest.Go.Strings.{take}
use cnpg_plugin_pgbackrest.Go.Strconv.{parse_int}
use cnpg_plugin_pgbackrest.Catalog.{PgbackrestBackup, Catalog, is_backup_done}
use cnpg_plugin_pgbackrest.Catalog.Find.{
  tests, timeline_of, in_timeline, search_newest, fits_timeline, find_latest_backup_from_timeline,
}
use cnpg_plugin_pgbackrest.Catalog.Newest.{IsNewest, Misses, All-reverse, search_newest_lem}
use cnpg_plugin_pgbackrest.Catalog.Choice.{
  HasTimeline, Fits, IsDecided, Misses-none, timeline_decides, start_timeline_long,
  start_timeline_short,
}

-- A backup whose first WAL has a name of fewer than eight bytes, behind which no backup fits and each
-- has a longer name.
abbrev pub IsReached : ℤ → List PgbackrestBackup → Type 0
IsReached target l =
    (older : List PgbackrestBackup) × (b : PgbackrestBackup) × (newer : List PgbackrestBackup) × (l
      ≡ older ++ b ∷ newer)
    × (length b.wal.start < 8)
    × All HasTimeline newer
    × All (λ x. ¬ Fits target Unit x) newer

module _ (target : ℤ) where
  short_panics :
      (b : PgbackrestBackup) → length b.wal.start < 8 → fits_timeline target b ≡ err panic
  unfolding fits_timeline tests
  short_panics b short = rw (start_timeline_short b short)

  tests_answer :
      (done : Bool) (o : Option ℤ)
      → (hit : Bool) × (tests done true (timeline_of o) (in_timeline target) ≡ ok hit)
  unfolding tests timeline_of
  tests_answer done none = (false, refl)
  tests_answer done (some n) = (_, refl)

  long_answers :
      (b : PgbackrestBackup) → HasTimeline b → (hit : Bool) × (fits_timeline target b ≡ ok hit)
  unfolding fits_timeline
  long_answers b long =
      rw (start_timeline_long b long)
        (tests_answer (is_backup_done b) (parse_int 16 64 (take 8 b.wal.start)))

  panic_short : (b : PgbackrestBackup) → fits_timeline target b ≡ err panic → length b.wal.start < 8
  panic_short b h = elim (Bool-cases (ltb (length b.wal.start) 8)) [
    | inl short ↦ ground arith
    | inr long ↦ let (hit, e) = long_answers b (ground arith) in cc
  ]

  missed_long : (b : PgbackrestBackup) → fits_timeline target b ≡ ok false → HasTimeline b
  missed_long b h = elim (Bool-cases (ltb (length b.wal.start) 8)) [
    | inl short ↦ let e = short_panics b (ground arith) in cc
    | inr long ↦ ground arith
  ]

  long_behind : (l : List PgbackrestBackup) → Misses (fits_timeline target) l → All HasTimeline l
  long_behind [] m = tt
  long_behind (b ∷ l) m = (missed_long b m.0, long_behind l m.1)

  unfit-Misses :
      (l : List PgbackrestBackup)
      → All (IsDecided (fits_timeline target) (Fits target Unit)) l
      → All (λ x. ¬ Fits target Unit x) l
      → Misses (fits_timeline target) l
  unfit-Misses [] d u = tt
  unfit-Misses (b ∷ l) (inl t, ds) (u, us) = absurd (u t.1)
  unfit-Misses (b ∷ l) (inr t, ds) (u, us) = (t.0, unfit-Misses l ds us)

  of_newest :
      (l : List PgbackrestBackup) (r : Result (Option PgbackrestBackup))
      → r ≡ err panic
      → IsNewest (fits_timeline target) l r
      → IsReached target l
  of_newest l (ok o) e n = cc
  of_newest l (err x) e (b, (older, newer, split, hit, missed)) =
      let long = long_behind newer missed in
      let same : err x ≡ err panic = e in
      (
        older,
        b,
        newer,
        split,
        panic_short b (hit ∙ cc),
        long,
        Misses-none (fits_timeline target) (Fits target Unit) newer
            (timeline_decides target newer long) missed,
      )

  skip-Misses :
      (before after : List PgbackrestBackup) (b : PgbackrestBackup)
      → Misses (fits_timeline target) before
      → fits_timeline target b ≡ err panic
      → search_newest (fits_timeline target) (before ++ b ∷ after) ≡ err panic
  unfolding search_newest
  skip-Misses [] after b m h = rw h refl
  skip-Misses (x ∷ before) after b (m, ms) h = rw m (skip-Misses before after b ms h)

  reversed_split :
      (older newer : List PgbackrestBackup) (b : PgbackrestBackup)
      → reverse (older ++ b ∷ newer) ≡ reverse newer ++ b ∷ reverse older
  reversed_split older newer b =
      reverse-append older (b ∷ newer)
      ∙ ap (λ l. l ++ reverse older) (reverse-append (b ∷ []) newer)
      ∙ append_assoc (reverse newer) (b ∷ []) (reverse older)

  reached_panics :
      (l : List PgbackrestBackup)
      → IsReached target l
      → search_newest (fits_timeline target) (reverse l) ≡ err panic
  reached_panics l (older, b, newer, split, short, long, unfit) =
      let missed = unfit-Misses newer (timeline_decides target newer long) unfit in
      ap (λ m. search_newest (fits_timeline target) (reverse m)) split
      ∙ ap (search_newest (fits_timeline target)) (reversed_split older newer b)
      ∙ skip-Misses (reverse newer) (reverse older) b (All-reverse _ newer missed)
          (short_panics b short)

-- The search for the latest backup of a timeline stops the program exactly where the catalog has a
-- backup whose first WAL has a name of fewer than eight bytes, done or not, and behind it only backups
-- with longer names that do not fit: the slice of the short name is out of range.
pub find_latest_backup_from_timeline_panics :
    (c : Catalog) (target : ℤ)
    → (find_latest_backup_from_timeline c target ≡ err panic) ↔ IsReached target c.backups
unfolding find_latest_backup_from_timeline
find_latest_backup_from_timeline_panics c target = (
  λ stops.
      of_newest target c.backups (search_newest (fits_timeline target) (reverse c.backups)) stops
        (search_newest_lem (fits_timeline target) c.backups),
  reached_panics target c.backups,
)
