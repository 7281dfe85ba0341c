-- ===== src/Catalog/Choice.antt =====
-- Which backup `FindBackupInfo` chooses for a recovery target.
use mathlib.Core.List.{reverse}
use mathlib.Core.Option.{some-injective}
use cnpg_plugin_pgbackrest.Base.{
  Error, ◌≤◌, ◌<◌, ◌≡◌, ◌↔◌, ◌⊎◌, inl, inr, refl, sym, ap, ◌∙◌, subst, Bool, true, false, ◌&&◌,
  List, [], ◌∷◌, ◌++◌, Option, none, some, Text, codes, message, length, ltb, lt→ltb, Result, ok,
  err, panic, All, Bool-cases, result_cases, arith,
}
use cnpg_plugin_pgbackrest.Base.Int.{ℤ, ◌≤ℤ◌, leb_ℤ, leb_ℤ_iff, eqb_ℤ_iff}
use cnpg_plugin_pgbackrest.Go.Strings.{take}
use cnpg_plugin_pgbackrest.Go.Strconv.{parse_int}
use cnpg_plugin_pgbackrest.Catalog.{PgbackrestBackup, Catalog, is_backup_done}
use cnpg_plugin_pgbackrest.Catalog.Find.{
  latest_timeline_id, start_timeline, timeline_of, tests, in_timeline, search_newest, fits_timeline,
  fits_time, fits_lsn, nanoseconds, TargetTypes, target_error, find_latest_backup_from_timeline,
  find_closest_backup_from_target_time, find_closest_backup_from_target_lsn,
}
use cnpg_plugin_pgbackrest.Catalog.Newest.{IsNewest, Misses, search_newest_lem}

-- The first WAL of the backup has a name of eight bytes at least.
abbrev pub HasTimeline : PgbackrestBackup → Type 0
HasTimeline b = 8 ≤ length b.wal.start

-- The backup is done, meets the bound, and began on the target timeline or an earlier one, or on any
-- timeline where the latest one is the target.
abbrev pub Fits : ℤ → Type 0 → PgbackrestBackup → Type 0
Fits target Bound b =
    (is_backup_done b ≡ true)
    × Bound
    × ((n : ℤ) × (parse_int 16 64 (take 8 b.wal.start) ≡ some n)
        × ((n ≤ℤ target) ⊎ (target ≡ latest_timeline_id)))

-- The chosen backup fits and no later one does; none is chosen only if none fits.
abbrev pub IsChosen :
    (PgbackrestBackup → Type 0) → List PgbackrestBackup → Option PgbackrestBackup → Type 0
IsChosen Q l none = All (λ b. ¬ Q b) l
IsChosen Q l (some b) =
    (older : List PgbackrestBackup) × (newer : List PgbackrestBackup) × (l ≡ older ++ b ∷ newer)
    × Q b
    × All (λ x. ¬ Q x) newer

abbrev pub IsDecided :
    (PgbackrestBackup → Result Bool) → (PgbackrestBackup → Type 0) → PgbackrestBackup → Type 0
IsDecided f Q b = ((f b ≡ ok true) × Q b) ⊎ ((f b ≡ ok false) × (¬ Q b))

module _ (f : PgbackrestBackup → Result Bool) (Q : PgbackrestBackup → Type 0) where
  pub Misses-none :
      (l : List PgbackrestBackup) → All (IsDecided f Q) l → Misses f l → All (λ b. ¬ Q b) l
  Misses-none [] d m = tt
  Misses-none (b ∷ l) (d, ds) (m, ms) =
      (elim d [ inl t ↦ cc (t.0) | inr t ↦ t.1 ], Misses-none l ds ms)

  IsDecided-at :
      (older newer : List PgbackrestBackup) (b : PgbackrestBackup)
      → All (IsDecided f Q) (older ++ b ∷ newer)
      → IsDecided f Q b × All (IsDecided f Q) newer
  IsDecided-at [] newer b d = d
  IsDecided-at (x ∷ older) newer b d = IsDecided-at older newer b d.1

  hit_fits : (b : PgbackrestBackup) → IsDecided f Q b → f b ≡ ok true → Q b
  hit_fits b (inl t) h = t.1
  hit_fits b (inr t) h = let q : ok false ≡ ok true = sym t.0 ∙ h in cc

  no_error : (b : PgbackrestBackup) {e : Error} → IsDecided f Q b → f b ≡ err e → ⊥
  no_error b (inl t) h = cc (t.0)
  no_error b (inr t) h = cc (t.0)

  choice_of :
      (l : List PgbackrestBackup) (r : Result (Option PgbackrestBackup))
      → All (IsDecided f Q) l
      → IsNewest f l r
      → (o : Option PgbackrestBackup) × (r ≡ ok o) × IsChosen Q l o
  choice_of l (ok none) d m = (none, refl, Misses-none l d m)
  choice_of l (ok (some b)) d (older, newer, e, hit, rest) =
      let (here, later) = IsDecided-at older newer b (subst (All (IsDecided f Q)) e d) in
      (some b, refl, (older, newer, e, hit_fits b here hit, Misses-none newer later rest))
  choice_of l (err x) d (b, (older, newer, e, hit, rest)) =
      absurd (no_error b (IsDecided-at older newer b (subst (All (IsDecided f Q)) e d)).0 hit)

  -- A search whose rounds decide the predicate chooses the newest backup with it.
  search_chooses :
      (l : List PgbackrestBackup)
      → All (IsDecided f Q) l
      → (o : Option PgbackrestBackup) × (search_newest f (reverse l) ≡ ok o) × IsChosen Q l o
  search_chooses l d = choice_of l (search_newest f (reverse l)) d (search_newest_lem f l)

in_timeline_iff :
    (target n : ℤ) → (in_timeline target n ≡ true) ↔ ((n ≤ℤ target) ⊎ (target ≡ latest_timeline_id))
unfolding in_timeline
in_timeline_iff target n = ground (arith, leb_ℤ_iff n target, eqb_ℤ_iff target latest_timeline_id)

-- A backup with a long enough name runs through one of two rounds.
pub start_timeline_long :
    (b : PgbackrestBackup)
    → HasTimeline b
    → start_timeline b ≡ timeline_of (parse_int 16 64 (take 8 b.wal.start))
unfolding start_timeline
start_timeline_long b h = let long : ltb (length b.wal.start) 8 ≡ false = ground arith in rw long

pub start_timeline_short :
    (b : PgbackrestBackup) → length b.wal.start < 8 → start_timeline b ≡ err panic
unfolding start_timeline
start_timeline_short b h = rw (lt→ltb (length b.wal.start) 8 h)

module _ (done bounded : Bool) (target : ℤ) (Bound : Type 0)
    (meets : (bounded ≡ true) ↔ Bound) where
  abbrev RoundFits : Option ℤ → Type 0
  RoundFits o =
      (done ≡ true)
      × Bound
      × ((m : ℤ) × (o ≡ some m) × ((m ≤ℤ target) ⊎ (target ≡ latest_timeline_id)))

  round_misses :
      (m : ℤ) → (done && (in_timeline target m && bounded)) ≡ false → ¬ RoundFits (some m)
  round_misses m t (d, bound, (k, e, within)) =
      let same : k ≡ m = sym (some-injective m k e) in
      let inside : in_timeline target m ≡ true =
        (in_timeline_iff target m).1
          (subst (λ z. (z ≤ℤ target) ⊎ (target ≡ latest_timeline_id)) same within) in
      let met = meets.1 bound in ground arith

  round_decided :
      (o : Option ℤ)
      → let r = tests done bounded (timeline_of o) (in_timeline target) in
        ((r ≡ ok true) × RoundFits o) ⊎ ((r ≡ ok false) × (¬ RoundFits o))
  unfolding tests timeline_of
  round_decided none = inr (refl, λ (d, bound, (m, e, within)). cc)
  round_decided (some m) = elim (Bool-cases (done && (in_timeline target m && bounded))) [
    | inl t ↦ inl (
      ap ok t,
      (
        ground arith,
        meets.0 (ground arith),
        (m, refl, (in_timeline_iff target m).0 (ground arith)),
      ),
    )
    | inr t ↦ inr (ap ok t, round_misses m t)
  ]

-- The three tests that the searches make in a round, each with what it means.
module _ (target : ℤ) (Bound : PgbackrestBackup → Type 0) (bounded : PgbackrestBackup → Bool) where
  round : PgbackrestBackup → Result Bool
  round b = tests (is_backup_done b) (bounded b) (start_timeline b) (in_timeline target)

  round_choice :
      ((b : PgbackrestBackup) → (bounded b ≡ true) ↔ Bound b)
      → (l : List PgbackrestBackup) → All HasTimeline l
      → All (IsDecided round (λ b. Fits target (Bound b) b)) l
  unfolding round
  round_choice meets [] h = tt
  round_choice meets (b ∷ l) h = (
    rw (start_timeline_long b h.0) (
        round_decided (is_backup_done b) (bounded b) target (Bound b) (meets b)
          (parse_int 16 64 (take 8 b.wal.start))),
    round_choice meets l h.1,
  )

-- The rounds of the search for a timeline decide which backups fit.
pub timeline_decides :
    (target : ℤ) (l : List PgbackrestBackup)
    → All HasTimeline l
    → All (IsDecided (fits_timeline target) (Fits target Unit)) l
unfolding fits_timeline round
timeline_decides target l long =
    round_choice target (λ _. Unit) (λ _. true) (λ b. (λ _. tt, λ _. refl)) l long

-- With no other target the newest backup of the timeline is chosen: the last in the catalog that is
-- done and began on the target timeline or before it, or on any where the target is the latest. For
-- a catalog whose backups all name their first WAL.
pub find_latest_backup_from_timeline_lem :
    (c : Catalog) (target : ℤ)
    → All HasTimeline c.backups
    → (o : Option PgbackrestBackup) × (find_latest_backup_from_timeline c target ≡ ok o)
      × IsChosen (Fits target Unit) c.backups o
unfolding find_latest_backup_from_timeline
find_latest_backup_from_timeline_lem c target long =
    search_chooses (fits_timeline target) (Fits target Unit) c.backups
      (timeline_decides target c.backups long)

-- For a target time that can be read, the newest fitting backup that stopped at that time or before
-- it is chosen; a time that cannot be read is an error, with a message in place of the error of the
-- reading. For a catalog whose backups all name their first WAL.
pub find_closest_backup_from_target_time_lem :
    (t : TargetTypes) (c : Catalog) (target_time : Text) (target : ℤ)
    → All HasTimeline c.backups
    → let answer = find_closest_backup_from_target_time t c target_time target in
      ((time : ℤ) × (o : Option PgbackrestBackup) × (t.parse_target_time target_time ≡ ok time)
        × (answer ≡ ok o)
        × IsChosen (λ b. Fits target (nanoseconds b.time.stop ≤ℤ time) b) c.backups o)
      ⊎ ((e : Error) × (t.parse_target_time target_time ≡ err e)
          × (answer ≡ err (message (codes "while parsing recovery target"))))
unfolding find_closest_backup_from_target_time fits_time round target_error
find_closest_backup_from_target_time_lem t c target_time target long =
    elim (result_cases (t.parse_target_time target_time)) [
      | inl (time, read) ↦
          let (o, found, chosen) =
            search_chooses (fits_time time target)
              (λ b. Fits target (nanoseconds b.time.stop ≤ℤ time) b) c.backups
              (round_choice target (λ b. nanoseconds b.time.stop ≤ℤ time)
                (λ b. leb_ℤ (nanoseconds b.time.stop) time)
                (λ b. leb_ℤ_iff (nanoseconds b.time.stop) time) c.backups long) in
          inl (time, o, read, rw read found, chosen)
      | inr (e, failed) ↦ inr (e, failed, rw failed)
    ]

-- For a target LSN that can be read, the newest fitting backup that stopped before that LSN is
-- chosen. For a catalog whose backups all name their first WAL.
pub find_closest_backup_from_target_lsn_lem :
    (t : TargetTypes) (c : Catalog) (lsn : Text) (target : ℤ)
    → All HasTimeline c.backups
    → t.parse_lsn lsn ≡ ok tt
    → (o : Option PgbackrestBackup) × (find_closest_backup_from_target_lsn t c lsn target ≡ ok o)
      × IsChosen (λ b. Fits target (t.less_lsn b.lsn.stop lsn ≡ true) b) c.backups o
unfolding find_closest_backup_from_target_lsn fits_lsn round
find_closest_backup_from_target_lsn_lem t c lsn target long read =
    let (o, found, chosen) =
      search_chooses (fits_lsn t.less_lsn lsn target)
        (λ b. Fits target (t.less_lsn b.lsn.stop lsn ≡ true) b) c.backups
        (round_choice target (λ b. t.less_lsn b.lsn.stop lsn ≡ true)
          (λ b. t.less_lsn b.lsn.stop lsn) (λ b. (λ h. h, λ h. h)) c.backups long) in
    (o, rw (read, target_error) found, chosen)
