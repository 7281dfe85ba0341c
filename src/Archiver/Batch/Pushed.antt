-- ===== src/Archiver/Batch/Pushed.antt =====
-- A batch reports a WAL as archived only where pgBackRest pushed it.
use cnpg_plugin_pgbackrest.Base.{
  ℕ, ◌≡◌, inl, inr, sym, ap, ◌∙◌, subst, true, List, [], ◌∷◌, ◌++◌, some, Text, codes, length,
  get_elem?, Result, ok, err, Error, leb, false, ◌-◌, Bool-cases,
}
use cnpg_plugin_pgbackrest.Host.{Host, act_cases}
use cnpg_plugin_pgbackrest.Parallel.Slots.{occurs, run_schedule-IsFilled}
use cnpg_plugin_pgbackrest.Wal.Restorer.{max_int}
use cnpg_plugin_pgbackrest.Archiver.Batch.{ArchiveResult, archive, push, archive_one, archive_list}

module _ (h : Host) (env : List Text) where
  -- From some state, `archive-push` of the WAL ended without an error.
  abbrev pub IsPushed : List Text → Text → Type 0
  IsPushed options wal =
      (s : h.State) × (s' : h.State) × (h.pgbackrest env
          (options ++ codes "archive-push" ∷ wal ∷ []) s
        ≡ (ok tt, s'))

  -- A report of success rests on a push; a report of an error on nothing.
  abbrev pub IsReport : List Text → Text → Result (Unit {0}) → Type 0
  IsReport options wal (ok _) = IsPushed options wal
  IsReport options wal (err _) = Unit

  pushed-IsReport :
      (options : List Text) (wal : Text) (r : Result (Unit {0}))
      → IsPushed options wal
      → IsReport options wal r
  pushed-IsReport options wal (ok _) h0 = h0
  pushed-IsReport options wal (err _) h0 = tt

module _ (h : Host) (spool : Text) (env : List Text) (empty_path : Text) where
  archive_one-too_long :
      (options : List Text) (i : ℕ) (wal : Text) (s : h.State)
      → leb (max_int - 2) (length options) ≡ true
      → IsReport h env options wal (archive_one h spool env empty_path options i wal s).0.outcome
  unfolding archive_one archive
  archive_one-too_long options i wal s long = rw long tt

  archive_one-failed :
      (options : List Text) (i : ℕ) (wal : Text) (s s' : h.State) (e : Error)
      → leb (max_int - 2) (length options) ≡ false
      → h.pgbackrest env (options ++ codes "archive-push" ∷ wal ∷ []) s ≡ (err e, s')
      → IsReport h env options wal (archive_one h spool env empty_path options i wal s).0.outcome
  unfolding archive_one archive push
  archive_one-failed options i wal s s' e short failed = rw (short, failed) tt

  archive_one-IsReport :
      (options : List Text) (i : ℕ) (wal : Text) (s : h.State)
      → IsReport h env options wal (archive_one h spool env empty_path options i wal s).0.outcome
  archive_one-IsReport options i wal s =
      elim (act_cases (h.pgbackrest env (options ++ codes "archive-push" ∷ wal ∷ []) s)) [
        | inl (s', pushed) ↦
            pushed-IsReport h env options wal
              (archive_one h spool env empty_path options i wal s).0.outcome (s, s', pushed)
        | inr (e, s', failed) ↦ elim (Bool-cases (leb (max_int - 2) (length options))) [
          | inl long ↦ archive_one-too_long options i wal s long
          | inr short ↦ archive_one-failed options i wal s s' e short failed
        ]
      ]

-- Whatever the order in which the goroutines of `ArchiveList` run one after the other, each WAL of
-- the list that gets to run has a result in its own slot, and that result is an error or
-- `archive-push` of that WAL with the options of the batch ended without one.
pub archive_list_pushed :
    (h : Host) (spool : Text) (env : List Text) (empty_path : Text) (wals options : List Text)
    (schedule : List ℕ) (s : h.State) (i : ℕ) (wal : Text)
    → occurs i schedule ≡ true
    → get_elem? wals i ≡ some wal
    → let slots = (archive_list h spool env empty_path wals options schedule s).0 in
      (length slots ≡ length wals)
      × ((r : ArchiveResult) × (get_elem? slots i ≡ some (some r))
          × IsReport h env options wal r.outcome)
unfolding archive_list
archive_list_pushed h spool env empty_path wals options schedule s i wal there e =
    let work = archive_one h spool env empty_path options in
    let (same, (r, at, (task, given, (s', result)))) =
      run_schedule-IsFilled work wals schedule s i wal there e in
    let eq : task ≡ wal = cc in
    (
      same,
      (
        r,
        at,
        subst (λ x. IsReport h env options wal x.outcome)
            (sym (result ∙ ap (λ w. (work i w s').0) eq))
            (archive_one-IsReport h spool env empty_path options i wal s'),
      ),
    )
