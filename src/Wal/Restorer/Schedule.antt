-- ===== src/Wal/Restorer/Schedule.antt =====
-- Whatever the order in which the goroutines of `RestoreList` run, each result stands in its slot.
use cnpg_plugin_pgbackrest.Base.{
  ℕ, zero, suc, ◌-◌, ◌≡◌, ◌⊎◌, inl, inr, refl, sym, ap, ◌∙◌, true, false, Bool-cases, List, [], ◌∷◌,
  ◌++◌, ◌==◌, arith, some, Text, codes, leb, length, get_elem?, subst, Result, ok, err, Error,
}
use cnpg_plugin_pgbackrest.Go.Paths
use cnpg_plugin_pgbackrest.Go.Strings.{has_suffix, trim_suffix}
use cnpg_plugin_pgbackrest.Go.Suffix.{trim_suffix_lem, not_suffix}
use cnpg_plugin_pgbackrest.Host.{Host, act_cases}
use cnpg_plugin_pgbackrest.Parallel.Slots.{occurs, IsResult, run_schedule-IsFilled}
use cnpg_plugin_pgbackrest.Wal.Spool.{file_name}
use cnpg_plugin_pgbackrest.Wal.Restorer.{
  RestoreResult, max_int, wal_restore_error, restore, destination_of, restore_one, restore_list,
}
use cnpg_plugin_pgbackrest.Wal.Restorer.Fetch.{IsFetched, too_long, run_done, run_failed}

later_index : (i : ℕ) → (suc i == 0) ≡ false
later_index i = ground arith

module _ (h : Host) (spool : Text) (env : List Text) (fetch : List Text) (dest : Text)
    (options : List Text) where
  -- The result is one of restoring that WAL to the place that it has at that index.
  abbrev pub IsRight : ℕ → Text → RestoreResult → Type 0
  IsRight i wal r =
      (r.wal_name ≡ wal)
      × (r.destination_path ≡ destination_of h spool env dest i wal)
      × ((s : h.State) × (r.outcome
            ≡ (restore h spool env wal (destination_of h spool env dest i wal) options s).0))

  restore_one-IsRight :
      (i : ℕ) (wal : Text) (s : h.State)
      → IsRight i wal (restore_one h spool env dest options i wal s).0
  unfolding restore_one
  restore_one-IsRight i wal s = (refl, refl, (s, refl))

  IsResult-IsRight :
      (i : ℕ) (wal : Text) (r : RestoreResult)
      → get_elem? fetch i ≡ some wal
      → IsResult (restore_one h spool env dest options) fetch i r
      → IsRight i wal r
  IsResult-IsRight i wal r e (task, at, (s, given)) =
      let same : task ≡ wal = cc in
      subst (IsRight i wal)
        (sym (given ∙ ap (λ t. (restore_one h spool env dest options i t s).0) same))
        (restore_one-IsRight i wal s)

-- The slots of the results, in the words of the definitions.
pub restore_list-IsRight :
    (h : Host) (spool : Text) (env fetch : List Text) (dest : Text) (options : List Text)
    (schedule : List ℕ) (s : h.State) (i : ℕ) (wal : Text)
    → occurs i schedule ≡ true
    → get_elem? fetch i ≡ some wal
    → let slots = (restore_list h spool env fetch dest options schedule s).0 in
      (length slots ≡ length fetch)
      × ((r : RestoreResult) × (get_elem? slots i ≡ some (some r))
          × IsRight h spool env fetch dest options i wal r)
unfolding restore_list
restore_list-IsRight h spool env fetch dest options schedule s i wal there e =
    let work = restore_one h spool env dest options in
    let (same, (r, at, right)) = run_schedule-IsFilled work fetch schedule s i wal there e in
    (same, (r, at, IsResult-IsRight h spool env fetch dest options i wal r e right))

module _ (h : Host) (spool : Text) (env : List Text) (dest : Text) (options : List Text) where
  -- Where a WAL goes: the first one to the destination that was asked for, each other one into the
  -- spool, under its name without `.partial`.
  abbrev pub IsPlace : ℕ → Text → Text → Type 0
  IsPlace zero wal path = path ≡ dest
  IsPlace (suc i) wal path =
      ((full : Text) × (wal ≡ full ++ codes ".partial") × (path ≡ Paths.join spool full))
      ⊎ ((¬ ((full : Text) × (wal ≡ full ++ codes ".partial"))) × (path ≡ Paths.join spool wal))

  -- A success is a run of `archive-get` of the WAL into that place that ended without an error. An
  -- error is that of a run, translated, or comes of too many options.
  abbrev pub IsOutcome : Text → Text → Result (Unit {0}) → Type 0
  IsOutcome wal path (ok _) = IsFetched h spool env wal path options
  IsOutcome wal path (err e) =
      (leb (max_int - 3) (length options) ≡ true)
      ⊎ ((x : Error) × (s : h.State) × (s' : h.State) × (h.pgbackrest env
              (options ++ codes "archive-get" ∷ wal ∷ path ∷ []) s
            ≡ (err x, s'))
          × (e ≡ wal_restore_error x))

  destination_of-partial :
      (i : ℕ) (wal : Text)
      → has_suffix wal (codes ".partial") ≡ true
      → destination_of h spool env dest (suc i) wal
        ≡ Paths.join spool (trim_suffix wal (codes ".partial"))
  unfolding destination_of file_name trim_suffix
  destination_of-partial i wal partial = rw (later_index i, partial)

  destination_of-full :
      (i : ℕ) (wal : Text)
      → has_suffix wal (codes ".partial") ≡ false
      → destination_of h spool env dest (suc i) wal ≡ Paths.join spool wal
  unfolding destination_of file_name
  destination_of-full i wal full = rw (later_index i, full)

  destination_of-first : (wal : Text) → destination_of h spool env dest 0 wal ≡ dest
  unfolding destination_of
  destination_of-first wal = refl

  destination_of-IsPlace :
      (i : ℕ) (wal : Text) → IsPlace i wal (destination_of h spool env dest i wal)
  destination_of-IsPlace zero wal = destination_of-first wal
  destination_of-IsPlace (suc i) wal = elim (Bool-cases (has_suffix wal (codes ".partial"))) [
    | inl partial ↦ inl (
      trim_suffix wal (codes ".partial"),
      trim_suffix_lem wal (codes ".partial") partial,
      destination_of-partial i wal partial,
    )
    | inr full ↦
        inr (λ (p, e). not_suffix wal p (codes ".partial") full e, destination_of-full i wal full)
  ]

  restore-IsOutcome :
      (wal path : Text) (s : h.State)
      → IsOutcome wal path (restore h spool env wal path options s).0
  restore-IsOutcome wal path s = elim (Bool-cases (leb (max_int - 3) (length options))) [
    | inl long ↦
        subst (IsOutcome wal path) (sym (too_long h spool env wal path options s long).1) (inl long)
    | inr short ↦
        elim (act_cases (h.pgbackrest env (options ++ codes "archive-get" ∷ wal ∷ path ∷ []) s)) [
          | inl (s', done) ↦
              subst (IsOutcome wal path)
                (sym (run_done h spool env wal path options s s' short done)) (s, s', done)
          | inr (x, s', failed) ↦
              subst (IsOutcome wal path)
                (sym (run_failed h spool env wal path options s s' x short failed))
                (inr (x, s, s', failed, refl))
        ]
  ]

-- Whatever the order in which the goroutines of `RestoreList` run one after the other, each index of
-- the list that gets to run ends up with a result in its own slot, under the name that the list has
-- there. The first WAL goes to the destination that was asked for, another one into the spool under
-- its name, without `.partial` where it ends so. The result is a success only where `archive-get` of
-- that WAL into that place ended without an error from some state, and an error only where such a run
-- did end with one, translated, or where there are too many options. The list of results has a slot
-- for each name.
pub restore_list_slots :
    (h : Host) (spool : Text) (env fetch : List Text) (dest : Text) (options : List Text)
    (schedule : List ℕ) (s : h.State) (i : ℕ) (wal : Text)
    → occurs i schedule ≡ true
    → get_elem? fetch i ≡ some wal
    → let slots = (restore_list h spool env fetch dest options schedule s).0 in
      (length slots ≡ length fetch)
      × ((r : RestoreResult) × (get_elem? slots i ≡ some (some r))
          × (r.wal_name ≡ wal)
          × IsPlace h spool env dest options i wal r.destination_path
          × IsOutcome h spool env dest options wal r.destination_path r.outcome)
restore_list_slots h spool env fetch dest options schedule s i wal there e =
    let (same, (r, at, (name, place, (s1, outcome)))) =
      restore_list-IsRight h spool env fetch dest options schedule s i wal there e in
    let target = destination_of h spool env dest i wal in
    (
      same,
      (
        r,
        at,
        name,
        subst (IsPlace h spool env dest options i wal) (sym place)
            (destination_of-IsPlace h spool env dest options i wal),
        subst (λ p. IsOutcome h spool env dest options wal p r.outcome) (sym place)
            (subst (IsOutcome h spool env dest options wal target) (sym outcome)
              (restore-IsOutcome h spool env dest options wal target s1)),
      ),
    )
