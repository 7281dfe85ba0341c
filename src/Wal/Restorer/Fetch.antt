-- ===== src/Wal/Restorer/Fetch.antt =====
-- A restore that ends without an error is a run of `archive-get` that did.
use cnpg_plugin_pgbackrest.Base.{
  ◌≡◌, inl, inr, refl, true, false, List, [], ◌∷◌, ◌++◌, Text, codes, leb, length, ◌-◌, ok, err,
  Error, Bool-cases,
}
use cnpg_plugin_pgbackrest.Host.{Host, act_cases}
use cnpg_plugin_pgbackrest.Wal.Restorer.{restore, map_error, max_int, wal_restore_error}

module _ (h : Host) (spool : Text) (env : List Text) (wal destination : Text)
    (options : List Text) where
  -- From some state, `archive-get` of the WAL into the destination ended without an error.
  abbrev pub IsFetched : Type 0
  IsFetched =
      (s : h.State) × (s' : h.State) × (h.pgbackrest env
          (options ++ codes "archive-get" ∷ wal ∷ destination ∷ []) s
        ≡ (ok tt, s'))

  pub too_long :
      (s : h.State)
      → leb (max_int - 3) (length options) ≡ true
      → (e : Error) × ((restore h spool env wal destination options s).0 ≡ err e)
  unfolding restore
  too_long s long = rw long (_, refl)

  pub run_failed :
      (s s' : h.State) (e : Error)
      → leb (max_int - 3) (length options) ≡ false
      → h.pgbackrest env (options ++ codes "archive-get" ∷ wal ∷ destination ∷ []) s ≡ (err e, s')
      → (restore h spool env wal destination options s).0 ≡ err (wal_restore_error e)
  unfolding restore map_error
  run_failed s s' e short failed = rw (short, failed)

  pub run_done :
      (s s' : h.State)
      → leb (max_int - 3) (length options) ≡ false
      → h.pgbackrest env (options ++ codes "archive-get" ∷ wal ∷ destination ∷ []) s ≡ (ok tt, s')
      → (restore h spool env wal destination options s).0 ≡ ok tt
  unfolding restore map_error
  run_done s s' short done = rw (short, done)

  pub restore-IsFetched :
      (s : h.State) → (restore h spool env wal destination options s).0 ≡ ok tt → IsFetched
  restore-IsFetched s fine =
      elim (act_cases
        (h.pgbackrest env (options ++ codes "archive-get" ∷ wal ∷ destination ∷ []) s)) [
          | inl (s', e) ↦ (s, s', e)
          | inr (x, s', failed) ↦ elim (Bool-cases (leb (max_int - 3) (length options))) [
            | inl long ↦ let (y, e) = too_long s long in cc
            | inr short ↦ let e = run_failed s s' x short failed in cc
          ]
        ]
