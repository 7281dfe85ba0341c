-- ===== src/Wal/Service/Fetched.antt =====
-- What a successful answer of the restore service rests on.
use cnpg_plugin_pgbackrest.Base.{
  ℕ, ◌≡◌, ◌⊎◌, inl, inr, sym, ap, ◌∙◌, subst, Bool, true, false, List, [], ◌∷◌, Option, none, some,
  Text, codes, get_elem?, Result, ok, err, Error, wrapped,
}
use cnpg_plugin_pgbackrest.Host.{Host, Act, ◌>>=◌, ◌>>◌, and_then-ok, wrap_error, wrap_result}
use cnpg_plugin_pgbackrest.Api.{PgbackrestConfiguration}
use cnpg_plugin_pgbackrest.Command.{cloud_wal_restore_options}
use cnpg_plugin_pgbackrest.Parallel.Slots.{occurs}
use cnpg_plugin_pgbackrest.Wal.Segment.{is_wal_file}
use cnpg_plugin_pgbackrest.Wal.Restorer.{
  RestoreResult, restore_list, restore_from_spool, destination_of,
}
use cnpg_plugin_pgbackrest.Wal.Restorer.Fetch.{IsFetched, restore-IsFetched}
use cnpg_plugin_pgbackrest.Wal.Restorer.Schedule.{restore_list-IsRight}
use cnpg_plugin_pgbackrest.Wal.Spool.{new_wal_restorer}
use cnpg_plugin_pgbackrest.Wal.Service.{
  ClusterView, files_to_restore, max_parallel, lift_result, requested_error, requested_outcome,
  check_when, finish, download, unless_in_spool, is_streaming_available,
  restore_from_pgbackrest_archive,
}
use cnpg_plugin_pgbackrest.Wal.Service.Start.{
  IsRequested, StartsRequested, files_start, max_parallel_pos,
}

lift_result-ok :
    {S A : Type 0} (f : Error → Error) (r : Result A) (s s' : S) (a : A)
    → lift_result f r s ≡ (ok a, s')
    → r ≡ ok a
unfolding lift_result
lift_result-ok f (ok b) s s' a e = ap (λ p. p.0) e
lift_result-ok f (err x) s s' a e = cc

wrap_result-ok : {A : Type 0} (m : Text) (r : Result A) (a : A) → wrap_result m r ≡ ok a → r ≡ ok a
wrap_result-ok m (ok b) a e = e
wrap_result-ok m (err x) a e = cc

requested_ok :
    (slots : List (Option RestoreResult)) (r : RestoreResult)
    → get_elem? slots 0 ≡ some (some r)
    → requested_outcome slots ≡ ok tt
    → r.outcome ≡ ok tt
unfolding requested_outcome
requested_ok [] r at h = cc
requested_ok (none ∷ slots) r at h = cc
requested_ok (some x ∷ slots) r at h =
    let same : x ≡ r = cc in subst (λ y. y.outcome ≡ ok tt) same h

module _ (h : Host) (spool : Text) (env : List Text) where
  -- The WAL came out of the spool, or `archive-get` of the requested WAL into the destination ended
  -- without an error.
  abbrev pub IsDelivered : Text → Text → List Text → Type 0
  IsDelivered requested destination options =
      ((s : h.State) × (s' : h.State) × (restore_from_spool h spool env requested destination s
          ≡ (ok true, s')))
      ⊎ ((wal : Text) × IsRequested requested wal × IsFetched h spool env wal destination options)

  download-IsFetched :
      (streaming : Bool) (fetch : List Text) (destination : Text) (options : List Text)
      (schedule : List ℕ) (s s' : h.State) (wal : Text)
      → occurs 0 schedule ≡ true
      → get_elem? fetch 0 ≡ some wal
      → download h spool env streaming fetch destination options schedule s ≡ (ok tt, s')
      → IsFetched h spool env wal destination options
  unfolding download finish destination_of
  download-IsFetched streaming fetch destination options schedule s s' wal turn first e =
      let st = restore_list h spool env fetch destination options schedule s in
      let (u, s1, e1, e2) =
        and_then-ok (lift_result requested_error (requested_outcome st.0) st.1) _ tt s' e in
      let (same, (r, at, (name, place, (s2, outcome)))) =
        restore_list-IsRight h spool env fetch destination options schedule s 0 wal turn first in
      let fine : r.outcome ≡ ok tt =
        requested_ok st.0 r at
          (lift_result-ok requested_error (requested_outcome st.0) st.1 s1 tt e1) in
      restore-IsFetched h spool env wal destination options s2 (sym outcome ∙ fine)

  missing-IsDelivered :
      (streaming : Bool) (c : PgbackrestConfiguration) (requested destination : Text)
      (controlled : Bool) (options : List Text) (schedule : List ℕ) (s s' : h.State)
      → occurs 0 schedule ≡ true
      → unless_in_spool h spool env streaming c requested destination controlled options schedule
          false s
        ≡ (ok tt, s')
      → IsDelivered requested destination options
  unfolding unless_in_spool
  missing-IsDelivered streaming c requested destination controlled options schedule s s' turn e =
      let files =
        files_to_restore requested (max_parallel c.wal) controlled (is_wal_file requested) in
      let context = wrapped (codes "while generating the list of WAL files to restore") in
      let get =
        λ (fetch : List Text). download h spool env streaming fetch destination options schedule in
      let (u, s1, checked, e1) =
        and_then-ok (check_when h spool env streaming s) (λ _. lift_result context files >>= get) tt
          s' e in
      let (fetch, s2, listed, e2) = and_then-ok (lift_result context files s1) get tt s' e1 in
      let start : StartsRequested requested (ok fetch) =
        subst (StartsRequested requested) (lift_result-ok context files s1 s2 fetch listed) (
          files_start requested (max_parallel c.wal) controlled (is_wal_file requested)
            (max_parallel_pos c.wal)) in
      inr (
        start.0,
        start.2,
        download-IsFetched streaming fetch destination options schedule s2 s' start.0 turn start.1
            e2,
      )

  answered-IsDelivered :
      (was streaming : Bool) (c : PgbackrestConfiguration) (requested destination : Text)
      (controlled : Bool) (options : List Text) (schedule : List ℕ) (s0 s s' : h.State)
      → occurs 0 schedule ≡ true
      → restore_from_spool h spool env requested destination s0 ≡ (ok was, s)
      → unless_in_spool h spool env streaming c requested destination controlled options schedule
          was s
        ≡ (ok tt, s')
      → IsDelivered requested destination options
  answered-IsDelivered true streaming c requested destination controlled options schedule s0 s s'
        turn moved e =
      inl (s0, s, moved)
  answered-IsDelivered false streaming c requested destination controlled options schedule s0 s s'
        turn moved e =
      missing-IsDelivered streaming c requested destination controlled options schedule s s' turn e

unwrap_error :
    {S A : Type 0} (m : Text) (p : Result A × S) (a : A) (s : S)
    → ◌≡◌ {A = Result A × S} (wrap_result m p.0, p.1) (ok a, s)
    → p ≡ (ok a, s)
unwrap_error m (ok b, s1) a s e = e
unwrap_error m (err x, s1) a s e = cc

-- When the restore service answers without an error, either the WAL was moved out of the spool to its
-- destination from some state, or `archive-get` of the requested WAL into the destination, with the
-- options of the configuration, ended without an error from some state. The name that it was given
-- is the requested one, or that of the segment that the requested one stands for. For an order of
-- the goroutines in which the first one gets to run, any state of the host, and any answers of its
-- calls.
pub restore-IsDelivered :
    (h : Host) (spool : Text) (env : List Text) (cluster : Option ClusterView)
    (instance_name : Text) (c : PgbackrestConfiguration)
    (stanza pg_data requested destination : Text) (controlled : Bool) (schedule : List ℕ)
    (s s' : h.State)
    → occurs 0 schedule ≡ true
    → restore_from_pgbackrest_archive h spool env cluster instance_name c stanza pg_data requested
        destination controlled schedule s
      ≡ (ok tt, s')
    → (options : List Text) × (cloud_wal_restore_options c stanza pg_data ≡ ok options)
      × IsDelivered h spool env requested destination options
unfolding restore_from_pgbackrest_archive
restore-IsDelivered h spool env cluster instance_name c stanza pg_data requested destination
      controlled schedule s s' turn e =
    let streaming = is_streaming_available cluster instance_name in
    let context = wrapped (codes "while getting pgbackrest archive-get options") in
    let spool_context = codes "while restoring a file from the spool directory" in
    let make : Act h.State (Unit {0}) =
      wrap_error (codes "while creating the restorer") (new_wal_restorer h spool) in
    let take_out : Act h.State Bool =
      wrap_error spool_context (restore_from_spool h spool env requested destination) in
    let get = λ (options : List Text).
      unless_in_spool h spool env streaming c requested destination controlled options schedule in
    let (options, s1, built, e1) =
      and_then-ok (lift_result context (cloud_wal_restore_options c stanza pg_data) s)
        (λ options. make >> (take_out >>= get options)) tt s' e in
    let (u, s2, made, e2) = and_then-ok (make s1) (λ _. take_out >>= get options) tt s' e1 in
    let (was, s3, moved, e3) = and_then-ok (take_out s2) (get options) tt s' e2 in
    (
      options,
      lift_result-ok context (cloud_wal_restore_options c stanza pg_data) s s1 options built,
      answered-IsDelivered h spool env was streaming c requested destination controlled options
          schedule s2 s3 s' turn
          (unwrap_error spool_context (restore_from_spool h spool env requested destination s2) was
            s3 moved)
          e3,
    )
