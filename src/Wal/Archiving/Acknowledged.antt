-- ===== src/Wal/Archiving/Acknowledged.antt =====
-- What a successful answer of the archive service rests on.
use cnpg_plugin_pgbackrest.Base.{
  ℕ, ◌≡◌, ◌≢◌, ◌⊎◌, inl, inr, refl, ap, subst, Bool, true, false, List, [], ◌∷◌, Option, none, some,
  Text, get_elem?, Result, ok, err, Error,
}
use cnpg_plugin_pgbackrest.Go.Paths
use cnpg_plugin_pgbackrest.Host.{Host, Act, ◌>>=◌, and_then-ok, from_result}
use cnpg_plugin_pgbackrest.Api.{PgbackrestConfiguration}
use cnpg_plugin_pgbackrest.Catalog.{Catalog}
use cnpg_plugin_pgbackrest.Parallel.Slots.{occurs}
use cnpg_plugin_pgbackrest.Archiver.{pgbackrest_wal_archive_options}
use cnpg_plugin_pgbackrest.Archiver.Batch.{ArchiveResult}
use cnpg_plugin_pgbackrest.Archiver.Batch.Pushed.{IsPushed, IsReport, archive_list_pushed}
use cnpg_plugin_pgbackrest.Archiver.Gather.{pg_wal_directory}
use cnpg_plugin_pgbackrest.Archiver.Gather.Ready.{gather_wal_files_to_archive_lem}
use cnpg_plugin_pgbackrest.Wal.Spool.{new_archiver, contains_wal, delete_from_spool}
use cnpg_plugin_pgbackrest.Wal.Spool.Once.{contained_of_deleted}
use cnpg_plugin_pgbackrest.Wal.Archiving.{
  last_error, error_or, result_of_error, push_batch, unless_archived, prepare, archive_wal,
}

-- An error that was seen stays, or a later one takes its place.
last_error-some :
    (results : List (Option ArchiveResult)) (e : Error) → last_error results (some e) ≢ none
unfolding last_error error_or
last_error-some [] e h = cc
last_error-some (none ∷ results) e h = last_error-some results e h
last_error-some (some r ∷ results) e h = by_outcome r.outcome (λ x. last_error-some results x) h
  where
    by_outcome :
        (o : Result (Unit {0}))
        → ((x : Error) → last_error results (some x) ≢ none)
        → last_error results (error_or o (some e)) ≡ none
        → ⊥
    by_outcome (ok _) stays h = stays e h
    by_outcome (err x) stays h = stays x h

first_error :
    (results : List (Option ArchiveResult)) (o : Result (Unit {0})) (last : Option Error)
    → last_error results (error_or o last) ≡ none
    → o ≡ ok tt
unfolding error_or
first_error results (ok _) last h = refl
first_error results (err e) last h = absurd (last_error-some results e h)

-- With no last error the first slot that is filled holds no error.
first_slot-ok :
    (results : List (Option ArchiveResult)) (r : ArchiveResult)
    → get_elem? results 0 ≡ some (some r)
    → last_error results none ≡ none
    → r.outcome ≡ ok tt
unfolding last_error
first_slot-ok [] r at h = cc
first_slot-ok (none ∷ results) r at h = cc
first_slot-ok (some x ∷ results) r at h =
    let same : x ≡ r = cc in
    subst (λ y. y.outcome ≡ ok tt) same (first_error results x.outcome none h)

no_error : (o : Option Error) → result_of_error o ≡ ok tt → o ≡ none
unfolding result_of_error
no_error none h = refl
no_error (some e) h = cc

module _ (h : Host) (unmarshal : Text → Result (List Catalog)) (spool : Text) (env : List Text)
    (pg_data_path pg_data : Text) (c : PgbackrestConfiguration) (stanza requested : Text)
    (schedule : List ℕ) where
  abbrev requested_path : Text
  requested_path = Paths.join (pg_wal_directory pg_data requested) (Paths.base requested)

  batch-IsPushed :
      (options : List Text) (s s' : h.State)
      → occurs 0 schedule ≡ true
      → push_batch h unmarshal spool env pg_data_path pg_data c stanza requested schedule options s
        ≡ (ok tt, s')
      → IsPushed h env options requested_path
  unfolding push_batch
  batch-IsPushed options s s' turn e =
      let first =
        ap (λ l. get_elem? l 0) (gather_wal_files_to_archive_lem h pg_data requested _ s).2 in
      let (same, (r, at, report)) =
        archive_list_pushed h spool env _ _ options schedule s 0 requested_path turn first in
      let fine : r.outcome ≡ ok tt = first_slot-ok _ r at (no_error _ (ap (λ p. p.0) e)) in
      subst (IsReport h env options requested_path) fine report

  by_spool :
      (was : Bool) (s1 s2 s' : h.State)
      → occurs 0 schedule ≡ true
      → delete_from_spool h spool requested s1 ≡ (ok was, s2)
      → unless_archived h unmarshal spool env pg_data_path pg_data c stanza requested schedule was
          s2
        ≡ (ok tt, s')
      → ((s0 : h.State) × (contains_wal h spool requested s0 ≡ ok true))
        ⊎ ((options : List Text) × (pgbackrest_wal_archive_options c stanza ≡ ok options)
            × IsPushed h env options requested_path)
  unfolding unless_archived
  by_spool true s1 s2 s' turn deleted e =
      inl (s1, contained_of_deleted h spool requested s1 s2 deleted)
  by_spool false s1 s2 s' turn deleted e =
      let push =
        push_batch h unmarshal spool env pg_data_path pg_data c stanza requested schedule in
      let (u, s3, prepared, e3) =
        and_then-ok (prepare h unmarshal spool env pg_data_path pg_data c stanza s2)
          (λ _. from_result (pgbackrest_wal_archive_options c stanza) >>= push) tt s' e in
      let (options, s4, given, e4) =
        and_then-ok (pgbackrest_wal_archive_options c stanza, s3) push tt s' e3 in
      inr (options, ap (λ p. p.0) given, batch-IsPushed options s4 s' turn e4)

-- When the archive service answers without an error, either the spool held a file of the WAL's name
-- in some state, or `archive-push` of the WAL's path, with the options of the configuration, ended
-- without an error from some state. For an order of the goroutines in which the first one gets to
-- run, any state of the host, and any answers of its calls.
pub archive_wal_acknowledged :
    (h : Host) (unmarshal : Text → Result (List Catalog)) (spool : Text) (env : List Text)
    (pg_data_path pg_data : Text) (c : PgbackrestConfiguration) (stanza requested : Text)
    (schedule : List ℕ) (s s' : h.State)
    → occurs 0 schedule ≡ true
    → archive_wal h unmarshal spool env pg_data_path pg_data c stanza requested schedule s
      ≡ (ok tt, s')
    → ((s0 : h.State) × (contains_wal h spool requested s0 ≡ ok true))
      ⊎ ((options : List Text) × (pgbackrest_wal_archive_options c stanza ≡ ok options)
          × IsPushed h env options
              (Paths.join (pg_wal_directory pg_data requested) (Paths.base requested)))
unfolding archive_wal
archive_wal_acknowledged h unmarshal spool env pg_data_path pg_data c stanza requested schedule s s'
      turn e =
    let finish =
      unless_archived h unmarshal spool env pg_data_path pg_data c stanza requested schedule in
    let make : Act h.State (Unit {0}) = new_archiver h spool in
    let (u, s1, made, e1) =
      and_then-ok (make s) (λ _. delete_from_spool h spool requested >>= finish) tt s' e in
    let (was, s2, deleted, e2) =
      and_then-ok (delete_from_spool h spool requested s1) finish tt s' e1 in
    by_spool h unmarshal spool env pg_data_path pg_data c stanza requested schedule was s1 s2 s'
      turn deleted e2
