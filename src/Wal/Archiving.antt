-- ===== src/Wal/Archiving.antt =====
-- The WAL archive service of internal/cnpgi/common/wal.go, and the check of the destination that it
-- makes (internal/pgbackrest/archiver/archiver.go).
pub mod Acknowledged
use cnpg_plugin_pgbackrest.Base.{
  ℕ, Bool, true, false, List, [], ◌∷◌, Option, none, some, Text, codes, if◌then◌else◌, Result, ok,
  err, Error, stanza_missing, is_stanza_missing,
}
use cnpg_plugin_pgbackrest.Go.Paths
use cnpg_plugin_pgbackrest.Host.{
  Host, Act, ◌>>=◌, ◌>>◌, return, fail, and_then, from_result, wrap_error,
}
use cnpg_plugin_pgbackrest.Api.{PgbackrestConfiguration}
use cnpg_plugin_pgbackrest.Api.Policy.{should_create_stanza_on_archive}
use cnpg_plugin_pgbackrest.Catalog.{Catalog, is_stanza_missing_status}
use cnpg_plugin_pgbackrest.Command.Info.{get_backup_list}
use cnpg_plugin_pgbackrest.Archiver.{pgbackrest_wal_archive_options}
use cnpg_plugin_pgbackrest.Archiver.Batch.{ArchiveResult, archive_list}
use cnpg_plugin_pgbackrest.Archiver.Gather.{gather_wal_files_to_archive}
use cnpg_plugin_pgbackrest.Backup.{new_backup_command}
use cnpg_plugin_pgbackrest.Backup.Stanza.{create_pgbackrest_stanza}
use cnpg_plugin_pgbackrest.Wal.Service.{max_parallel}
use cnpg_plugin_pgbackrest.Wal.Spool.{new_archiver, delete_from_spool}

error_or : Result (Unit {0}) → Option Error → Option Error
error_or (ok _) last = last
error_or (err e) last = some e

-- The loop over the results of a batch: the last error of them.
unfoldable pub last_error : List (Option ArchiveResult) → Option Error → Option Error
unfolding error_or
last_error [] last = last
last_error (none ∷ results) last = last_error results last
last_error (some r ∷ results) last = last_error results (error_or r.outcome last)

result_of_error : Option Error → Result (Unit {0})
result_of_error none = ok tt
result_of_error (some e) = err e

-- For the decoding of the catalogs, the spool, the environment with the credentials, the directory of
-- the data, the value of PGDATA, and an order in which the goroutines run.
module _ (h : Host) (unmarshal : Text → Result (List Catalog)) (spool : Text) (env : List Text)
    (pg_data_path pg_data : Text) (c : PgbackrestConfiguration) (stanza : Text) where
  unfoldable pub missing_or_ok : Bool → Act h.State (Unit {0})
  missing_or_ok false = return tt
  missing_or_ok true = fail stanza_missing

  -- `CheckWalArchiveDestination`
  unfoldable pub check_wal_archive_destination : Act h.State (Unit {0})
  unfolding missing_or_ok
  check_wal_archive_destination = do
    destination_catalog ← get_backup_list h unmarshal env c stanza
    missing_or_ok (is_stanza_missing_status destination_catalog)

  -- The creation of the stanza, whose error is only logged.
  create_when : Bool → Act h.State (Unit {0})
  create_when false s = (ok tt, s)
  create_when true s =
      let (r, s') =
        create_pgbackrest_stanza h (new_backup_command c none pg_data_path) stanza env s in
      (ok tt, s')

  create_or_fail : Error → Act h.State (Unit {0})
  unfolding create_when
  create_or_fail e s =
      let created = create_when (should_create_stanza_on_archive c) s in
      if is_stanza_missing e then created else (err e, s)

  -- The switch on the error of the check.
  after_check : Result (Unit {0}) × h.State → Result (Unit {0}) × h.State
  unfolding create_or_fail
  after_check (ok u, s) = (ok u, s)
  after_check (err e, s) = create_or_fail e s

  prepare : Act h.State (Unit {0})
  unfolding after_check
  prepare s = after_check (check_wal_archive_destination s)

  push_batch : Text → List ℕ → List Text → Act h.State (Unit {0})
  unfolding last_error result_of_error
  push_batch requested schedule options s =
      let wal_list = gather_wal_files_to_archive pg_data requested h (max_parallel c.wal) s in
      let empty_wal_archive_path = Paths.join pg_data_path (codes ".check-empty-wal-archive") in
      let (results, s') =
        archive_list h spool env empty_wal_archive_path wal_list options schedule s in
      (result_of_error (last_error results none), s')

  unless_archived : Text → List ℕ → Bool → Act h.State (Unit {0})
  unfolding push_batch prepare
  unless_archived requested schedule true = return tt
  unless_archived requested schedule false = do
    prepare
    options ← from_result (pgbackrest_wal_archive_options c stanza)
    push_batch requested schedule options

  -- `Archive`, after the credentials
  unfoldable pub archive_wal : Text → List ℕ → Act h.State (Unit {0})
  unfolding unless_archived new_archiver
  archive_wal requested schedule = do
    new_archiver h spool
    was_in_spool ← delete_from_spool h spool requested
    unless_archived requested schedule was_in_spool
