-- ===== src/Archiver/Batch.antt =====
-- internal/pgbackrest/walarchive/cmd.go: one `archive-push` and a batch of them in parallel.
pub mod Pushed
use cnpg_plugin_pgbackrest.Base.{
  ℕ, zero, suc, ◌-◌, ◌==◌, List, [], ◌∷◌, ◌++◌, Option, Text, codes, leb, if◌then◌else◌, length,
  Result, ok, err, Error, message, wrapped,
}
use cnpg_plugin_pgbackrest.Host.{Host, Act, ◌>>◌, and_then, wrap_error}
use cnpg_plugin_pgbackrest.Parallel
use cnpg_plugin_pgbackrest.Wal.Restorer.{max_int}
use cnpg_plugin_pgbackrest.Wal.Spool

-- `WALArchiverResult`, without the times that only the log reads.
pub record ArchiveResult : Type 0 where
  pub wal_name : Text
  pub outcome : Result (Unit {0})

-- A `PgbackrestArchiver`: its spool, its environment, and the path of the file that marks an empty
-- archive.
module _ (h : Host) (spool : Text) (env : List Text) (empty_wal_archive_path : Text) where
  -- The run of the command, and the end of the mark of an empty archive.
  push : Text → List Text → Act h.State (Unit {0})
  push wal_name base_options = do
    wrap_error (codes "unexpected failure invoking archive-push")
        (h.pgbackrest env (base_options ++ codes "archive-push" ∷ wal_name ∷ []))
    wrap_error (codes "error while deleting the check WAL file flag")
        (h.remove_file empty_wal_archive_path)

  -- `Archive`
  unfoldable pub archive : Text → List Text → Act h.State (Unit {0})
  unfolding push
  archive wal_name base_options s =
      let result = push wal_name base_options s in
      if leb (max_int - 2) (length base_options)
      then (err (message (codes "can't archive wal file, options too long")), s)
      else result

  -- A WAL that was not asked for is touched in the spool.
  touch_others : ℕ → Text → Act h.State (Unit {0})
  touch_others zero wal_name s = (ok tt, s)
  touch_others (suc index) wal_name s = Spool.touch h spool wal_name s

  -- The body of the goroutine for an index.
  unfoldable pub archive_one : List Text → ℕ → Text → h.State → ArchiveResult × h.State
  unfolding archive touch_others
  archive_one options index wal_name s =
      let (r, s') = and_then (archive wal_name options s) (λ _. touch_others index wal_name) in
      (record { wal_name = wal_name; outcome = r }, s')

  -- `ArchiveList`, for an order in which its goroutines run.
  unfoldable pub archive_list :
      List Text → List Text → List ℕ → h.State → List (Option ArchiveResult) × h.State
  unfolding archive_one
  archive_list wal_names options schedule =
      Parallel.run_schedule (archive_one options) wal_names schedule
