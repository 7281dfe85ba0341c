-- ===== src/Wal/Spool.antt =====
-- internal/pgbackrest/spool/spool.go: a directory whose files are WALs, over the calls of a host.
pub mod Once
use cnpg_plugin_pgbackrest.Base.{
  Bool, true, false, List, [], Text, codes, if◌then◌else◌, Result, ok, err, Error, file_not_exist,
  path_not_exist,
}
use cnpg_plugin_pgbackrest.Go.Paths
use cnpg_plugin_pgbackrest.Host.{Host, Act, ◌>>=◌, ◌>>◌, return, fail, and_then, wrap_error}

-- `os.IsNotExist`, and the translation of its errors to `ErrorNonExistentFile`.
unfoldable pub as_non_existent : Result (Unit {0}) → Result (Unit {0})
as_non_existent (ok u) = ok u
as_non_existent (err path_not_exist) = err file_not_exist
as_non_existent (err file_not_exist) = err file_not_exist
as_non_existent (err e) = err e

abbrev translate : {S : Type 0} → Result (Unit {0}) × S → Result (Unit {0}) × S
translate (r, s) = (as_non_existent r, s)

-- A `WALSpool`, by its directory.
module _ (h : Host) (spool_directory : Text) where
  -- `New`, which makes the directory
  unfoldable pub new_spool : Act h.State (Unit {0})
  new_spool =
      wrap_error (codes "while creating spool directory") (h.ensure_directory spool_directory)

  -- `archiver.New`, whose fields are the parameters of the model
  unfoldable pub new_archiver : Act h.State (Unit {0})
  unfolding new_spool
  new_archiver = wrap_error (codes "while creating spool directory") new_spool

  -- `restorer.NewWALRestorer`
  unfoldable pub new_wal_restorer : Act h.State (Unit {0})
  unfolding new_spool
  new_wal_restorer = wrap_error (codes "while creating spool directory") new_spool

  -- `Contains`
  unfoldable pub contains_wal : Text → h.State → Result Bool
  contains_wal wal_file = h.file_exists (Paths.join spool_directory (Paths.base wal_file))

  -- `Remove`
  unfoldable pub remove : Text → Act h.State (Unit {0})
  unfolding as_non_existent
  remove wal_file s = translate (h.remove (Paths.join spool_directory (Paths.base wal_file)) s)

  -- `Touch`, which skips an error of the Close
  unfoldable pub touch : Text → Act h.State (Unit {0})
  touch wal_file = h.create (Paths.clean (Paths.join spool_directory (Paths.base wal_file)))

  -- `MoveOut`
  unfoldable pub move_out : Text → Text → Act h.State (Unit {0})
  unfolding as_non_existent
  move_out wal_name destination s =
      translate (h.move_file (Paths.join spool_directory wal_name) destination s)

  -- `FileName`
  unfoldable pub file_name : Text → Text
  file_name wal_name = Paths.join spool_directory wal_name

  when_contained : Text → Bool → Act h.State Bool
  unfolding remove
  when_contained wal_name false = return false
  when_contained wal_name true = do remove wal_name; return true

  -- `WALArchiver.DeleteFromSpool`. Its flag is read only when there is no error.
  unfoldable pub delete_from_spool : Text → Act h.State Bool
  unfolding contains_wal when_contained
  delete_from_spool wal_name s = and_then (contains_wal wal_name s, s) (when_contained wal_name)
