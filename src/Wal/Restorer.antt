-- ===== src/Wal/Restorer.antt =====
-- internal/pgbackrest/restorer/wal.go: WALs from the spool, the flag for the end of the WAL stream,
-- and the parallel download of a list of WALs.
pub mod Fetch
pub mod Flag
pub mod Schedule
use cnpg_plugin_pgbackrest.Base.{
  ℕ, zero, suc, ◌-◌, ◌^◌, Bool, true, false, List, [], ◌∷◌, ◌++◌, Option, none, some, Text, codes,
  str_eq, ltb, leb, ◌==◌, if◌then◌else◌, length, get_elem?, set, Result, ok, err, Error, message,
  wrapped, file_not_exist, wal_not_found, exit_error,
}
use cnpg_plugin_pgbackrest.Go.Strings.{has_suffix, trim_suffix}
use cnpg_plugin_pgbackrest.Host.{Host, Act, ◌>>=◌, ◌>>◌, return, fail, and_then}
use cnpg_plugin_pgbackrest.Parallel
use cnpg_plugin_pgbackrest.Wal.Spool

abbrev pub end_of_wal_stream_flag_filename : Text
end_of_wal_stream_flag_filename = codes "end-of-wal-stream"

-- `Result`, without the times that only the log reads.
pub record RestoreResult : Type 0 where
  pub wal_name : Text
  pub destination_path : Text
  pub outcome : Result (Unit {0})

-- `errors.As(err, &exitError)`
unfoldable pub exit_code : Error → Option ℕ
exit_code (exit_error n) = some n
exit_code (wrapped m e) = exit_code e
exit_code _ = none

error_of_code : Error → Option ℕ → Error
unfolding codes
error_of_code e none = wrapped (codes "unexpected failure retrieving") e
error_of_code e (some n) =
    if n == 1 then wal_not_found else message (codes "encountered an error while executing")

-- `walRestoreError`
unfoldable pub wal_restore_error : Error → Error
unfolding error_of_code exit_code
wal_restore_error e = error_of_code e (exit_code e)

abbrev pub max_int : ℕ
max_int = 2 ^ 63 - 1

-- What the call that moves a file out of the spool answers.
unfoldable pub from_spool : Result (Unit {0}) → Result Bool
from_spool (ok _) = ok true
from_spool (err file_not_exist) = ok false
from_spool (err e) = err e

map_error : {S : Type 0} → (Error → Error) → Result (Unit {0}) × S → Result (Unit {0}) × S
map_error f (ok u, s) = (ok u, s)
map_error f (err e, s) = (err (f e), s)

-- A `WALRestorer`: its spool and its environment.
module _ (h : Host) (spool : Text) (env : List Text) where
  -- `RestoreFromSpool`
  unfoldable pub restore_from_spool : Text → Text → Act h.State Bool
  unfolding from_spool
  restore_from_spool wal_name destination s =
      let (r, s') = Spool.move_out h spool wal_name destination s in (from_spool r, s')

  wrap_check : Result Bool → Result Bool
  unfolding codes
  wrap_check (ok b) = ok b
  wrap_check (err e) = err (wrapped (codes "failed to check end-of-wal-stream flag") e)

  -- `IsEndOfWALStream`
  unfoldable pub is_end_of_wal_stream : Act h.State Bool
  unfolding wrap_check
  is_end_of_wal_stream s =
      (wrap_check (Spool.contains_wal h spool end_of_wal_stream_flag_filename s), s)

  touch_unless : Bool → Act h.State (Unit {0})
  touch_unless true = return tt
  touch_unless false = Spool.touch h spool end_of_wal_stream_flag_filename

  -- `SetEndOfWALStream`
  unfoldable pub set_end_of_wal_stream : Act h.State (Unit {0})
  unfolding is_end_of_wal_stream touch_unless
  set_end_of_wal_stream = do contains ← is_end_of_wal_stream; touch_unless contains

  -- `ResetEndOfWalStream`
  unfoldable pub reset_end_of_wal_stream : Act h.State (Unit {0})
  unfolding map_error
  reset_end_of_wal_stream s =
      map_error (wrapped (codes "failed to remove end-of-wal-stream flag"))
        (Spool.remove h spool end_of_wal_stream_flag_filename s)

  -- `Restore`
  unfoldable pub restore : Text → Text → List Text → Act h.State (Unit {0})
  unfolding map_error
  restore wal_name destination base_options s =
      let run =
        map_error wal_restore_error (
          h.pgbackrest env (base_options ++ codes "archive-get" ∷ wal_name ∷ destination ∷ []) s) in
      if leb (max_int - 3) (length base_options)
      then (err (message (codes "can't restore wal file, options too long")), s)
      else run

  -- Where the WAL at an index of the list goes: the one that was asked for to its destination, the
  -- others into the spool, a partial one under the name of the full one.
  unfoldable pub destination_of : Text → ℕ → Text → Text
  unfolding trim_suffix
  destination_of destination_path index wal_name =
      if index == 0
      then destination_path
      else if has_suffix wal_name (codes ".partial")
      then Spool.file_name h spool (trim_suffix wal_name (codes ".partial"))
      else Spool.file_name h spool wal_name

  -- The body of the goroutine for an index.
  unfoldable pub restore_one : Text → List Text → ℕ → Text → h.State → RestoreResult × h.State
  unfolding restore
  restore_one destination_path options index wal_name s =
      let destination = destination_of destination_path index wal_name in
      let (r, s') = restore wal_name destination options s in
      (record { wal_name = wal_name; destination_path = destination; outcome = r }, s')

  -- `RestoreList`, for an order in which its goroutines run.
  unfoldable pub restore_list :
      List Text → Text → List Text → List ℕ → h.State → List (Option RestoreResult) × h.State
  unfolding restore_one
  restore_list fetch destination_path options schedule =
      Parallel.run_schedule (restore_one destination_path options) fetch schedule
