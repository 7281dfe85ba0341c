-- ===== src/Wal/Service.antt =====
-- The WAL restore service of internal/cnpgi/common/wal.go: which archive a WAL comes from, the list
-- of WALs to prefetch, and the flag that ends a WAL stream.
pub mod Fetched
pub mod Gather
pub mod Start
pub mod Streaming
use mathlib.Core.List.{map}
use cnpg_plugin_pgbackrest.Base.{
  ℕ, Bool, true, false, ◌&&◌, ◌||◌, List, [], ◌∷◌, ◌++◌, Option, none, some, Text, codes, str_eq,
  ltb, ◌==◌, if◌then◌else◌, length, is_nil, Result, ok, err, Error, wrapped, panic,
  status_wal_not_found, end_of_wal_stream_reached, is_wal_not_found, replicate, not,
}
use cnpg_plugin_pgbackrest.Base.Int.{ℤ, pos, negsuc}
use cnpg_plugin_pgbackrest.Host.{Host, Act, ◌>>=◌, ◌>>◌, return, fail, and_then, wrap_error}
use cnpg_plugin_pgbackrest.Api.{PgbackrestConfiguration, WalBackupConfiguration}
use cnpg_plugin_pgbackrest.Command.{cloud_wal_restore_options}
use cnpg_plugin_pgbackrest.Wal.Segment.{
  Segment, segment_from_name, segment_name, next_segments, is_wal_file,
}
use cnpg_plugin_pgbackrest.Wal.Spool
use cnpg_plugin_pgbackrest.Wal.Spool.{new_wal_restorer}
use cnpg_plugin_pgbackrest.Wal.Restorer.{
  RestoreResult, restore_from_spool, is_end_of_wal_stream, reset_end_of_wal_stream,
  set_end_of_wal_stream, restore_list,
}

-- What the service reads of a cluster: `Status.CurrentPrimary`, `IsReplica()`, the promotion token of
-- `Spec.ReplicaCluster` (empty without one), `Status.LastPromotionToken`, and, where
-- `ExternalCluster` finds the replica's source, whether its connection parameters are there.
pub record ClusterView : Type 0 where
  pub current_primary : Text
  pub is_replica : Bool
  pub promotion_token : Text
  pub last_promotion_token : Text
  pub source_connection : Option Bool

-- The three archives that the service restores from.
pub data Source : Type 0 where
  cluster_archive recovery_archive replica_source_archive : Source

-- The switch in `Restore`: the archive, and whether the promotion is controlled by a token.
unfoldable pub source_of : ClusterView → Text → Source × Bool
source_of c instance_name =
    if not (is_nil c.promotion_token) && not (str_eq c.last_promotion_token c.promotion_token)
    then (replica_source_archive, true)
    else if c.is_replica && str_eq c.current_primary instance_name
    then (replica_source_archive, false)
    else if is_nil c.current_primary
    then (recovery_archive, false)
    else (cluster_archive, false)

source_streams : Option Bool → Bool
source_streams none = false
source_streams (some b) = b

-- `isStreamingAvailable`
unfoldable pub is_streaming_available : Option ClusterView → Text → Bool
unfolding source_streams
is_streaming_available none pod_name = false
is_streaming_available (some c) pod_name =
    if is_nil c.current_primary
    then false
    else if not (str_eq c.current_primary pod_name)
    then true
    else if c.is_replica
    then source_streams c.source_connection
    else false

at_least_one : ℤ → ℕ
at_least_one (pos n) = if ltb 1 n then n else 1
at_least_one (negsuc n) = 1

-- `maxParallel`
unfoldable pub max_parallel : Option WalBackupConfiguration → ℕ
unfolding at_least_one
max_parallel none = 1
max_parallel (some w) = at_least_one w.max_parallel

last_of : List Text → Option Text
last_of [] = none
last_of (w ∷ []) = some w
last_of (v ∷ w ∷ ws) = last_of (w ∷ ws)

-- `append(walList, walList[len(walList)-1]+".partial")`
append_partial : List Text → Option Text → Result (List Text)
unfolding codes
append_partial wals none = err panic
append_partial wals (some w) = ok (wals ++ (w ++ codes ".partial") ∷ [])

with_partial : Bool → List Text → Result (List Text)
unfolding append_partial last_of
with_partial false wals = ok wals
with_partial true wals = append_partial wals (last_of wals)

gather_from : Text → ℕ → Bool → Result Segment → Result (List Text)
unfolding with_partial
gather_from wal_name parallel controlled_promotion (err _) = ok (wal_name ∷ [])
gather_from wal_name parallel controlled_promotion (ok segment) =
    let segments = next_segments segment parallel none none in
    with_partial (controlled_promotion && (ltb (length segments) parallel || parallel == 1))
      (map segment_name segments)

-- `gatherWALFilesToRestore`
unfoldable pub gather_wal_files_to_restore : Text → ℕ → Bool → Result (List Text)
unfolding gather_from
gather_wal_files_to_restore wal_name parallel controlled_promotion =
    gather_from wal_name parallel controlled_promotion (segment_from_name wal_name)

unfoldable pub files_to_restore : Text → ℕ → Bool → Bool → Result (List Text)
files_to_restore wal_name parallel controlled_promotion true =
    gather_wal_files_to_restore wal_name parallel controlled_promotion
files_to_restore wal_name parallel controlled_promotion false = ok (wal_name ∷ [])

failed_for_missing : Result (Unit {0}) → Bool
failed_for_missing (ok _) = false
failed_for_missing (err e) = is_wal_not_found e

-- `isEndOfWALStream`. A slot that no goroutine filled holds the zero result, without an error.
unfoldable pub is_end_of_stream_error : Option RestoreResult → Bool
unfolding failed_for_missing
is_end_of_stream_error none = false
is_end_of_stream_error (some r) = failed_for_missing r.outcome

unfoldable pub any_wal_not_found : List (Option RestoreResult) → Bool
unfolding is_end_of_stream_error
any_wal_not_found [] = false
any_wal_not_found (r ∷ rs) = is_end_of_stream_error r || any_wal_not_found rs

lift_result : {S A : Type 0} → (Error → Error) → Result A → Act S A
lift_result f (ok a) s = (ok a, s)
lift_result f (err e) s = (err (f e), s)

-- The status that PostgreSQL gets for an error of the WAL that it asked for.
unfoldable pub requested_error : Error → Error
requested_error e = if is_wal_not_found e then status_wal_not_found else e

requested_outcome : List (Option RestoreResult) → Result (Unit {0})
requested_outcome [] = err panic
requested_outcome (none ∷ rs) = ok tt
requested_outcome (some r ∷ rs) = r.outcome

-- `restoreFromPgbackrestArchive` after the credentials, for a spool directory, the credentials' environment
-- and an order in which the goroutines run.
module _ (h : Host) (spool : Text) (env : List Text) where
  reset_and_stop : Bool → Act h.State (Unit {0})
  reset_and_stop false = return tt
  reset_and_stop true = do reset_end_of_wal_stream h spool env; fail end_of_wal_stream_reached

  -- `checkEndOfWALStreamFlag`
  unfoldable pub check_end_of_wal_stream_flag : Act h.State (Unit {0})
  unfolding reset_and_stop
  check_end_of_wal_stream_flag = do
    contain ← is_end_of_wal_stream h spool env
    reset_and_stop contain

  check_when : Bool → Act h.State (Unit {0})
  check_when false = return tt
  check_when true = check_end_of_wal_stream_flag

  set_when : Bool → Act h.State (Unit {0})
  set_when false = return tt
  set_when true = set_end_of_wal_stream h spool env

  -- The part after the downloads.
  finish : Bool → List (Option RestoreResult) → Act h.State (Unit {0})
  unfolding set_when lift_result requested_outcome
  finish streaming slots = do
    lift_result requested_error (requested_outcome slots)
    set_when (streaming && any_wal_not_found slots)

  download : Bool → List Text → Text → List Text → List ℕ → Act h.State (Unit {0})
  unfolding finish
  download streaming fetch destination options schedule s =
      let (slots, s') = restore_list h spool env fetch destination options schedule s in
      finish streaming slots s'

  unless_in_spool :
      Bool
      → PgbackrestConfiguration
      → Text
      → Text
      → Bool
      → List Text
      → List ℕ
      → Bool
      → Act h.State (Unit {0})
  unfolding download check_when files_to_restore
  unless_in_spool streaming c wal_name destination controlled options schedule true = return tt
  unless_in_spool streaming c wal_name destination controlled options schedule false = do
    check_when streaming
    fetch ←
        lift_result (wrapped (codes "while generating the list of WAL files to restore"))
          (files_to_restore wal_name (max_parallel c.wal) controlled (is_wal_file wal_name))
    download streaming fetch destination options schedule

  unfoldable pub restore_from_pgbackrest_archive :
      Option ClusterView
      → Text
      → PgbackrestConfiguration
      → Text
      → Text
      → Text
      → Text
      → Bool
      → List ℕ
      → Act h.State (Unit {0})
  unfolding unless_in_spool new_wal_restorer
  restore_from_pgbackrest_archive cluster instance_name c stanza pg_data wal_name destination
        controlled schedule =
      do
        options ←
            lift_result (wrapped (codes "while getting pgbackrest archive-get options"))
              (cloud_wal_restore_options c stanza pg_data)
        wrap_error (codes "while creating the restorer") (new_wal_restorer h spool)
        was_in_spool ←
            wrap_error (codes "while restoring a file from the spool directory")
              (restore_from_spool h spool env wal_name destination)
        unless_in_spool (is_streaming_available cluster instance_name) c wal_name destination
            controlled options schedule was_in_spool
