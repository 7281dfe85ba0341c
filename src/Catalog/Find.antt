-- ===== src/Catalog/Find.antt =====
-- The searches of internal/pgbackrest/catalog/catalog.go.
use mathlib.Core.List.{reverse}
use cnpg_plugin_pgbackrest.Base.{
  ◌+◌, ◌-◌, ◌*◌, Bool, true, false, not, ◌&&◌, ◌||◌, List, [], ◌∷◌, Option, none, some, Text, codes,
  str_eq, length, ltb, is_nil, if◌then◌else◌, Result, ok, err, ◌>>=◌, message, panic,
}
use cnpg_plugin_pgbackrest.Base.Int.{ℤ, pos, negsuc, eqb_ℤ, leb_ℤ}
use cnpg_plugin_pgbackrest.Go.Strings.{take}
use cnpg_plugin_pgbackrest.Go.Strconv.{parse_int}
use cnpg_plugin_pgbackrest.Catalog.{PgbackrestBackup, Catalog, is_backup_done, first_done}

-- `LatestTimelineID`
abbrev pub latest_timeline_id : ℤ
latest_timeline_id = negsuc 0

-- `LatestBackupInfo`: from the end of the list.
unfoldable pub latest_backup_info : Catalog → Option PgbackrestBackup
unfolding first_done
latest_backup_info c = first_done (reverse c.backups)

unfoldable pub stop_of : Option PgbackrestBackup → Option ℤ
stop_of none = none
stop_of (some b) = some b.time.stop

-- `GetLastSuccessfulBackupTime`, in seconds
unfoldable pub get_last_successful_backup_time : Catalog → Option ℤ
unfolding latest_backup_info stop_of
get_last_successful_backup_time c = stop_of (latest_backup_info c)

-- `GetBackupIDs`
unfoldable pub get_backup_ids : List PgbackrestBackup → List Text
get_backup_ids [] = []
get_backup_ids (b ∷ bs) = b.id ∷ get_backup_ids bs

-- `FirstRecoverabilityPoint` and `GetFirstRecoverabilityPoint`, in seconds
unfoldable pub first_recoverability_point : Catalog → Option ℤ
unfolding first_done stop_of
first_recoverability_point c = stop_of (first_done c.backups)

-- `strconv.ParseInt(start[:8], 16, 0)`; the slice of a shorter text stops the program.
unfoldable pub timeline_of : Option ℤ → Result ℤ
unfolding codes
timeline_of none = err (message (codes "invalid syntax"))
timeline_of (some n) = ok n

unfoldable pub start_timeline : PgbackrestBackup → Result ℤ
unfolding timeline_of
start_timeline b =
    if ltb (length b.wal.start) 8
    then err panic
    else timeline_of (parse_int 16 64 (take 8 b.wal.start))

-- One round of a search: an error of `startTimeline` moves on, a panic does not, then a backup that
-- is not done moves on, and the last test decides.
unfoldable pub tests : Bool → Bool → Result ℤ → (ℤ → Bool) → Result Bool
tests done bounded (ok tli) in_timeline = ok (done && (in_timeline tli && bounded))
tests done bounded (err panic) in_timeline = err panic
tests done bounded (err e) in_timeline = ok false

-- `startTimeline <= targetTimeline || targetTimeline == LatestTimelineID`
unfoldable pub in_timeline : ℤ → ℤ → Bool
in_timeline target tli = leb_ℤ tli target || eqb_ℤ target latest_timeline_id

-- A search from the newest backup on; the list is given in that order.
unfoldable pub search_newest :
    (PgbackrestBackup → Result Bool) → List PgbackrestBackup → Result (Option PgbackrestBackup)
search_newest f [] = ok none
search_newest f (b ∷ bs) = f b >>= λ hit. if hit then ok (some b) else search_newest f bs

-- `findLatestBackupFromTimeline`
unfoldable pub fits_timeline : ℤ → PgbackrestBackup → Result Bool
unfolding tests in_timeline
fits_timeline target b = tests (is_backup_done b) true (start_timeline b) (in_timeline target)

unfoldable pub find_latest_backup_from_timeline : Catalog → ℤ → Result (Option PgbackrestBackup)
find_latest_backup_from_timeline c target = search_newest (fits_timeline target) (reverse c.backups)

-- A time in seconds as the nanoseconds of a `time.Time`.
abbrev pub nanoseconds : ℤ → ℤ
nanoseconds (pos n) = pos (n * 1000000000)
nanoseconds (negsuc n) = negsuc ((n + 1) * 1000000000 - 1)

-- What the searches use of `machinery/pkg/types`: reading a target time as nanoseconds since the
-- epoch, and reading and comparing LSNs.
pub record TargetTypes : Type 0 where
  pub parse_target_time : Text → Result ℤ
  pub parse_lsn : Text → Result (Unit {0})
  pub less_lsn : Text → Text → Bool

-- `!time.Unix(stop, 0).After(targetTime)`
unfoldable pub fits_time : ℤ → ℤ → PgbackrestBackup → Result Bool
unfolding tests in_timeline
fits_time time target b =
    tests (is_backup_done b) (leb_ℤ (nanoseconds b.time.stop) time) (start_timeline b)
      (in_timeline target)

unfoldable pub fits_lsn : (Text → Text → Bool) → Text → ℤ → PgbackrestBackup → Result Bool
unfolding tests in_timeline
fits_lsn less lsn target b =
    tests (is_backup_done b) (less b.lsn.stop lsn) (start_timeline b) (in_timeline target)

-- The error is wrapped with `%s`, so only its text goes on.
unfoldable pub target_error {ℓ} : {A : Type ℓ} → Result A → Result A
unfolding codes
target_error (ok a) = ok a
target_error (err e) = err (message (codes "while parsing recovery target"))

module _ (t : TargetTypes) where
  -- `findClosestBackupFromTargetTime`
  unfoldable pub find_closest_backup_from_target_time :
      Catalog → Text → ℤ → Result (Option PgbackrestBackup)
  unfolding target_error
  find_closest_backup_from_target_time c target_time target =
      target_error (t.parse_target_time target_time) >>= λ time.
      search_newest (fits_time time target) (reverse c.backups)

  -- `findClosestBackupFromTargetLSN`
  unfoldable pub find_closest_backup_from_target_lsn :
      Catalog → Text → ℤ → Result (Option PgbackrestBackup)
  unfolding target_error
  find_closest_backup_from_target_lsn c target_lsn target =
      target_error (t.parse_lsn target_lsn) >>= λ _.
      search_newest (fits_lsn t.less_lsn target_lsn target) (reverse c.backups)

unfoldable pub search_id : Text → List PgbackrestBackup → Option PgbackrestBackup
unfolding is_backup_done str_eq
search_id id [] = none
search_id id (b ∷ bs) = if is_backup_done b && str_eq b.id id then some b else search_id id bs

unfoldable pub found_id : Option PgbackrestBackup → Result (Option PgbackrestBackup)
unfolding codes
found_id none = err (message (codes "no backup found with ID"))
found_id (some b) = ok (some b)

-- `findBackupFromID`
unfoldable pub find_backup_from_id : Catalog → Text → Result (Option PgbackrestBackup)
unfolding search_id found_id codes
find_backup_from_id c id =
    if is_nil id
    then err (message (codes "no backupID provided"))
    else found_id (search_id id c.backups)

-- The recovery target of the cluster, by the four methods that the search asks.
pub record RecoveryTarget : Type 0 where
  pub backup_id : Text
  pub target_time : Text
  pub target_lsn : Text
  pub target_tli : Text

timeline_or_latest : Option ℤ → ℤ
timeline_or_latest none = latest_timeline_id
timeline_or_latest (some n) = n

-- A timeline that is no number counts as the latest one.
unfoldable pub target_timeline : RecoveryTarget → ℤ
unfolding timeline_or_latest
target_timeline r = timeline_or_latest (parse_int 10 64 r.target_tli)

-- `FindBackupInfo`
unfoldable pub find_backup_info :
    TargetTypes → Catalog → RecoveryTarget → Result (Option PgbackrestBackup)
unfolding target_timeline
find_backup_info t c r =
    if not (is_nil r.backup_id)
    then find_backup_from_id c r.backup_id
    else if not (is_nil r.target_time)
    then find_closest_backup_from_target_time t c r.target_time (target_timeline r)
    else if not (is_nil r.target_lsn)
    then find_closest_backup_from_target_lsn t c r.target_lsn (target_timeline r)
    else find_latest_backup_from_timeline c (target_timeline r)

-- `Annotations[key]`, empty where the key is missing
unfoldable pub annotation : Text → List (Text × Text) → Text
unfolding str_eq
annotation key [] = []
annotation key ((k, v) ∷ rest) = if str_eq k key then v else annotation key rest

unfoldable pub search_annotated : Text → Text → List PgbackrestBackup → Text
unfolding annotation str_eq
search_annotated key name [] = []
search_annotated key name (b ∷ bs) =
    if str_eq (annotation key b.annotations) name then b.id else search_annotated key name bs

-- `GetBackupIDFromAnnotatedName`
unfoldable pub get_backup_id_from_annotated_name : Catalog → Text → Text
unfolding search_annotated codes
get_backup_id_from_annotated_name c name =
    search_annotated (codes "cnpg-backup-name") name (reverse c.backups)
