-- ===== src/Tests/Backups.antt =====
-- The choice of a backup from a catalog of two.
use cnpg_plugin_pgbackrest.Base.{
  ◌≡◌, ◌↔◌, ◌⊎◌, Error, message, refl, true, Option, codes, ok, err, panic, arith,
}
use cnpg_plugin_pgbackrest.Base.Int.{ℤ, pos, ◌≤ℤ◌}
use cnpg_plugin_pgbackrest.Catalog.{PgbackrestBackup}
use cnpg_plugin_pgbackrest.Catalog.Find.{
  TargetTypes, find_latest_backup_from_timeline, find_closest_backup_from_target_time,
  find_closest_backup_from_target_lsn, latest_backup_info, get_last_successful_backup_time,
  first_recoverability_point, stop_of, find_backup_from_id, get_backup_id_from_annotated_name,
  nanoseconds,
}
use cnpg_plugin_pgbackrest.Catalog.Choice.{
  Fits, IsChosen, find_latest_backup_from_timeline_lem, find_closest_backup_from_target_time_lem,
  find_closest_backup_from_target_lsn_lem,
}
use cnpg_plugin_pgbackrest.Catalog.Panics.{IsReached, find_latest_backup_from_timeline_panics}
use cnpg_plugin_pgbackrest.Catalog.Annotated.{LastAnnotated, get_backup_id_from_annotated_name_lem}
use cnpg_plugin_pgbackrest.Catalog.Latest.{
  IsFirstDone, IsLastDone, IsFirstWithId, last_and_first_backup, find_backup_from_id_lem,
}
use cnpg_plugin_pgbackrest.Tests.{catalog, broken_catalog}

-- Every target time is the seventh second, every LSN is behind every other.
abbrev pub target_types : TargetTypes
target_types = record {
  parse_target_time = λ t. ok (pos 7000000000);
  parse_lsn = λ l. ok tt;
  less_lsn = λ l m. true;
}

find_latest_backup_from_timeline_example :
    (o : Option PgbackrestBackup) × (find_latest_backup_from_timeline catalog (pos 1) ≡ ok o)
    × IsChosen (Fits (pos 1) Unit) catalog.backups o
unfolding codes
find_latest_backup_from_timeline_example =
    find_latest_backup_from_timeline_lem catalog (pos 1) (omega arith, (omega arith, tt))

find_closest_backup_from_target_time_example :
    let answer = find_closest_backup_from_target_time target_types catalog (codes "7") (pos 1) in
    ((time : ℤ) × (o : Option PgbackrestBackup) × (target_types.parse_target_time (codes "7")
        ≡ ok time)
      × (answer ≡ ok o)
      × IsChosen (λ b. Fits (pos 1) (nanoseconds b.time.stop ≤ℤ time) b) catalog.backups o)
    ⊎ ((e : Error) × (target_types.parse_target_time (codes "7") ≡ err e)
        × (answer ≡ err (message (codes "while parsing recovery target"))))
find_closest_backup_from_target_time_example =
    find_closest_backup_from_target_time_lem target_types catalog (codes "7") (pos 1)
      (unfold codes in (omega arith, (omega arith, tt)))

find_closest_backup_from_target_lsn_example :
    (o : Option PgbackrestBackup) × (find_closest_backup_from_target_lsn target_types catalog
        (codes "0/3")
        (pos 1)
      ≡ ok o)
    × IsChosen
        (λ b. Fits (pos 1) (target_types.less_lsn b.lsn.stop (codes "0/3") ≡ true) b)
        catalog.backups
        o
unfolding codes
find_closest_backup_from_target_lsn_example =
    find_closest_backup_from_target_lsn_lem target_types catalog (codes "0/3") (pos 1)
      (omega arith, (omega arith, tt)) refl

find_latest_backup_from_timeline_panics_example :
    (find_latest_backup_from_timeline broken_catalog (pos 1) ≡ err panic)
    ↔ IsReached (pos 1) broken_catalog.backups
find_latest_backup_from_timeline_panics_example =
    find_latest_backup_from_timeline_panics broken_catalog (pos 1)

last_and_first_backup_example :
    IsLastDone catalog.backups (latest_backup_info catalog)
    × (get_last_successful_backup_time catalog ≡ stop_of (latest_backup_info catalog))
    × ((first : Option PgbackrestBackup) × IsFirstDone catalog.backups first
        × (first_recoverability_point catalog ≡ stop_of first))
last_and_first_backup_example = last_and_first_backup catalog

find_backup_from_id_example :
    IsFirstWithId
      (codes "20250101-000000F")
      catalog.backups
      (find_backup_from_id catalog (codes "20250101-000000F"))
unfolding codes
find_backup_from_id_example = find_backup_from_id_lem catalog (codes "20250101-000000F") refl

get_backup_id_from_annotated_name_example :
    LastAnnotated
      (codes "cnpg-backup-name")
      (codes "daily")
      catalog.backups
      (get_backup_id_from_annotated_name catalog (codes "daily"))
get_backup_id_from_annotated_name_example =
    get_backup_id_from_annotated_name_lem catalog (codes "daily")
