-- ===== src/Tests/Archives.antt =====
-- Batches of WALs to archive, the archive service and the report of backups on a host in memory.
use cnpg_plugin_pgbackrest.Base.{
  ◌↔◌, ℕ, ◌≡◌, ◌⊎◌, refl, true, List, [], ◌∷◌, ◌++◌, Option, none, some, Text, codes, length,
  get_elem?, take, Result, ok, ◌-◌,
}
use cnpg_plugin_pgbackrest.Go.Paths
use cnpg_plugin_pgbackrest.Host.Memory.{memory, erase}
use cnpg_plugin_pgbackrest.Catalog.{Catalog}
use cnpg_plugin_pgbackrest.Command.Info.{get_backup_by_annotated_name, get_backup_list}
use cnpg_plugin_pgbackrest.Command.Info.ByName.{IsUnnamed, missing_name_no_error}
use cnpg_plugin_pgbackrest.Archiver.{pgbackrest_wal_archive_options}
use cnpg_plugin_pgbackrest.Archiver.Batch.{ArchiveResult, archive_list}
use cnpg_plugin_pgbackrest.Archiver.Batch.Pushed.{IsPushed, IsReport, archive_list_pushed}
use cnpg_plugin_pgbackrest.Archiver.Gather.{
  pg_wal_directory, archive_status_path, gather_wal_files_to_archive,
}
use cnpg_plugin_pgbackrest.Archiver.Gather.Ready.{
  Selects, entries_of, gather_wal_files_to_archive_lem,
}
use cnpg_plugin_pgbackrest.Wal.Spool.{contains_wal}
use cnpg_plugin_pgbackrest.Wal.Archiving.{archive_wal}
use cnpg_plugin_pgbackrest.Wal.Archiving.Acknowledged.{archive_wal_acknowledged}
use cnpg_plugin_pgbackrest.Tests.{spool_directory, wal_one, wal_two, configuration, catalog}

abbrev data_directory : Text
data_directory = codes "/pgdata"

-- The marks of two WALs that are ready, and of one that is archived.
abbrev marks : List Text
marks = (wal_one ++ codes ".ready") ∷ (wal_two ++ codes ".ready") ∷ (wal_two ++ codes ".done") ∷ []

gather_wal_files_to_archive_example :
    (ready : List Text) × Selects data_directory wal_one
      (entries_of (memory.list_directory (archive_status_path data_directory wal_one) marks))
      ready
    × (gather_wal_files_to_archive data_directory wal_one memory 4 marks
        ≡ Paths.join (pg_wal_directory data_directory wal_one) (Paths.base wal_one)
          ∷ take (4 - 1) ready)
gather_wal_files_to_archive_example =
    gather_wal_files_to_archive_lem memory data_directory wal_one 4 marks

abbrev two_results : List (Option ArchiveResult)
two_results =
    (archive_list memory spool_directory [] [] (wal_one ∷ wal_two ∷ []) [] (1 ∷ 0 ∷ []) []).0

archive_list_pushed_example :
    (length two_results ≡ length (wal_one ∷ wal_two ∷ []))
    × ((r : ArchiveResult) × (get_elem? two_results 1 ≡ some (some r))
        × IsReport memory [] [] wal_two r.outcome)
archive_list_pushed_example =
    archive_list_pushed memory spool_directory [] [] (wal_one ∷ wal_two ∷ []) [] (1 ∷ 0 ∷ []) [] 1
      wal_two refl refl

abbrev report : Text → Result (List Catalog)
report json = ok (catalog ∷ [])

archive_wal_acknowledged_example :
    ((s0 : List Text) × (contains_wal memory spool_directory wal_one s0 ≡ ok true))
    ⊎ ((options : List Text) × (pgbackrest_wal_archive_options configuration (codes "main")
          ≡ ok options)
        × IsPushed memory [] options
            (Paths.join (pg_wal_directory data_directory wal_one) (Paths.base wal_one)))
unfolding codes archive_wal cnpg_plugin_pgbackrest.Wal.Spool.delete_from_spool
    cnpg_plugin_pgbackrest.Base.contains
    cnpg_plugin_pgbackrest.Wal.Archiving.check_wal_archive_destination get_backup_list
    cnpg_plugin_pgbackrest.Command.Info.execute_query_command
    cnpg_plugin_pgbackrest.Command.append_cloud_provider_options_from_configuration
    cnpg_plugin_pgbackrest.Command.append_log_options_from_configuration
    cnpg_plugin_pgbackrest.Catalog.new_catalog_from_pgbackrest_info
    cnpg_plugin_pgbackrest.Catalog.is_stanza_missing_status pgbackrest_wal_archive_options
    archive_list cnpg_plugin_pgbackrest.Parallel.run_schedule gather_wal_files_to_archive
    cnpg_plugin_pgbackrest.Wal.Service.max_parallel
    cnpg_plugin_pgbackrest.Api.Args.append_additional_archive_push_command_args erase
archive_wal_acknowledged_example =
    archive_wal_acknowledged memory report spool_directory [] data_directory data_directory
      configuration (codes "main") wal_one (0 ∷ []) [] [] refl refl

missing_name_no_error_example :
    (get_backup_by_annotated_name memory report [] configuration (codes "main") (codes "weekly") []
      ≡ (ok none, []))
    ↔ IsUnnamed memory report [] configuration (codes "main") (codes "weekly") [] []
missing_name_no_error_example =
    missing_name_no_error memory report [] configuration (codes "main") (codes "weekly") [] []
