-- ===== src/Tests/Jobs.antt =====
-- A restore job and a backup on a host in memory, whose catalog has done backups.
use cnpg_plugin_pgbackrest.Base.{
  ◌≡◌, refl, true, false, List, [], ◌∷◌, ◌++◌, Option, none, some, Text, codes, Result, ok, err,
}
use cnpg_plugin_pgbackrest.Host.Memory.{memory}
use cnpg_plugin_pgbackrest.Api.Archive.{zero_archive}
use cnpg_plugin_pgbackrest.Backup.{new_backup_command}
use cnpg_plugin_pgbackrest.Backup.Service.{
  BackupHost, BackupService, BackupRequest, BackupResult, backup_result, create_when,
}
use cnpg_plugin_pgbackrest.Backup.Service
use cnpg_plugin_pgbackrest.Backup.Service.Answered.{IsMade, backup-Reported}
use cnpg_plugin_pgbackrest.Catalog.{Catalog, PgbackrestBackup}
use cnpg_plugin_pgbackrest.Command.Info.{get_backup_list}
use cnpg_plugin_pgbackrest.Config.{Cluster, PluginEntry, new_from_cluster, plugin_name}
use cnpg_plugin_pgbackrest.Restore.Job.{
  JobHost, JobCluster, JobHook, restore_job, choose_backup, check_backup_destination,
  get_restore_wal_config, target_backup,
}
use cnpg_plugin_pgbackrest.Restore.Job.Restored.{restore_job_restores, IsHonest, IsRestored}
use cnpg_plugin_pgbackrest.Restore.Job.Destination.{check_backup_destination_accepts}
use cnpg_plugin_pgbackrest.Tests.{catalog, wal_one, backup}
use cnpg_plugin_pgbackrest.Tests.Backups.{target_types}
use cnpg_plugin_pgbackrest.Tests.Configs.{small_cluster}

abbrev recovery_plugin : PluginEntry
recovery_plugin = record {
  name = plugin_name;
  is_enabled = true;
  parameters = some ((codes "pgbackrestObjectName", codes "old") ∷ []);
}

abbrev recovering_cluster : Cluster
recovering_cluster = record {
  name = codes "main";
  namespace = codes "default";
  image_pull_policy = [];
  plugins = [];
  recovery_source = some (codes "origin");
  replica_source = none;
  external_cluster = λ s. some (some recovery_plugin);
}

abbrev job_host : JobHost (List Text)
unfolding zero_archive
job_host = record {
  get_archive = λ namespace name fs. (ok zero_archive, fs);
  get_secret = λ namespace name fs. (ok [], fs);
  mkdir_all = λ p fs. (ok tt, fs);
  write_file = λ p d fs. (ok tt, p ∷ fs);
  readlink = λ p fs. [];
  move_directory_content = λ p q fs. (ok tt, fs);
  symlink = λ p q fs. (ok tt, q ∷ fs);
}

abbrev job_cluster : JobCluster
job_cluster = record {
  cluster = recovering_cluster;
  bootstrap = some none;
  has_wal_storage = true;
  empty_wal_archive_check = true;
}

abbrev job_hook : JobHook
job_hook = record {
  spool_directory = codes "/spool";
  pg_data_path = codes "/pgdata";
  pg_wal_folder_to_symlink = codes "/wal";
  environ = codes "HOME=/" ∷ [];
  pg_data = codes "/pgdata";
  unmarshal = λ json. ok (catalog ∷ []);
  target_types = target_types;
  log_path = codes "/log";
  log_file_name = codes "postgres";
}

abbrev job_config : Text
job_config = get_restore_wal_config (codes "/log") (codes "postgres")

abbrev files_after : List Text
unfolding restore_job
files_after = (restore_job memory job_host job_hook (ok job_cluster) []).1

memory_honest : IsHonest memory
memory_honest = λ env options s s' e h. cc

restore_job_restores_example :
    (j : JobCluster) × ((let request : Result JobCluster = ok job_cluster in request ≡ ok j))
    × IsRestored memory job_host job_hook j
unfolding files_after restore_job job_host new_from_cluster
    cnpg_plugin_pgbackrest.Credentials.env_set_restore_cloud_credentials get_backup_list
    cnpg_plugin_pgbackrest.Command.Info.execute_query_command
    cnpg_plugin_pgbackrest.Command.append_cloud_provider_options_from_configuration
    cnpg_plugin_pgbackrest.Command.append_log_options_from_configuration
    cnpg_plugin_pgbackrest.Catalog.new_catalog_from_pgbackrest_info choose_backup
    cnpg_plugin_pgbackrest.Restore.Job.required_backup
    cnpg_plugin_pgbackrest.Catalog.Find.latest_backup_info
    cnpg_plugin_pgbackrest.Restore.Run.restore
    cnpg_plugin_pgbackrest.Restore.get_pgbackrest_restore_options
    cnpg_plugin_pgbackrest.Command.append_stanza_options_from_configuration
    cnpg_plugin_pgbackrest.Base.str_eq
restore_job_restores_example =
    restore_job_restores memory memory_honest job_host job_hook (ok job_cluster) job_config []
      files_after refl

check_backup_destination_accepts_example :
    (check_backup_destination memory job_host job_hook job_cluster zero_archive.configuration []).0
    ≡ ok tt
unfolding zero_archive get_backup_list
    cnpg_plugin_pgbackrest.Credentials.env_set_restore_cloud_credentials
    cnpg_plugin_pgbackrest.Command.Info.execute_query_command
    cnpg_plugin_pgbackrest.Command.append_cloud_provider_options_from_configuration
    cnpg_plugin_pgbackrest.Command.append_log_options_from_configuration
    cnpg_plugin_pgbackrest.Catalog.new_catalog_from_pgbackrest_info
check_backup_destination_accepts_example =
    check_backup_destination_accepts memory job_host job_hook job_cluster zero_archive.configuration
      (codes "HOME=/") [] catalog [] [] [] [] refl refl refl

-- A catalog whose backup has the name that the service gives.
abbrev named_backup : PgbackrestBackup
named_backup = record (backup 9 wal_one) {
  annotations = (codes "cnpg-backup-name", codes "backup-now") ∷ [];
}

abbrev named_catalog : Catalog
named_catalog = record catalog { backups = named_backup ∷ [] }

abbrev backup_host : BackupHost (List Text)
unfolding zero_archive
backup_host = record {
  get_archive = λ namespace name fs. (ok zero_archive, fs);
  get_secret = λ namespace name fs. (ok [], fs);
  mkdir_all = λ p fs. (ok tt, fs);
  write_file = λ p d fs. (ok tt, p ∷ fs);
  compact_time = λ fs. codes "now";
  error_text = λ e. [];
}

abbrev backup_service : BackupService
backup_service = record {
  instance_name = codes "main-1";
  pg_data_path = codes "/pgdata";
  environ = [];
  unmarshal = λ json. ok (named_catalog ∷ []);
  backup_temporary_directory = codes "/tmp";
}

abbrev backup_request : BackupRequest
backup_request = record { backup_config = ok (some []); cluster = ok small_cluster }

abbrev named_result : BackupResult
unfolding backup_result
named_result = backup_result (codes "main-1") named_backup

backup-Reported_example :
    (config : Option (List (Text × Text))) × (cluster : Cluster) × (backup_request.backup_config
      ≡ ok config)
    × (backup_request.cluster ≡ ok cluster)
    × IsMade memory backup_host backup_service config cluster named_result []
unfolding named_result Service.backup backup_host
    cnpg_plugin_pgbackrest.Credentials.env_set_backup_cloud_credentials
    cnpg_plugin_pgbackrest.Backup.get_stanza_create_options
    cnpg_plugin_pgbackrest.Command.append_cloud_provider_options_from_configuration
    cnpg_plugin_pgbackrest.Command.append_stanza_options_from_configuration
    cnpg_plugin_pgbackrest.Command.append_log_options_from_configuration
    cnpg_plugin_pgbackrest.Backup.get_pgbackrest_backup_options
    cnpg_plugin_pgbackrest.Backup.get_data_configuration
    cnpg_plugin_pgbackrest.Backup.append_annotations cnpg_plugin_pgbackrest.Backup.annotations_of
    cnpg_plugin_pgbackrest.Command.append_retention_options_from_configuration
    cnpg_plugin_pgbackrest.Backup.parameters_of get_backup_list
    cnpg_plugin_pgbackrest.Command.Info.execute_query_command
    cnpg_plugin_pgbackrest.Catalog.new_catalog_from_pgbackrest_info
    cnpg_plugin_pgbackrest.Catalog.Find.get_backup_id_from_annotated_name
    cnpg_plugin_pgbackrest.Catalog.new_single_backup_catalog_from_pgbackrest_info codes
    cnpg_plugin_pgbackrest.Base.str_eq
backup-Reported_example =
    backup-Reported memory backup_host backup_service backup_request named_result [] [] refl
