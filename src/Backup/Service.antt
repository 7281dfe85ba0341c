-- ===== src/Backup/Service.antt =====
-- internal/cnpgi/instance/backup.go: the backup service of the instance. The calls that it makes beyond
-- those of the host, the clock's text and the decoders are parameters.
pub mod Answered
use cnpg_plugin_pgbackrest.Base.{
  Bool, true, false, List, [], ◌∷◌, ◌++◌, Option, none, some, Text, codes, Result, ok, err, Error,
  panic,
}
use cnpg_plugin_pgbackrest.Base.Int.{ℤ}
use cnpg_plugin_pgbackrest.Host.{Host, Act, ◌>>=◌, ◌>>◌, return, and_then, from_result}
use cnpg_plugin_pgbackrest.Api.Archive.{Archive}
use cnpg_plugin_pgbackrest.Api.Policy.{should_create_stanza_on_backup}
use cnpg_plugin_pgbackrest.Config.{Cluster, new_from_cluster}
use cnpg_plugin_pgbackrest.Credentials.{SecretData, env_set_backup_cloud_credentials}
use cnpg_plugin_pgbackrest.Catalog.{Catalog, PgbackrestBackup}
use cnpg_plugin_pgbackrest.Catalog.Find.{annotation}
use cnpg_plugin_pgbackrest.Backup.{Command, new_backup_command, backup_name_annotation}
use cnpg_plugin_pgbackrest.Backup.Stanza.{create_pgbackrest_stanza}
use cnpg_plugin_pgbackrest.Backup.Take.{take, get_executed_backup_info}

pub record BackupHost (S : Type 0) : Type 0 where
  pub get_archive : Text → Text → Act S Archive
  pub get_secret : Text → Text → Act S SecretData
  pub mkdir_all : Text → Act S (Unit {0})
  pub write_file : Text → Text → Act S (Unit {0})
  -- `pgTime.ToCompactISO8601(time.Now())`
  pub compact_time : S → Text
  -- `Error()` of the errors of a run
  pub error_text : Error → Text

-- `BackupServiceImplementation`, with the sanitized environment of the process, the decoder of the
-- catalogs and `postgres.BackupTemporaryDirectory`.
pub record BackupService : Type 0 where
  pub instance_name : Text
  pub pg_data_path : Text
  pub environ : List Text
  pub unmarshal : Text → Result (List Catalog)
  pub backup_temporary_directory : Text

-- The request: the plugin configuration of the backup and the cluster, as they decode.
pub record BackupRequest : Type 0 where
  pub backup_config : Result (Option (List (Text × Text)))
  pub cluster : Result Cluster

-- `BackupResult`, but for the constants of the plugin's metadata; `Online` is always set.
pub record BackupResult : Type 0 where
  pub backup_id : Text
  pub backup_name : Text
  pub started_at : ℤ
  pub stopped_at : ℤ
  pub begin_wal : Text
  pub end_wal : Text
  pub begin_lsn : Text
  pub end_lsn : Text
  pub instance_id : Text

unfoldable pub backup_result : Text → PgbackrestBackup → BackupResult
unfolding annotation
backup_result instance_name b = record {
  backup_id = b.id;
  backup_name = annotation backup_name_annotation b.annotations;
  started_at = b.time.start;
  stopped_at = b.time.stop;
  begin_wal = b.wal.start;
  end_wal = b.wal.stop;
  begin_lsn = b.lsn.start;
  end_lsn = b.lsn.stop;
  instance_id = instance_name;
}

unfoldable pub first_of : Text → List PgbackrestBackup → Result BackupResult
unfolding backup_result
first_of instance_name [] = err panic
first_of instance_name (b ∷ backups) = ok (backup_result instance_name b)

-- The reads of `executedBackupInfo.Backups[0]`: a nil catalog and an empty one stop the program.
unfoldable pub first_backup : Text → Option Catalog → Result BackupResult
unfolding first_of
first_backup instance_name none = err panic
first_backup instance_name (some c) = first_of instance_name c.backups

module _ (h : Host) (k : BackupHost h.State) (impl : BackupService) where
  unfoldable pub create_when : Bool → Command → Text → List Text → Act h.State (Unit {0})
  unfolding create_pgbackrest_stanza
  create_when false b stanza env s = (ok tt, s)
  create_when true b stanza env s = create_pgbackrest_stanza h b stanza env s

  unfoldable pub report : Command → Text → Text → List Text → Act h.State BackupResult
  unfolding get_executed_backup_info first_backup
  report b backup_name stanza env = do
    info ← get_executed_backup_info h impl.unmarshal b backup_name stanza env
    from_result (first_backup impl.instance_name info)

  unfoldable pub take_and_report : Command → Text → List Text → Text → Act h.State BackupResult
  unfolding take report
  take_and_report b stanza env backup_name = do
    take h k.error_text b backup_name stanza env impl.backup_temporary_directory
    report b backup_name stanza env

  -- The name is taken from the clock after the creation of the stanza.
  unfoldable pub named_backup : Command → Text → List Text → Act h.State BackupResult
  unfolding take_and_report
  named_backup b stanza env s = take_and_report b stanza env (codes "backup-" ++ k.compact_time s) s

  unfoldable pub run_backup : Command → Text → List Text → Act h.State BackupResult
  unfolding create_when named_backup should_create_stanza_on_backup
  run_backup b stanza env = do
    create_when (should_create_stanza_on_backup b.configuration) b stanza env
    named_backup b stanza env

  unfoldable pub with_credentials : Command → Text → Archive → Act h.State BackupResult
  unfolding run_backup
  with_credentials b stanza archive = do
    env ←
        env_set_backup_cloud_credentials k.get_secret k.mkdir_all k.write_file archive.namespace
          archive.configuration impl.environ
    run_backup b stanza env

  unfoldable pub backup_with :
      Option (List (Text × Text)) → Text → Archive → Act h.State BackupResult
  unfolding with_credentials new_backup_command
  backup_with backup_config stanza archive = do
    h.ensure_directory impl.backup_temporary_directory
    with_credentials (new_backup_command archive.configuration backup_config impl.pg_data_path)
        stanza archive

  unfoldable pub backup_cluster : Option (List (Text × Text)) → Cluster → Act h.State BackupResult
  unfolding backup_with
  backup_cluster backup_config cluster = do
    archive ← k.get_archive cluster.namespace (new_from_cluster cluster).pgbackrest_object_name
    backup_with backup_config (new_from_cluster cluster).stanza archive

  -- `Backup`
  unfoldable pub backup : BackupRequest → Act h.State BackupResult
  unfolding backup_cluster
  backup request = do
    backup_config ← from_result request.backup_config
    cluster ← from_result request.cluster
    backup_cluster backup_config cluster
