-- ===== src/Restore/Job.antt =====
-- internal/cnpgi/restore/restore.go: the hook of the restore job. The calls that it makes beyond those
-- of the host, the clock and the readers of the catalog's texts are parameters.
pub mod Destination
pub mod Restored
use cnpg_plugin_pgbackrest.Base.{
  Bool, true, false, List, [], ◌∷◌, ◌++◌, Option, none, some, Text, codes, str_eq, is_nil,
  if◌then◌else◌, Result, ok, err, Error, message, panic, is_stanza_missing,
}
use cnpg_plugin_pgbackrest.Base.Int.{ℤ}
use cnpg_plugin_pgbackrest.Go.Paths
use cnpg_plugin_pgbackrest.Host.{
  Host, Act, ◌>>=◌, ◌>>◌, return, fail, and_then, from_result, wrap_error,
}
use cnpg_plugin_pgbackrest.Api.{PgbackrestConfiguration}
use cnpg_plugin_pgbackrest.Api.Archive.{Archive}
use cnpg_plugin_pgbackrest.Config.{Cluster, PluginConfiguration, new_from_cluster, stanza_of}
use cnpg_plugin_pgbackrest.Credentials.{SecretData, env_set_restore_cloud_credentials}
use cnpg_plugin_pgbackrest.Catalog.{Catalog, PgbackrestBackup}
use cnpg_plugin_pgbackrest.Catalog.Find.{
  TargetTypes, RecoveryTarget, find_backup_info, latest_backup_info,
}
use cnpg_plugin_pgbackrest.Command.Info.{get_backup_list}
use cnpg_plugin_pgbackrest.Wal.Spool.{new_archiver}
use cnpg_plugin_pgbackrest.Wal.Archiving.{check_wal_archive_destination}
use cnpg_plugin_pgbackrest.Restore.{RestoreCommand}
use cnpg_plugin_pgbackrest.Restore.Run.{restore}

-- The other calls of the job, on the state of the host.
pub record JobHost (S : Type 0) : Type 0 where
  pub get_archive : Text → Text → Act S Archive
  pub get_secret : Text → Text → Act S SecretData
  pub mkdir_all : Text → Act S (Unit {0})
  pub write_file : Text → Text → Act S (Unit {0})
  -- `os.Readlink`, with the empty text for an error
  pub readlink : Text → S → Text
  pub move_directory_content : Text → Text → Act S (Unit {0})
  pub symlink : Text → Text → Act S (Unit {0})

-- What the job reads of the cluster beside the plugin configuration: where there is a
-- `Spec.Bootstrap`, the target of its recovery, if there are these; whether `Spec.WalStorage` is set, and `utils.IsEmptyWalArchiveCheckEnabled`.
pub record JobCluster : Type 0 where
  pub cluster : Cluster
  pub bootstrap : Option (Option RecoveryTarget)
  pub has_wal_storage : Bool
  pub empty_wal_archive_check : Bool

-- `JobHookImpl`, with the sanitized environment of the process, the value of PGDATA, and the decoders.
pub record JobHook : Type 0 where
  pub spool_directory : Text
  pub pg_data_path : Text
  pub pg_wal_folder_to_symlink : Text
  pub environ : List Text
  pub pg_data : Text
  pub unmarshal : Text → Result (List Catalog)
  pub target_types : TargetTypes
  -- `postgres.LogPath` and `postgres.LogFileName`
  pub log_path : Text
  pub log_file_name : Text

-- The fields of the `cnpgv1.Backup` that the code fills from the catalog.
pub record TargetBackup : Type 0 where
  pub server_name : Text
  pub backup_id : Text
  pub started_at : ℤ
  pub stopped_at : ℤ
  pub begin_wal : Text
  pub end_wal : Text
  pub begin_lsn : Text
  pub end_lsn : Text

unfoldable pub target_backup : Text → PgbackrestBackup → TargetBackup
target_backup stanza b = record {
  server_name = stanza;
  backup_id = b.id;
  started_at = b.time.start;
  stopped_at = b.time.stop;
  begin_wal = b.wal.start;
  end_wal = b.wal.stop;
  begin_lsn = b.lsn.start;
  end_lsn = b.lsn.stop;
}

-- The backup to restore: by the recovery target, or the latest one. A cluster without a
-- `Spec.Bootstrap` stops the program.
unfoldable pub choose_backup :
    TargetTypes → Catalog → Option (Option RecoveryTarget) → Result (Option PgbackrestBackup)
choose_backup types catalog none = err panic
choose_backup types catalog (some none) = ok (latest_backup_info catalog)
choose_backup types catalog (some (some target)) = find_backup_info types catalog target

unfoldable pub required_backup : Option PgbackrestBackup → Result PgbackrestBackup
unfolding codes
required_backup none = err (message (codes "no target backup found"))
required_backup (some b) = ok b

-- `getRestoreWalConfig`
unfoldable pub get_restore_wal_config : Text → Text → Text
unfolding codes
get_restore_wal_config log_path log_file_name =
    codes "recovery_target_action = promote"
    ++ (10
        ∷ (codes "restore_command = '/controller/manager wal-restore --log-destination "
            ++ (log_path ++ (b'/' ∷ (log_file_name ++ (codes ".json %f %p'" ++ 10 ∷ []))))))

unfoldable pub stanza_missing_is_empty :
    {S : Type 0} → Result (Unit {0}) × S → Result (Unit {0}) × S
stanza_missing_is_empty (ok u, s) = (ok u, s)
stanza_missing_is_empty (err e, s) = if is_stanza_missing e then (ok tt, s) else (err e, s)

module _ (h : Host) (k : JobHost h.State) (impl : JobHook) where
  unfoldable pub check_when :
      Bool → List Text → PgbackrestConfiguration → Text → Act h.State (Unit {0})
  unfolding stanza_missing_is_empty
  check_when false env c stanza s = (ok tt, s)
  check_when true env c stanza s = stanza_missing_is_empty (
      check_wal_archive_destination h impl.unmarshal impl.spool_directory env impl.pg_data_path
        impl.pg_data c stanza s)

  unfoldable pub check_with :
      JobCluster → PgbackrestConfiguration → List Text → Act h.State (Unit {0})
  unfolding check_when stanza_of new_archiver
  check_with j c [] = return tt
  check_with j c (e ∷ env) = do
    wrap_error (codes "while creating the archiver") (new_archiver h impl.spool_directory)
    check_when j.empty_wal_archive_check (e ∷ env) c (stanza_of j.cluster.plugins j.cluster.name)

  -- `checkBackupDestination`
  unfoldable pub check_backup_destination :
      JobCluster → PgbackrestConfiguration → Act h.State (Unit {0})
  unfolding check_with
  check_backup_destination j c = do
    env ← wrap_error (codes "can't get credentials for cluster " ++ j.cluster.name) (
        env_set_restore_cloud_credentials k.get_secret k.mkdir_all k.write_file j.cluster.namespace
          c impl.environ)
    check_with j c env

  -- The choice in the catalog.
  unfoldable pub choose_from :
      JobCluster → Text → List Text → Catalog → Act h.State (TargetBackup × List Text)
  choose_from j stanza env backup_catalog = do
    found ← from_result (choose_backup impl.target_types backup_catalog j.bootstrap)
    b ← from_result (required_backup found)
    return (target_backup stanza b, env)

  unfoldable pub load_with :
      JobCluster
      → PgbackrestConfiguration
      → Text
      → List Text
      → Act h.State (TargetBackup × List Text)
  unfolding choose_from
  load_with j c stanza env = do
    backup_catalog ← get_backup_list h impl.unmarshal env c stanza
    choose_from j stanza env backup_catalog

  -- `loadBackupObjectFromExternalCluster`
  unfoldable pub load_backup_object_from_external_cluster :
      JobCluster → PgbackrestConfiguration → Text → Act h.State (TargetBackup × List Text)
  unfolding load_with
  load_backup_object_from_external_cluster j c stanza = do
    env ←
        env_set_restore_cloud_credentials k.get_secret k.mkdir_all k.write_file j.cluster.namespace
          c impl.environ
    load_with j c stanza env

  -- `restoreDataDir`
  unfoldable pub restore_data_dir :
      TargetBackup → List Text → PgbackrestConfiguration → Act h.State (Unit {0})
  restore_data_dir backup env c =
      restore h k.write_file (record { configuration = c; pg_data_directory = impl.pg_data_path })
        backup.backup_id backup.server_name env

  move_wal_dir : Text → Act h.State Bool
  move_wal_dir pg_data_wal = do
    h.ensure_directory impl.pg_wal_folder_to_symlink
    h.ensure_directory pg_data_wal
    k.move_directory_content pg_data_wal impl.pg_wal_folder_to_symlink
    h.remove_file pg_data_wal
    k.symlink impl.pg_wal_folder_to_symlink pg_data_wal
    return true

  unless_linked : Bool → Text → Act h.State Bool
  unfolding move_wal_dir
  unless_linked true pg_data_wal = return false
  unless_linked false pg_data_wal = move_wal_dir pg_data_wal

  -- `restoreCustomWalDir`; the flag is only given where there is no error.
  unfoldable pub restore_custom_wal_dir : Act h.State Bool
  unfolding unless_linked
  restore_custom_wal_dir s =
      let pg_data_wal = Paths.join impl.pg_data_path (codes "pg_wal") in
      unless_linked (str_eq (k.readlink pg_data_wal s) impl.pg_wal_folder_to_symlink) pg_data_wal s

  unfoldable pub check_target : JobCluster → Text → Act h.State (Unit {0})
  unfolding check_backup_destination
  check_target j [] = return tt
  check_target j (c ∷ name) = do
    target_archive ← k.get_archive j.cluster.namespace (c ∷ name)
    check_backup_destination j target_archive.configuration

  wal_dir_when : Bool → Act h.State (Unit {0})
  unfolding restore_custom_wal_dir
  wal_dir_when false = return tt
  wal_dir_when true = do _ ← restore_custom_wal_dir; return tt

  -- `Restore` from its end: what follows the restore of the data, the choice of the backup, the check
  -- of the destination, and the read of the recovery archive.
  unfoldable pub finish_restore : JobCluster → Act h.State Text
  unfolding wal_dir_when
  finish_restore j = do
    wal_dir_when j.has_wal_storage
    return (get_restore_wal_config impl.log_path impl.log_file_name)

  unfoldable pub restore_loaded : JobCluster → Archive → TargetBackup × List Text → Act h.State Text
  unfolding finish_restore restore_data_dir
  restore_loaded j archive (backup, env) = do
    restore_data_dir backup env archive.configuration
    finish_restore j

  unfoldable pub load_and_restore : JobCluster → Archive → Act h.State Text
  unfolding restore_loaded load_backup_object_from_external_cluster
  load_and_restore j archive = do
    loaded ←
        load_backup_object_from_external_cluster j archive.configuration
          (new_from_cluster j.cluster).recovery_stanza
    restore_loaded j archive loaded

  unfoldable pub restore_from : JobCluster → Archive → Act h.State Text
  unfolding check_target load_and_restore
  restore_from j archive = do
    check_target j (new_from_cluster j.cluster).pgbackrest_object_name
    load_and_restore j archive

  unfoldable pub restore_for : JobCluster → Act h.State Text
  unfolding restore_from
  restore_for j = do
    archive ←
        k.get_archive j.cluster.namespace
          (new_from_cluster j.cluster).recovery_pgbackrest_object_name
    restore_from j archive

  -- `Restore`: the configuration for PostgreSQL, for the cluster that the request decodes to.
  unfoldable pub restore_job : Result JobCluster → Act h.State Text
  unfolding restore_for
  restore_job request = from_result request >>= restore_for
