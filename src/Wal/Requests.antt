-- ===== src/Wal/Requests.antt =====
-- The requests of the WAL service of internal/cnpgi/common/wal.go, from the cluster definition on.
pub mod Served
use cnpg_plugin_pgbackrest.Base.{
  ℕ, Bool, true, false, List, [], ◌∷◌, Option, none, some, Text, codes, Result, ok, err, Error,
  message, missing_permissions, panic, is_forbidden, if◌then◌else◌,
}
use cnpg_plugin_pgbackrest.Host.{
  Host, Act, ◌>>=◌, ◌>>◌, return, fail, and_then, from_result, wrap_error,
}
use cnpg_plugin_pgbackrest.Api.Archive.{Archive}
use cnpg_plugin_pgbackrest.Config.{
  Cluster, PluginConfiguration, ObjectKey, new_from_cluster, get_archive_object_key,
  get_recovery_archive_object_key, get_replica_source_archive_object_key,
}
use cnpg_plugin_pgbackrest.Credentials.{
  SecretData, env_set_backup_cloud_credentials, env_set_restore_cloud_credentials,
}
use cnpg_plugin_pgbackrest.Catalog.{Catalog, PgbackrestWalArchive}
use cnpg_plugin_pgbackrest.Command.Info.{get_backup_list}
use cnpg_plugin_pgbackrest.Wal.Archiving.{archive_wal}
use cnpg_plugin_pgbackrest.Wal.Service.{
  ClusterView, Source, cluster_archive, recovery_archive, replica_source_archive, source_of,
  restore_from_pgbackrest_archive,
}

-- The calls of the service beyond those of the host.
pub record ServiceHost (S : Type 0) : Type 0 where
  pub get_archive : Text → Text → Act S Archive
  pub get_secret : Text → Text → Act S SecretData
  pub mkdir_all : Text → Act S (Unit {0})
  pub write_file : Text → Text → Act S (Unit {0})

-- `WALServiceImplementation`, with the sanitized environment of the process, the value of PGDATA and
-- the decoder of the catalogs.
pub record WalService : Type 0 where
  pub instance_name : Text
  pub spool_directory : Text
  pub pg_data_path : Text
  pub environ : List Text
  pub pg_data : Text
  pub unmarshal : Text → Result (List Catalog)

-- The cluster of a request, as the two parts of the model read it.
pub record ClusterDefinition : Type 0 where
  pub cluster : Cluster
  pub view : ClusterView

-- The stanza and the name of the archive for a source.
unfoldable pub source_key : PluginConfiguration → Source → Text × ObjectKey
unfolding get_archive_object_key get_recovery_archive_object_key
    get_replica_source_archive_object_key
source_key c cluster_archive = (c.stanza, get_archive_object_key c)
source_key c recovery_archive = (c.recovery_stanza, get_recovery_archive_object_key c)
source_key c replica_source_archive =
    (c.replica_source_stanza, get_replica_source_archive_object_key c)

-- The status for credentials that the API server refuses.
unfoldable pub permission_error : Error → Error
permission_error e = if is_forbidden e then missing_permissions else e

refused : {S : Type 0} → Result (List Text) × S → Result (List Text) × S
unfolding permission_error
refused (ok env, s) = (ok env, s)
refused (err e, s) = (err (permission_error e), s)

first_and_last : List PgbackrestWalArchive → Result (Text × Text)
unfolding codes
first_and_last [] = err (message (codes "no WAL files found in the archive"))
first_and_last (a ∷ archives) = ok (a.min, a.max)

module _ (h : Host) (k : ServiceHost h.State) (w : WalService) where
  backup_env : Archive → Act h.State (List Text)
  unfolding refused env_set_backup_cloud_credentials
  backup_env archive s = refused (
      env_set_backup_cloud_credentials k.get_secret k.mkdir_all k.write_file archive.namespace
        archive.configuration w.environ s)

  -- `Client.Get` of an archive
  unfoldable pub get_keyed : ObjectKey → Act h.State Archive
  get_keyed key = k.get_archive key.namespace key.name

  own_archive : Cluster → Act h.State Archive
  unfolding new_from_cluster get_archive_object_key get_keyed
  own_archive cluster = get_keyed (get_archive_object_key (new_from_cluster cluster))

  -- `Archive`, for an order in which the goroutines run.
  unfoldable pub wal_archive : Result Cluster → Text → List ℕ → Act h.State (Unit {0})
  unfolding backup_env own_archive archive_wal
  wal_archive request requested schedule = do
    cluster ← from_result request
    archive ← own_archive cluster
    env ← backup_env archive
    archive_wal h w.unmarshal w.spool_directory env w.pg_data_path w.pg_data archive.configuration
        (new_from_cluster cluster).stanza requested schedule

  -- `restoreFromPgbackrestArchive`, with the credentials.
  unfoldable pub restore_with :
      ClusterView → Archive → Text → Text → Text → Bool → List ℕ → Act h.State (Unit {0})
  unfolding env_set_restore_cloud_credentials restore_from_pgbackrest_archive
  restore_with view archive stanza requested destination controlled schedule = do
    env ← wrap_error (codes "while getting recover credentials") (
        env_set_restore_cloud_credentials k.get_secret k.mkdir_all k.write_file archive.namespace
          archive.configuration w.environ)
    restore_from_pgbackrest_archive h w.spool_directory env (some view) w.instance_name
        archive.configuration stanza w.pg_data_path requested destination controlled schedule

  -- The archive of a source, and the restore from it.
  unfoldable pub restore_source :
      ClusterDefinition → Text → Text → List ℕ → Source × Bool → Act h.State (Unit {0})
  unfolding source_key restore_with get_keyed
  restore_source d requested destination schedule (source, controlled) = do
    archive ← get_keyed (source_key (new_from_cluster d.cluster) source).1
    restore_with d.view archive (source_key (new_from_cluster d.cluster) source).0 requested
        destination controlled schedule

  unfoldable pub restore_defined : Text → Text → List ℕ → ClusterDefinition → Act h.State (Unit {0})
  unfolding source_of restore_source
  restore_defined requested destination schedule d =
      restore_source d requested destination schedule (source_of d.view w.instance_name)

  -- `Restore`
  unfoldable pub wal_restore :
      Result ClusterDefinition → Text → Text → List ℕ → Act h.State (Unit {0})
  unfolding restore_defined
  wal_restore request requested destination schedule =
      from_result request >>= restore_defined requested destination schedule

  -- `Status`: the first and the last WAL.
  unfoldable pub wal_status : Result Cluster → Act h.State (Text × Text)
  unfolding backup_env own_archive get_backup_list first_and_last
  wal_status request = do
    cluster ← from_result request
    archive ← own_archive cluster
    env ← backup_env archive
    backup_catalog ←
        get_backup_list h w.unmarshal env archive.configuration (new_from_cluster cluster).stanza
    from_result (first_and_last backup_catalog.archive)

-- `SetFirstRequired`, which stops the program.
unfoldable pub set_first_required : {S : Type 0} → Act S (Unit {0})
set_first_required = fail panic
