-- ===== src/Restore/Job/Destination.antt =====
-- The check of the destination of a cluster that is restored.
use cnpg_plugin_pgbackrest.Base.{
  ◌≡◌, refl, ap, Bool, true, false, List, ◌∷◌, Text, ok, is_stanza_missing,
}
use cnpg_plugin_pgbackrest.Host.{Host}
use cnpg_plugin_pgbackrest.Api.{PgbackrestConfiguration}
use cnpg_plugin_pgbackrest.Catalog.{Catalog, is_stanza_missing_status}
use cnpg_plugin_pgbackrest.Config.{stanza_of}
use cnpg_plugin_pgbackrest.Command.Info.{get_backup_list}
use cnpg_plugin_pgbackrest.Credentials.{env_set_restore_cloud_credentials}
use cnpg_plugin_pgbackrest.Wal.Archiving.{check_wal_archive_destination, missing_or_ok}
use cnpg_plugin_pgbackrest.Restore.Job.{
  JobHost, JobCluster, JobHook, check_backup_destination, check_with, check_when,
  stanza_missing_is_empty,
}

module _ (h : Host) (k : JobHost h.State) (impl : JobHook) where
  missing_accepted :
      (b : Bool) (env : List Text) (c : PgbackrestConfiguration) (stanza : Text) (s : h.State)
      → stanza_missing_is_empty (
          missing_or_ok h impl.unmarshal impl.spool_directory env impl.pg_data_path impl.pg_data c
            stanza b s)
        ≡ (ok tt, s)
  unfolding missing_or_ok stanza_missing_is_empty is_stanza_missing
  missing_accepted true env c stanza s = refl
  missing_accepted false env c stanza s = refl

  check_when_listed :
      (check : Bool) (env : List Text) (c : PgbackrestConfiguration) (stanza : Text)
      (catalog : Catalog) (s s' : h.State)
      → get_backup_list h impl.unmarshal env c stanza s ≡ (ok catalog, s')
      → (check_when h k impl check env c stanza s).0 ≡ ok tt
  unfolding check_when check_wal_archive_destination
  check_when_listed false env c stanza catalog s s' listed = refl
  check_when_listed true env c stanza catalog s s' listed =
      rw listed
        (ap (λ p. p.0) (missing_accepted (is_stanza_missing_status catalog) env c stanza s'))

  -- Where the credentials can be read and give an environment with a variable, the spool directory
  -- can be made, and the catalog can be read, the check accepts the destination, whatever the catalog
  -- says: also one whose stanza is there and holds backups and WALs, and with the check for an empty
  -- archive switched on.
  pub check_backup_destination_accepts :
      (j : JobCluster) (c : PgbackrestConfiguration) (variable : Text) (env : List Text)
      (catalog : Catalog) (s s1 s2 s3 : h.State)
      → env_set_restore_cloud_credentials k.get_secret k.mkdir_all k.write_file j.cluster.namespace
          c impl.environ s
        ≡ (ok (variable ∷ env), s1)
      → h.ensure_directory impl.spool_directory s1 ≡ (ok tt, s2)
      → get_backup_list h impl.unmarshal
          (variable ∷ env)
          c
          (stanza_of j.cluster.plugins j.cluster.name)
          s2
        ≡ (ok catalog, s3)
      → (check_backup_destination h k impl j c s).0 ≡ ok tt
  unfolding check_backup_destination check_with
  check_backup_destination_accepts j c variable env catalog s s1 s2 s3 credentials spool listed =
      rw (credentials, spool)
        (check_when_listed j.empty_wal_archive_check (variable ∷ env) c
          (stanza_of j.cluster.plugins j.cluster.name) catalog s2 s3 listed)
