-- ===== src/Backup/Service/Answered.antt =====
-- What a backup that the service reports has run.
use cnpg_plugin_pgbackrest.Base.{
  ◌≡◌, ◌⊎◌, inl, inr, refl, ap, ◌∙◌, Bool, true, false, List, [], ◌∷◌, ◌++◌, Option, none, some,
  Text, codes, Result, ok, err,
}
use cnpg_plugin_pgbackrest.Host.{Host, and_then, and_then-ok, from_result}
use cnpg_plugin_pgbackrest.Api.Archive.{Archive}
use cnpg_plugin_pgbackrest.Api.Policy.{should_create_stanza_on_backup}
use cnpg_plugin_pgbackrest.Catalog.{Catalog, PgbackrestBackup}
use cnpg_plugin_pgbackrest.Config.{Cluster, new_from_cluster}
use cnpg_plugin_pgbackrest.Credentials.{env_set_backup_cloud_credentials}
use cnpg_plugin_pgbackrest.Backup.{Command, new_backup_command, get_pgbackrest_backup_options}
use cnpg_plugin_pgbackrest.Backup.Stanza.{create_pgbackrest_stanza}
use cnpg_plugin_pgbackrest.Backup.Take.{take, take_outcome, get_executed_backup_info}
use cnpg_plugin_pgbackrest.Backup.Service.{
  BackupHost, BackupService, BackupRequest, BackupResult, backup_result, first_backup, first_of,
  create_when, report, take_and_report, named_backup, run_backup, with_credentials, backup_with,
  backup_cluster, backup,
}

module _ (h : Host) (k : BackupHost h.State) (impl : BackupService) where
  -- pgBackRest made a backup under that name to its end, and the search by this name then gave a
  -- catalog that begins with the reported backup.
  abbrev pub Reported : Command → Text → List Text → BackupResult → h.State → Type 0
  Reported b stanza env result s' =
      (name : Text) × (options : List Text) × (catalog : Catalog) × (first : PgbackrestBackup)
      × (others : List PgbackrestBackup) × (s1 s2 : h.State) × (get_pgbackrest_backup_options b name
            stanza
          ≡ ok options)
      × (h.pgbackrest (env ++ (codes "TMPDIR=" ++ impl.backup_temporary_directory) ∷ []) options s1
          ≡ (ok tt, s2))
      × (get_executed_backup_info h impl.unmarshal b name stanza env s2 ≡ (ok (some catalog), s'))
      × (catalog.backups ≡ first ∷ others)
      × (result ≡ backup_result impl.instance_name first)

  -- The stanza was created without an error, or the archive does not ask for it.
  abbrev pub HasStanza : Command → Text → List Text → h.State → h.State → Type 0
  HasStanza b stanza env t t' =
      (should_create_stanza_on_backup b.configuration ≡ false)
      ⊎ (create_pgbackrest_stanza h b stanza env t ≡ (ok tt, t'))

  -- A backup made for the cluster: in the archive with the name that the cluster gives, with the
  -- credentials of that archive.
  abbrev pub IsMade : Option (List (Text × Text)) → Cluster → BackupResult → h.State → Type 0
  IsMade config cluster result s' =
      (archive : Archive) × (env : List Text) × (t t1 t2 t3 t4 : h.State) × (k.get_archive
          cluster.namespace (new_from_cluster cluster).pgbackrest_object_name t
        ≡ (ok archive, t1))
      × (env_set_backup_cloud_credentials k.get_secret k.mkdir_all k.write_file archive.namespace
            archive.configuration impl.environ t2
          ≡ (ok env, t3))
      × HasStanza (new_backup_command archive.configuration config impl.pg_data_path)
          (new_from_cluster cluster).stanza env t3 t4
      × Reported (new_backup_command archive.configuration config impl.pg_data_path)
          (new_from_cluster cluster).stanza env result s'

  create_when-HasStanza :
      (create : Bool) (b : Command) (stanza : Text) (env : List Text) (t t' : h.State)
      → create_when h k impl create b stanza env t ≡ (ok tt, t')
      → (create ≡ false) ⊎ (create_pgbackrest_stanza h b stanza env t ≡ (ok tt, t'))
  unfolding create_when
  create_when-HasStanza false b stanza env t t' done = inl refl
  create_when-HasStanza true b stanza env t t' done = inr done

  first_of-ok :
      (backups : List PgbackrestBackup) (result : BackupResult)
      → first_of impl.instance_name backups ≡ ok result
      → (first : PgbackrestBackup) × (others : List PgbackrestBackup) × (backups ≡ first ∷ others)
        × (result ≡ backup_result impl.instance_name first)
  unfolding first_of
  first_of-ok [] result done = cc
  first_of-ok (b ∷ backups) result done = (b, backups, refl, cc)

  first_backup-ok :
      (o : Option Catalog) (result : BackupResult)
      → first_backup impl.instance_name o ≡ ok result
      → (catalog : Catalog) × (first : PgbackrestBackup) × (others : List PgbackrestBackup) × (o
          ≡ some catalog)
        × (catalog.backups ≡ first ∷ others)
        × (result ≡ backup_result impl.instance_name first)
  unfolding first_backup
  first_backup-ok none result done = cc
  first_backup-ok (some catalog) result done =
      let (first, others, listed, same) = first_of-ok catalog.backups result done in
      (catalog, first, others, refl, listed, same)

  take_outcome-ok :
      (r : Result (Unit {0}) × h.State) (s : h.State)
      → take_outcome h k.error_text r ≡ (ok tt, s)
      → r ≡ (ok tt, s)
  unfolding take_outcome
  take_outcome-ok (ok tt, t) s done = done
  take_outcome-ok (err e, t) s done = cc

  named_backup-Reported :
      (b : Command) (stanza : Text) (env : List Text) (result : BackupResult) (s s' : h.State)
      → named_backup h k impl b stanza env s ≡ (ok result, s')
      → Reported b stanza env result s'
  unfolding named_backup take_and_report take report
  named_backup-Reported b stanza env result s s' done =
      let name = codes "backup-" ++ k.compact_time s in
      let (u, s2, taken, done1) =
        and_then-ok (take h k.error_text b name stanza env impl.backup_temporary_directory s)
          (λ _. report h k impl b name stanza env) result s' done in
      let (options, s1, line, ran) =
        and_then-ok (from_result (get_pgbackrest_backup_options b name stanza) s)
          (λ options t. take_outcome h k.error_text (
            h.pgbackrest (env ++ (codes "TMPDIR=" ++ impl.backup_temporary_directory) ∷ []) options
              t))
          tt s2 taken in
      let (info, s3, found, done2) =
        and_then-ok (get_executed_backup_info h impl.unmarshal b name stanza env s2)
          (λ info. from_result (first_backup impl.instance_name info)) result s' done1 in
      let (catalog, first, others, there, listed, same) =
        first_backup-ok info result (ap (λ p. p.0) done2) in
      (
        name,
        options,
        catalog,
        first,
        others,
        s1,
        s2,
        ap (λ p. p.0) line,
        take_outcome-ok
            (h.pgbackrest (env ++ (codes "TMPDIR=" ++ impl.backup_temporary_directory) ∷ []) options
              s1)
            s2 ran,
        found ∙ ap (λ o. (ok o, s3)) there ∙ ap (λ p. (ok (some catalog), p.1)) done2,
        listed,
        same,
      )

  -- A backup that the service reports was made: the archive with the name that the cluster gives was
  -- read; the stanza was created in it without an error, with the credentials of the archive, unless
  -- the archive does not ask for that; pgBackRest ran the backup for this stanza and this archive to
  -- its end, and the search by the name of the backup then gave a catalog whose first backup is the
  -- reported one.
  pub backup-Reported :
      (request : BackupRequest) (result : BackupResult) (s s' : h.State)
      → backup h k impl request s ≡ (ok result, s')
      → (config : Option (List (Text × Text))) × (cluster : Cluster) × (request.backup_config
          ≡ ok config)
        × (request.cluster ≡ ok cluster)
        × IsMade config cluster result s'
  unfolding backup backup_cluster backup_with run_backup new_backup_command
  backup-Reported request result s s' done =
      let (config, t0, decoded, done0) =
        and_then-ok (request.backup_config, s)
          (λ config t. and_then (request.cluster, t) (backup_cluster h k impl config)) result s'
          done in
      let (cluster, t1, decoded', done1) =
        and_then-ok (request.cluster, t0) (backup_cluster h k impl config) result s' done0 in
      let (archive, t2, got, done2) =
        and_then-ok
          (k.get_archive cluster.namespace (new_from_cluster cluster).pgbackrest_object_name t1)
          (backup_with h k impl config (new_from_cluster cluster).stanza) result s' done1 in
      let b = new_backup_command archive.configuration config impl.pg_data_path in
      let stanza = (new_from_cluster cluster).stanza in
      let (u, t3, made, done3) =
        and_then-ok (h.ensure_directory impl.backup_temporary_directory t2)
          (λ _. with_credentials h k impl b stanza archive) result s' done2 in
      let (env, t4, credentials, done4) =
        and_then-ok
          (env_set_backup_cloud_credentials k.get_secret k.mkdir_all k.write_file archive.namespace
            archive.configuration impl.environ t3)
          (run_backup h k impl b stanza) result s' done3 in
      let (v, t5, created, done5) =
        and_then-ok
          (create_when h k impl (should_create_stanza_on_backup b.configuration) b stanza env t4)
          (λ _. named_backup h k impl b stanza env) result s' done4 in
      (
        config,
        cluster,
        ap (λ p. p.0) decoded,
        ap (λ p. p.0) decoded',
        (
          archive,
          env,
          t1,
          t2,
          t3,
          t4,
          t5,
          got,
          credentials,
          create_when-HasStanza (should_create_stanza_on_backup b.configuration) b stanza env t4 t5
              created,
          named_backup-Reported b stanza env result t5 s' done5,
        ),
      )
