-- ===== src/Restore/Job/Restored.antt =====
-- What a restore job that answers without an error has run.
use cnpg_plugin_pgbackrest.Base.{
  ◌≡◌, ◌≢◌, refl, sym, ap, ◌∙◌, subst, List, [], ◌∷◌, ◌++◌, Option, none, some, Text, codes, Result,
  ok, err, Error, zero, suc, ℕ,
}
use cnpg_plugin_pgbackrest.Go.Paths
use cnpg_plugin_pgbackrest.Host.{Host, and_then, and_then-ok, from_result}
use cnpg_plugin_pgbackrest.Api.{PgbackrestConfiguration}
use cnpg_plugin_pgbackrest.Api.Archive.{Archive}
use cnpg_plugin_pgbackrest.Catalog.{Catalog, PgbackrestBackup}
use cnpg_plugin_pgbackrest.Command.Info.{get_backup_list}
use cnpg_plugin_pgbackrest.Config.{new_from_cluster}
use cnpg_plugin_pgbackrest.Credentials.{env_set_restore_cloud_credentials}
use cnpg_plugin_pgbackrest.Restore.Line.{get_pgbackrest_restore_options_lem}
use cnpg_plugin_pgbackrest.Restore.ExitCode.{find_exit_code, unmarshal_pgbackrest_restore_exit_code}
use cnpg_plugin_pgbackrest.Restore.Run.{restore, after_run, coded, auto_conf_content}
use cnpg_plugin_pgbackrest.Restore.Job.{
  JobHost, JobCluster, JobHook, TargetBackup, target_backup, choose_backup, required_backup,
  load_backup_object_from_external_cluster, load_with, choose_from, restore_for, restore_from,
  load_and_restore, restore_loaded, finish_restore, check_target, restore_data_dir, restore_job,
}

-- An exit error has an exit code that is not zero.
abbrev pub IsHonest : Host → Type 0
IsHonest h =
    (env options : List Text) (s s' : h.State) (e : Error)
    → h.pgbackrest env options s ≡ (err e, s')
    → find_exit_code e ≢ some zero

-- The command line of a restore, but for its middle.
abbrev pub restore_line : TargetBackup → List Text → List Text
restore_line backup middle =
    (codes "--stanza"
      ∷ backup.server_name
      ∷ codes "--lock-path"
      ∷ codes "/controller/tmp/pgbackrest"
      ∷ [])
    ++ (middle ++ codes "restore" ∷ codes "--set" ∷ backup.backup_id ∷ [])

module _ (h : Host) (k : JobHost h.State) (impl : JobHook) where
  -- pgBackRest ran with the options to its end, and the file of settings was written after it.
  abbrev pub Ran : List Text → List Text → h.State → h.State → Type 0
  Ran env options s s' =
      (s1 : h.State) × (h.pgbackrest env options s ≡ (ok tt, s1))
      × (k.write_file (Paths.join impl.pg_data_path (codes "postgresql.auto.conf"))
            auto_conf_content s1
          ≡ (ok tt, s'))

  -- The backup that the recovery target of the cluster chooses in the catalog of the recovery archive
  -- was restored: the archive with the name that the cluster gives to the recovery archive was read,
  -- the credentials are its own, and the catalog is that of the recovery stanza in it.
  abbrev pub IsRestored : JobCluster → Type 0
  IsRestored j =
      (archive : Archive) × (catalog : Catalog) × (b : PgbackrestBackup) × (env middle : List Text)
      × (t t' t1 s1 s2 s3 : h.State) × (k.get_archive j.cluster.namespace
            (new_from_cluster j.cluster).recovery_pgbackrest_object_name t
          ≡ (ok archive, t'))
      × (env_set_restore_cloud_credentials k.get_secret k.mkdir_all k.write_file j.cluster.namespace
            archive.configuration impl.environ t1
          ≡ (ok env, s1))
      × (get_backup_list h impl.unmarshal env archive.configuration
            (new_from_cluster j.cluster).recovery_stanza s1
          ≡ (ok catalog, s2))
      × (choose_backup impl.target_types catalog j.bootstrap ≡ ok (some b))
      × Ran env (restore_line (target_backup (new_from_cluster j.cluster).recovery_stanza b) middle)
          s2 s3

module _ (h : Host) (honest : IsHonest h) (k : JobHost h.State) (impl : JobHook) where
  coded_fails :
      (e : Error) (code : Option ℕ) → code ≢ some zero → coded h k.write_file e code ≢ ok tt
  unfolding coded unmarshal_pgbackrest_restore_exit_code
  coded_fails e none nonzero h = cc
  coded_fails e (some zero) nonzero h = nonzero refl
  coded_fails e (some (suc n)) nonzero h = cc

  after_run-Ran :
      (c : PgbackrestConfiguration) (env options : List Text) (s s' : h.State)
      (r : Result (Unit {0}) × h.State)
      → h.pgbackrest env options s ≡ r
      → after_run h k.write_file
          (record { configuration = c; pg_data_directory = impl.pg_data_path })
          r
        ≡ (ok tt, s')
      → Ran h k impl env options s s'
  unfolding after_run
  after_run-Ran c env options s s' (ok tt, s1) ran h = (s1, ran, h)
  after_run-Ran c env options s s' (err e, s1) ran h =
      absurd (coded_fails e (find_exit_code e) (honest env options s s1 e ran) (ap (λ p. p.0) h))

  restore_data_dir-Ran :
      (backup : TargetBackup) (env : List Text) (c : PgbackrestConfiguration) (s s' : h.State)
      → restore_data_dir h k impl backup env c s ≡ (ok tt, s')
      → (middle : List Text) × Ran h k impl env (restore_line backup middle) s s'
  unfolding restore_data_dir restore
  restore_data_dir-Ran backup env c s s' done =
      let (middle, line) =
        get_pgbackrest_restore_options_lem
          (record { configuration = c; pg_data_directory = impl.pg_data_path }) backup.backup_id
          backup.server_name in
      (
        middle,
        after_run-Ran c env (restore_line backup middle) s s'
            (h.pgbackrest env (restore_line backup middle) s) refl
            (ap
                (λ r.
                  and_then (r, s)
                    (λ options t.
                      after_run h k.write_file
                        (record { configuration = c; pg_data_directory = impl.pg_data_path })
                        (h.pgbackrest env options t)))
                (sym line)
              ∙ done),
      )

  chosen_ok :
      (stanza : Text) (env env' : List Text) (r : Result (Option PgbackrestBackup))
      (backup : TargetBackup) (s s' : h.State)
      → and_then {B = TargetBackup × List Text} (from_result r s) (λ found t.
        and_then {B = TargetBackup × List Text}
          (from_result (required_backup found) t)
          (λ b t'. (ok (target_backup stanza b, env), t')))
        ≡ (ok (backup, env'), s')
      → (b : PgbackrestBackup) × (r ≡ ok (some b))
        × (backup ≡ target_backup stanza b)
        × (env' ≡ env)
        × (s ≡ s')
  unfolding required_backup
  chosen_ok stanza env env' (ok (some b)) backup s s' done = (b, refl, cc, cc, cc)
  chosen_ok stanza env env' (ok none) backup s s' done = cc
  chosen_ok stanza env env' (err e) backup s s' done = cc

  load-chosen :
      (j : JobCluster) (c : PgbackrestConfiguration) (stanza : Text) (backup : TargetBackup)
      (env : List Text) (s s' : h.State)
      → load_backup_object_from_external_cluster h k impl j c stanza s ≡ (ok (backup, env), s')
      → (catalog : Catalog) × (b : PgbackrestBackup) × (s1 : h.State)
        × (env_set_restore_cloud_credentials k.get_secret k.mkdir_all k.write_file
              j.cluster.namespace c impl.environ s
            ≡ (ok env, s1))
        × (get_backup_list h impl.unmarshal env c stanza s1 ≡ (ok catalog, s'))
        × (choose_backup impl.target_types catalog j.bootstrap ≡ ok (some b))
        × (backup ≡ target_backup stanza b)
  unfolding load_backup_object_from_external_cluster load_with choose_from
  load-chosen j c stanza backup env s s' done =
      let (env1, s1, credentials, done1) =
        and_then-ok
          (env_set_restore_cloud_credentials k.get_secret k.mkdir_all k.write_file
            j.cluster.namespace c impl.environ s)
          (load_with h k impl j c stanza) (backup, env) s' done in
      let (catalog, s2, listed, done2) =
        and_then-ok (get_backup_list h impl.unmarshal env1 c stanza s1)
          (choose_from h k impl j stanza env1) (backup, env) s' done1 in
      let (b, chosen, same, same_env, stay) =
        chosen_ok stanza env1 env (choose_backup impl.target_types catalog j.bootstrap) backup s2 s'
          done2 in
      (
        catalog,
        b,
        s1,
        credentials ∙ ap (λ v. (ok v, s1)) (sym same_env),
        ap (λ v. get_backup_list h impl.unmarshal v c stanza s1) same_env
            ∙ listed
            ∙ ap (λ t. (ok catalog, t)) stay,
        chosen,
        same,
      )

  -- A restore job that answers without an error has read the archive with the name of the recovery
  -- archive, has read the catalog there for the recovery stanza with the credentials of that archive,
  -- has chosen a backup in it by the recovery target, or the latest done one where there is none, and
  -- has run pgBackRest to its end with the command for this backup and this stanza; the settings that
  -- pgBackRest left in the data directory were overwritten after that. For a host on which an exit
  -- error has a code other than zero.
  pub restore_job_restores :
      (request : Result JobCluster) (config : Text) (s s' : h.State)
      → restore_job h k impl request s ≡ (ok config, s')
      → (j : JobCluster) × (request ≡ ok j) × IsRestored h k impl j
  unfolding restore_job
  restore_job_restores request config s s' done =
      let (j, t0, decoded, done0) =
        and_then-ok (request, s) (restore_for h k impl) config s' done in
      let cfg = new_from_cluster j.cluster in
      let (archive, t1, got, done1) =
        and_then-ok (k.get_archive j.cluster.namespace cfg.recovery_pgbackrest_object_name t0)
          (restore_from h k impl j) config s' done0 in
      let (u, t2, checked, done2) =
        and_then-ok (check_target h k impl j cfg.pgbackrest_object_name t1)
          (λ _. load_and_restore h k impl j archive) config s' done1 in
      let ((backup, env), t3, loaded, done3) =
        and_then-ok
          (load_backup_object_from_external_cluster h k impl j archive.configuration
            cfg.recovery_stanza t2)
          (restore_loaded h k impl j archive) config s' done2 in
      let (catalog, b, s1, credentials, listed, chosen, same) =
        load-chosen j archive.configuration cfg.recovery_stanza backup env t2 t3 loaded in
      let (v, t4, restored, done4) =
        and_then-ok (restore_data_dir h k impl backup env archive.configuration t3)
          (λ _. finish_restore h k impl j) config s' done3 in
      let (middle, ran) = restore_data_dir-Ran backup env archive.configuration t3 t4 restored in
      (
        j,
        ap (λ p. p.0) decoded,
        (
          archive,
          catalog,
          b,
          env,
          middle,
          t0,
          t1,
          t2,
          s1,
          t3,
          t4,
          got,
          credentials,
          listed,
          chosen,
          subst (λ x. Ran h k impl env (restore_line x middle) t3 t4) same ran,
        ),
      )
