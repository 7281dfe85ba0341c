-- ===== src/Restore.antt =====
-- The command line of a restore, from internal/pgbackrest/restorer/backup.go.
pub mod ExitCode
pub mod Job
pub mod Line
pub mod Run
use cnpg_plugin_pgbackrest.Base.{
  false, List, [], ◌∷◌, ◌++◌, Option, none, some, Text, codes, Result, ok, ◌>>=◌,
}
use cnpg_plugin_pgbackrest.Base.Int.{ℤ}
use cnpg_plugin_pgbackrest.Go.Strconv.{format_int}
use cnpg_plugin_pgbackrest.Api.{PgbackrestConfiguration, DataRestoreConfiguration}
use cnpg_plugin_pgbackrest.Api.Args.{append_additional_restore_command_args}
use cnpg_plugin_pgbackrest.Command.{
  append_cloud_provider_options_from_configuration, append_stanza_options_from_configuration,
  append_log_options_from_configuration,
}

-- The `Command` of the restorer.
pub record RestoreCommand : Type 0 where
  pub configuration : PgbackrestConfiguration
  pub pg_data_directory : Text

restore_jobs : Option ℤ → List Text → List Text
restore_jobs none options = options
restore_jobs (some n) options = options ++ codes "--process-max" ∷ format_int n ∷ []

-- `GetRestoreConfiguration`, which never fails
unfoldable pub get_restore_configuration : Option DataRestoreConfiguration → List Text → List Text
unfolding restore_jobs
get_restore_configuration none options = options
get_restore_configuration (some cfg) options =
    append_additional_restore_command_args (some cfg) (restore_jobs cfg.jobs options)

-- `GetPgbackrestRestoreOptions`
unfoldable pub get_pgbackrest_restore_options : RestoreCommand → Text → Text → Result (List Text)
get_pgbackrest_restore_options b backup_name stanza = do
  let o1 =
      get_restore_configuration b.configuration.restore
        (codes "--stanza" ∷ stanza ∷ codes "--lock-path" ∷ codes "/controller/tmp/pgbackrest" ∷ [])
  o2 ← append_cloud_provider_options_from_configuration o1 b.configuration
  o3 ← append_log_options_from_configuration o2 (some b.configuration)
  o4 ← append_stanza_options_from_configuration o3 b.configuration b.pg_data_directory false
  ok (o4 ++ codes "restore" ∷ codes "--set" ∷ backup_name ∷ [])
