-- ===== src/Restore/Run.antt =====
-- `Restore` of internal/pgbackrest/restorer/backup.go: the run of pgBackRest.
use cnpg_plugin_pgbackrest.Base.{
  ℕ, List, [], ◌∷◌, ◌++◌, Option, none, some, Text, codes, Result, ok, err, Error,
}
use cnpg_plugin_pgbackrest.Go.Paths
use cnpg_plugin_pgbackrest.Host.{Host, Act, ◌>>=◌, from_result}
use cnpg_plugin_pgbackrest.Restore.{RestoreCommand, get_pgbackrest_restore_options}
use cnpg_plugin_pgbackrest.Restore.ExitCode.{unmarshal_pgbackrest_restore_exit_code, find_exit_code}

pub auto_conf_content : Text
unfolding codes
auto_conf_content =
    codes "# Do not edit this file manually!"
    ++ 10 ∷ (codes "# It will be overwritten by the ALTER SYSTEM command." ++ 10 ∷ [])

-- For `os.WriteFile`.
module _ (h : Host) (write_file : Text → Text → Act h.State (Unit {0})) where
  -- An error whose exit code is zero is no error, and then nothing is written either.
  unfoldable pub coded : Error → Option ℕ → Result (Unit {0})
  unfolding unmarshal_pgbackrest_restore_exit_code
  coded e none = err e
  coded e (some n) = unmarshal_pgbackrest_restore_exit_code n

  unfoldable pub after_run :
      RestoreCommand → Result (Unit {0}) × h.State → Result (Unit {0}) × h.State
  unfolding coded find_exit_code auto_conf_content
  after_run b (err e, s) = (coded e (find_exit_code e), s)
  after_run b (ok u, s) =
      write_file (Paths.join b.pg_data_directory (codes "postgresql.auto.conf")) auto_conf_content s

  -- `Restore`
  unfoldable pub restore : RestoreCommand → Text → Text → List Text → Act h.State (Unit {0})
  unfolding after_run
  restore b backup_name stanza env = do
    options ← from_result (get_pgbackrest_restore_options b backup_name stanza)
    λ s. after_run b (h.pgbackrest env options s)
