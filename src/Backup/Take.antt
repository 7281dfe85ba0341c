-- ===== src/Backup/Take.antt =====
-- `Take` and `GetExecutedBackupInfo` of internal/pgbackrest/backup/backup.go.
use cnpg_plugin_pgbackrest.Base.{
  Bool, true, false, List, [], ◌∷◌, ◌++◌, Option, Text, codes, str_eq, Result, ok, err, Error,
  message,
}
use cnpg_plugin_pgbackrest.Host.{Host, Act, ◌>>=◌, from_result}
use cnpg_plugin_pgbackrest.Catalog.{Catalog}
use cnpg_plugin_pgbackrest.Command.Info.{get_backup_by_annotated_name}
use cnpg_plugin_pgbackrest.Backup.{Command, get_pgbackrest_backup_options}

pub invalid_arguments : Error
unfolding codes
invalid_arguments = message (
    codes "invalid arguments for pgbackrest backup. "
    ++ codes "Ensure that the additionalCommandArgs field is correctly populated")

-- The error of a run, by the text of the error.
described : Bool → Error → Error
unfolding invalid_arguments
described true e = invalid_arguments
described false e = e

-- For `Error()` of the errors of a run.
module _ (h : Host) (error_text : Error → Text) where
  unfoldable pub take_outcome : Result (Unit {0}) × h.State → Result (Unit {0}) × h.State
  unfolding described codes str_eq
  take_outcome (ok u, s) = (ok u, s)
  take_outcome (err e, s) = (err (described (str_eq (error_text e) (codes "3")) e), s)

  -- `Take`
  unfoldable pub take : Command → Text → Text → List Text → Text → Act h.State (Unit {0})
  unfolding take_outcome
  take b backup_name stanza env backup_temporary_directory = do
    options ← from_result (get_pgbackrest_backup_options b backup_name stanza)
    λ s.
        take_outcome
          (h.pgbackrest (env ++ (codes "TMPDIR=" ++ backup_temporary_directory) ∷ []) options s)

-- `GetExecutedBackupInfo`
unfoldable pub get_executed_backup_info :
    (h : Host)
    → (Text → Result (List Catalog))
    → Command
    → Text
    → Text
    → List Text
    → Act h.State (Option Catalog)
unfolding get_backup_by_annotated_name
get_executed_backup_info h unmarshal b backup_name stanza env =
    get_backup_by_annotated_name h unmarshal env b.configuration stanza backup_name
