-- ===== src/Api/Args.antt =====
-- `appendAdditionalCommandArgs` and the four methods that call it, from
-- internal/pgbackrest/api/config.go: the user's arguments behind those that the plugin sets.
pub mod Laws
pub mod Again
use cnpg_plugin_pgbackrest.Base.{
  Bool, true, false, not, ◌&&◌, ◌||◌, List, [], ◌∷◌, ◌++◌, Option, none, some, Text, str_eq,
  contains, is_nil, if◌then◌else◌,
}
use cnpg_plugin_pgbackrest.Go.Strings.{before_eq}
use cnpg_plugin_pgbackrest.Api.{
  WalBackupConfiguration, DataBackupConfiguration, DataRestoreConfiguration,
}

-- `optionKeys[key]`: the keys of the options, but for the empty one.
unfoldable pub option_keys : List Text → Text → Bool
unfolding before_eq str_eq
option_keys [] key = false
option_keys (option ∷ options) key =
    not (is_nil (before_eq option)) && str_eq (before_eq option) key || option_keys options key

-- The test that skips an argument. The keys are those of the options before the loop.
unfoldable pub skips : List Text → List Text → Text → Bool
unfolding option_keys before_eq contains
skips initial options arg =
    is_nil (before_eq arg)
    || (contains options (before_eq arg) || option_keys initial (before_eq arg))

-- The second loop.
unfoldable pub append_args_loop : List Text → List Text → List Text → List Text
unfolding skips
append_args_loop initial [] options = options
append_args_loop initial (arg ∷ args) options =
    append_args_loop initial args
      (if skips initial options arg then options else options ++ arg ∷ [])

unfoldable pub append_additional_command_args : List Text → List Text → List Text
unfolding append_args_loop
append_additional_command_args args options = append_args_loop options args options

-- `AppendAdditionalRestoreCommandArgs`
unfoldable pub append_additional_restore_command_args :
    Option DataRestoreConfiguration → List Text → List Text
unfolding append_additional_command_args
append_additional_restore_command_args none options = options
append_additional_restore_command_args (some cfg) options =
    if is_nil cfg.additional_command_args
    then options
    else append_additional_command_args cfg.additional_command_args options

-- `AppendAdditionalArchiveGetCommandArgs`
unfoldable pub append_additional_archive_get_command_args :
    Option WalBackupConfiguration → List Text → List Text
unfolding append_additional_command_args
append_additional_archive_get_command_args none options = options
append_additional_archive_get_command_args (some cfg) options =
    if is_nil cfg.restore_additional_command_args
    then options
    else append_additional_command_args cfg.restore_additional_command_args options

-- `AppendAdditionalBackupCommandArgs`
unfoldable pub append_additional_backup_command_args :
    Option DataBackupConfiguration → List Text → List Text
unfolding append_additional_command_args
append_additional_backup_command_args none options = options
append_additional_backup_command_args (some cfg) options =
    if is_nil cfg.additional_command_args
    then options
    else append_additional_command_args cfg.additional_command_args options

-- `AppendAdditionalArchivePushCommandArgs`
unfoldable pub append_additional_archive_push_command_args :
    Option WalBackupConfiguration → List Text → List Text
unfolding append_additional_command_args
append_additional_archive_push_command_args none options = options
append_additional_archive_push_command_args (some cfg) options =
    if is_nil cfg.archive_additional_command_args
    then options
    else append_additional_command_args cfg.archive_additional_command_args options
