-- ===== src/Backup.antt =====
-- internal/pgbackrest/backup/backup.go: the command lines of `pgbackrest backup` and `stanza-create`.
pub mod Service
pub mod Stanza
pub mod Take
pub mod Laws
use cnpg_plugin_pgbackrest.Base.{
  ℕ, Bool, true, false, not, List, [], ◌∷◌, ◌++◌, Option, none, some, Text, codes, str_eq, is_nil,
  if◌then◌else◌, Result, ok, err, ◌>>=◌, Error, message, panic,
}
use cnpg_plugin_pgbackrest.Base.Int.{ℤ}
use cnpg_plugin_pgbackrest.Go.Strconv.{format_int}
use cnpg_plugin_pgbackrest.Api.{PgbackrestConfiguration, DataBackupConfiguration}
use cnpg_plugin_pgbackrest.Api.Args.{append_additional_backup_command_args}
use cnpg_plugin_pgbackrest.Command.{
  append_if, append_cloud_provider_options_from_configuration,
  append_retention_options_from_configuration, append_stanza_options_from_configuration,
  append_log_options_from_configuration,
}

-- `Command`. The plugin configuration of the backup is a pointer; its parameters are a map, given by
-- the pairs in the order of one iteration.
pub record Command : Type 0 where
  pub configuration : PgbackrestConfiguration
  pub backup_config : Option (List (Text × Text))
  pub pg_data_directory : Text

-- `NewBackupCommand`
unfoldable pub new_backup_command :
    PgbackrestConfiguration → Option (List (Text × Text)) → Text → Command
new_backup_command c backup_config pg_data_directory = record {
  configuration = c;
  backup_config = backup_config;
  pg_data_directory = pg_data_directory;
}

-- `BackupNameAnnotation`
abbrev pub backup_name_annotation : Text
unfolding codes
backup_name_annotation = codes "cnpg-backup-name"

jobs_options : Option ℤ → List Text → List Text
jobs_options none options = options
jobs_options (some n) options = options ++ codes "--process-max" ∷ format_int n ∷ []

-- `GetDataConfiguration`
unfoldable pub get_data_configuration :
    Text → Option DataBackupConfiguration → List Text → Result (List Text)
unfolding jobs_options
get_data_configuration compression none options = ok options
get_data_configuration compression (some cfg) options =
    let o1 =
      append_if (not (is_nil compression)) (codes "--compress-type" ∷ compression ∷ []) options in
    let o2 = append_if cfg.immediate_checkpoint (codes "--start-fast" ∷ []) o1 in
    ok (append_additional_backup_command_args (some cfg) (jobs_options cfg.jobs o2))

pub reserved_annotation : Error
unfolding codes
reserved_annotation = message (codes "annotation 'cnpg-backup-name' is reserved for backup name")

-- The loop over the annotations. It runs over a map; this is one of its orders.
unfoldable pub append_annotations : List (Text × Text) → List Text → Result (List Text)
unfolding reserved_annotation
append_annotations [] options = ok options
append_annotations ((k, v) ∷ rest) options =
    let more = append_annotations rest (options ++ codes "--annotation" ∷ (k ++ b'=' ∷ v) ∷ []) in
    if str_eq k backup_name_annotation then err reserved_annotation else more

unfoldable pub annotations_of : Option DataBackupConfiguration → List (Text × Text)
annotations_of none = []
annotations_of (some cfg) = cfg.annotations

-- The loop over the plugin's parameters.
unfoldable pub append_parameters : List (Text × Text) → List Text → List Text
append_parameters [] options = options
append_parameters ((k, v) ∷ rest) options =
    append_parameters rest (options ++ (codes "--" ++ (k ++ b'=' ∷ v)) ∷ [])

-- A nil plugin configuration is dereferenced.
unfoldable pub parameters_of : Option (List (Text × Text)) → Result (List (Text × Text))
parameters_of none = err panic
parameters_of (some parameters) = ok parameters

-- `GetPgbackrestBackupOptions`
unfoldable pub get_pgbackrest_backup_options : Command → Text → Text → Result (List Text)
get_pgbackrest_backup_options b backup_name stanza = do
  let options =
      codes "backup" ∷ codes "--annotation" ∷ (backup_name_annotation ++ b'=' ∷ backup_name) ∷ []
  o1 ← get_data_configuration b.configuration.compression b.configuration.data_backup options
  o2 ← append_annotations (annotations_of b.configuration.data_backup) o1
  o3 ← append_cloud_provider_options_from_configuration o2 b.configuration
  o4 ← append_retention_options_from_configuration o3 b.configuration
  o5 ← append_stanza_options_from_configuration o4 b.configuration b.pg_data_directory true
  o6 ← append_log_options_from_configuration o5 (some b.configuration)
  parameters ← parameters_of b.backup_config
  ok (
      append_parameters parameters o6
      ++ codes "--stanza"
        ∷ stanza
        ∷ codes "--lock-path"
        ∷ codes "/controller/tmp/pgbackrest"
        ∷ codes "--no-archive-check"
        ∷ [])

-- `getStanzaCreateOptions`
unfoldable pub get_stanza_create_options : Command → Text → Result (List Text)
get_stanza_create_options b stanza = do
  o1 ← append_cloud_provider_options_from_configuration (codes "stanza-create" ∷ []) b.configuration
  o2 ← append_stanza_options_from_configuration o1 b.configuration b.pg_data_directory true
  o3 ← append_log_options_from_configuration o2 (some b.configuration)
  ok (
      o3
      ++ codes "--stanza" ∷ stanza ∷ codes "--lock-path" ∷ codes "/controller/tmp/pgbackrest" ∷ [])
