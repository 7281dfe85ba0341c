-- ===== src/Tests/Options.antt =====
-- The arguments of the commands at a small configuration.
use mathlib.Core.List.{Sublistᴰ}
use cnpg_plugin_pgbackrest.Base.{
  ◌≡◌, refl, true, false, not, ◌&&◌, ◌↔◌, ◌⊎◌, List, [], ◌∷◌, ◌++◌, Text, codes, ok, contains, All,
  none, some,
}
use cnpg_plugin_pgbackrest.Go.Strings.{before_eq}
use cnpg_plugin_pgbackrest.Api.{PgbackrestConfiguration}
use cnpg_plugin_pgbackrest.Api.Policy.{
  should_create_stanza_on_archive, should_create_stanza_on_backup, on_first_archive, disabled,
  should_create_stanza_iff,
}
use cnpg_plugin_pgbackrest.Api.Args.{append_additional_command_args, option_keys}
use cnpg_plugin_pgbackrest.Api.Args.Again.{IsSettled}
use cnpg_plugin_pgbackrest.Api.Args.Laws.{
  IsFresh, append_additional_command_args_lem, repeated_argument_lost,
}
use cnpg_plugin_pgbackrest.Command.ArchiveGet.{archive_get_args, cloud_wal_restore_options_lem}
use cnpg_plugin_pgbackrest.Command.{cloud_wal_restore_options}
use cnpg_plugin_pgbackrest.Command.Appends.{console_flag}
use cnpg_plugin_pgbackrest.Archiver.{pgbackrest_wal_archive_options}
use cnpg_plugin_pgbackrest.Archiver.Push.{archive_push_sets_twice}
use cnpg_plugin_pgbackrest.Backup.{annotations_of, get_pgbackrest_backup_options}
use cnpg_plugin_pgbackrest.Backup.Laws.{
  has_reserved, DescribesCommandLine, get_pgbackrest_backup_options_lem,
}
use cnpg_plugin_pgbackrest.Restore.{RestoreCommand, get_pgbackrest_restore_options}
use cnpg_plugin_pgbackrest.Restore.Line.{get_pgbackrest_restore_options_lem}
use cnpg_plugin_pgbackrest.Tests.{extra_argument, wal_configuration, configuration, backup_command}

should_create_stanza_iff_example :
    ((should_create_stanza_on_archive configuration ≡ true)
      ↔ ((configuration.create_stanza ≡ []) ⊎ (configuration.create_stanza ≡ on_first_archive)))
    × ((should_create_stanza_on_backup configuration ≡ false)
        ↔ (configuration.create_stanza ≡ disabled))
    × ((should_create_stanza_on_archive configuration
          && not (should_create_stanza_on_backup configuration))
        ≡ false)
should_create_stanza_iff_example = should_create_stanza_iff configuration

abbrev console_options : List Text
console_options = console_flag ∷ codes "off" ∷ []

append_additional_command_args_example :
    (extra : List Text) × (append_additional_command_args
        (extra_argument ∷ console_flag ∷ [])
        console_options
      ≡ console_options ++ extra)
    × Sublistᴰ extra (extra_argument ∷ console_flag ∷ [])
    × All (IsFresh console_options) extra
append_additional_command_args_example =
    append_additional_command_args_lem (extra_argument ∷ console_flag ∷ []) console_options

-- `--a 1 --b 1` loses its second `1`.
repeated_argument_lost_example :
    append_additional_command_args
      (codes "--a" ∷ ((codes "1" ∷ codes "--b" ∷ []) ++ codes "1" ∷ []))
      []
    ≡ append_additional_command_args (codes "--a" ∷ (codes "1" ∷ codes "--b" ∷ [])) []
unfolding codes before_eq
repeated_argument_lost_example =
    repeated_argument_lost [] (codes "--a" ∷ []) (codes "--b" ∷ []) (codes "1") refl

cloud_wal_restore_options_example :
    (fixed : List Text) × (extra : List Text) × (cloud_wal_restore_options
        (record configuration { wal = none })
        (codes "main")
        (codes "/pgdata")
      ≡ ok fixed)
    × (cloud_wal_restore_options configuration (codes "main") (codes "/pgdata")
        ≡ ok (fixed ++ extra))
    × (contains fixed console_flag ≡ true)
    × (contains fixed (codes "--stanza") ≡ true)
    × Sublistᴰ extra (archive_get_args configuration.wal)
    × All (IsFresh fixed) extra
    × All (IsSettled (fixed ++ extra)) (archive_get_args configuration.wal)
cloud_wal_restore_options_example =
    cloud_wal_restore_options_lem configuration (codes "main") (codes "/pgdata")

-- With compression, and the console's log level among the arguments for `archive-push`.
abbrev verbose : PgbackrestConfiguration
unfolding codes
verbose = record configuration {
  compression = codes "lz4";
  wal = some (record wal_configuration {
    archive_additional_command_args = extra_argument ∷ codes "--log-level-console=info" ∷ [];
  });
}

archive_push_sets_twice_example :
    (front : List Text) × (rest : List Text) × (pgbackrest_wal_archive_options verbose
        (codes "main")
      ≡ ok (front ++ rest))
    × (option_keys front console_flag ≡ true)
    × (contains rest console_flag ≡ true)
unfolding codes before_eq option_keys
archive_push_sets_twice_example = archive_push_sets_twice verbose (codes "main") refl

get_pgbackrest_backup_options_example :
    DescribesCommandLine
      (codes "daily")
      (has_reserved (annotations_of backup_command.configuration.data_backup))
      backup_command.backup_config
      (get_pgbackrest_backup_options backup_command (codes "daily") (codes "main"))
get_pgbackrest_backup_options_example =
    get_pgbackrest_backup_options_lem backup_command (codes "daily") (codes "main")

abbrev restore_command : RestoreCommand
restore_command = record { configuration = configuration; pg_data_directory = codes "/pgdata" }

get_pgbackrest_restore_options_example :
    (middle : List Text) × (get_pgbackrest_restore_options restore_command
        (codes "20250101-000000F")
        (codes "main")
      ≡ ok (
          (codes "--stanza"
            ∷ codes "main"
            ∷ codes "--lock-path"
            ∷ codes "/controller/tmp/pgbackrest"
            ∷ [])
          ++ (middle ++ codes "restore" ∷ codes "--set" ∷ codes "20250101-000000F" ∷ [])))
get_pgbackrest_restore_options_example =
    get_pgbackrest_restore_options_lem restore_command (codes "20250101-000000F") (codes "main")
