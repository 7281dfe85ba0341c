-- ===== src/Tests.antt =====
-- The theorems at concrete inputs, and the data of these runs.
mod Clients
mod Environs
mod Jobs
mod Requests
mod Roles
mod Sidecars
mod Archives
mod Configs
mod Wals
mod Options
mod Backups
use cnpg_plugin_pgbackrest.Base.{ℕ, List, [], ◌∷◌, none, some, Text, codes}
use cnpg_plugin_pgbackrest.Base.Int.{pos}
use cnpg_plugin_pgbackrest.Api.{PgbackrestConfiguration, WalBackupConfiguration}
use cnpg_plugin_pgbackrest.Backup.{Command}
use cnpg_plugin_pgbackrest.Catalog.{
  PgbackrestBackup, PgbackrestBackupTime, PgbackrestBackupWalArchive, PgbackrestBackupLsn, Catalog,
  PgbackrestStanzaStatus,
}

abbrev pub spool_directory : Text
unfolding codes
spool_directory = codes "/spool"

abbrev pub wal_one : Text
unfolding codes
wal_one = codes "000000010000000000000001"

abbrev pub wal_two : Text
unfolding codes
wal_two = codes "000000010000000000000002"

abbrev pub destination : Text
unfolding codes
destination = codes "/pgdata/RECOVERYXLOG"

-- An additional argument that the plugin does not set itself.
abbrev pub extra_argument : Text
unfolding codes
extra_argument = codes "--process-max=2"

abbrev pub wal_configuration : WalBackupConfiguration
wal_configuration = record {
  max_parallel = pos 2;
  archive_additional_command_args = extra_argument ∷ [];
  restore_additional_command_args = extra_argument ∷ [];
}

abbrev pub configuration : PgbackrestConfiguration
configuration = record {
  repositories = [];
  wal = some wal_configuration;
  data_backup = none;
  restore = none;
  compression = [];
  stanza = [];
  log = none;
  create_stanza = [];
}

abbrev pub backup_command : Command
backup_command = record {
  configuration = configuration;
  backup_config = some [];
  pg_data_directory = codes "/pgdata";
}

abbrev pub backup : ℕ → Text → PgbackrestBackup
backup stop wal_start = record {
  annotations = (codes "cnpg-backup-name", codes "daily") ∷ [];
  time = record { start = pos 1; stop = pos stop };
  wal = record { start = wal_start; stop = wal_two };
  lsn = record { start = codes "0/1"; stop = codes "0/2" };
  id = codes "20250101-000000F";
  prior = [];
  backup_type = codes "full";
}

abbrev pub catalog : Catalog
catalog = record {
  archive = [];
  backups = backup 5 wal_one ∷ backup 9 wal_one ∷ [];
  stanza = codes "main";
  databases = [];
  encryption = codes "none";
  status = record { code = pos 0; status_message = codes "ok" };
}

-- The last backup names no WAL.
abbrev pub broken_catalog : Catalog
broken_catalog = record {
  archive = [];
  backups = backup 5 wal_one ∷ backup 0 [] ∷ [];
  stanza = codes "main";
  databases = [];
  encryption = codes "none";
  status = record { code = pos 0; status_message = codes "ok" };
}
