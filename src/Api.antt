-- ===== src/Api.antt =====
-- The configuration of the pgBackRest operations, from internal/pgbackrest/api/config.go. Pointers
-- are options, the string types with constants are texts, int32 fields are integers.
pub mod Archive
pub mod Args
pub mod Policy
use cnpg_plugin_pgbackrest.Base.{ℕ, Bool, List, Option, Text}
use cnpg_plugin_pgbackrest.Base.Int.{ℤ}

-- `machineryapi.SecretKeySelector`: a secret's name and the key inside it.
pub record SecretKeySelector : Type 0 where
  pub name : Text
  pub key : Text

pub record S3Credentials : Type 0 where
  pub key_type : Text
  pub access_key_id_reference : Option SecretKeySelector
  pub secret_access_key_reference : Option SecretKeySelector
  pub region : Text
  pub uri_style : Text

pub record PgbackrestRetention : Type 0 where
  pub archive : ℤ
  pub archive_type : Text
  pub full : ℤ
  pub full_type : Text
  pub diff : ℤ
  pub history : Option ℤ

pub record WalBackupConfiguration : Type 0 where
  pub max_parallel : ℤ
  pub archive_additional_command_args : List Text
  pub restore_additional_command_args : List Text

-- A map is an association list, in the order of one iteration over it.
pub record DataBackupConfiguration : Type 0 where
  pub jobs : Option ℤ
  pub immediate_checkpoint : Bool
  pub annotations : List (Text × Text)
  pub additional_command_args : List Text

pub record LogConfiguration : Type 0 where
  pub level_stderr : Text

pub record DataRestoreConfiguration : Type 0 where
  pub jobs : Option ℤ
  pub additional_command_args : List Text

-- The inlined `PgbackrestCredentials` is the field `aws`.
pub record PgbackrestRepository : Type 0 where
  pub aws : Option S3Credentials
  pub encryption : Text
  pub encryption_key : Option SecretKeySelector
  pub endpoint_url : Text
  pub endpoint_ca : Option SecretKeySelector
  pub disable_verify_tls : Bool
  pub destination_path : Text
  pub bucket : Text
  pub retention : Option PgbackrestRetention

pub record PgbackrestConfiguration : Type 0 where
  pub repositories : List PgbackrestRepository
  pub wal : Option WalBackupConfiguration
  pub data_backup : Option DataBackupConfiguration
  pub restore : Option DataRestoreConfiguration
  pub compression : Text
  pub stanza : Text
  pub log : Option LogConfiguration
  pub create_stanza : Text
