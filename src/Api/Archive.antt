-- ===== src/Api/Archive.antt =====
-- The Archive object, from api/v1/archive_types.go. What the code only copies, the source of a
-- variable, resources and a security context, stands as a text.
use cnpg_plugin_pgbackrest.Base.{List, [], Option, none, Text}
use cnpg_plugin_pgbackrest.Api.{PgbackrestConfiguration}

-- `corev1.EnvVar`
pub record EnvVar : Type 0 where
  pub name : Text
  pub value : Text
  pub value_from : Option Text

pub record InstanceSidecarConfiguration : Type 0 where
  pub env : List EnvVar
  pub resources : Text
  pub security_context : Option Text

-- `ArchiveSpec` and the fields of the metadata that the code reads.
pub record Archive : Type 0 where
  pub name : Text
  pub namespace : Text
  pub configuration : PgbackrestConfiguration
  pub instance_sidecar_configuration : InstanceSidecarConfiguration

-- The zero value.
unfoldable pub zero_archive : Archive
zero_archive = record {
  name = [];
  namespace = [];
  configuration = record {
    repositories = [];
    wal = none;
    data_backup = none;
    restore = none;
    compression = [];
    stanza = [];
    log = none;
    create_stanza = [];
  };
  instance_sidecar_configuration = record { env = []; resources = []; security_context = none };
}
