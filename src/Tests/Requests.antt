-- ===== src/Tests/Requests.antt =====
-- A request for a WAL that stands in the spool, on a host in memory.
use cnpg_plugin_pgbackrest.Base.{◌≡◌, refl, false, List, [], ◌∷◌, none, Text, codes, Result, ok}
use cnpg_plugin_pgbackrest.Go.Paths
use cnpg_plugin_pgbackrest.Host.Memory.{memory, erase}
use cnpg_plugin_pgbackrest.Api.Archive.{zero_archive}
use cnpg_plugin_pgbackrest.Wal.Requests.{ServiceHost, WalService, ClusterDefinition, wal_restore}
use cnpg_plugin_pgbackrest.Wal.Requests.Served.{selected_key, ServedFrom, wal_restore-ServedFrom}
use cnpg_plugin_pgbackrest.Tests.{spool_directory, wal_one, destination}
use cnpg_plugin_pgbackrest.Tests.Configs.{small_cluster}

abbrev service_host : ServiceHost (List Text)
unfolding zero_archive
service_host = record {
  get_archive = λ namespace name fs. (ok zero_archive, fs);
  get_secret = λ namespace name fs. (ok [], fs);
  mkdir_all = λ p fs. (ok tt, fs);
  write_file = λ p d fs. (ok tt, p ∷ fs);
}

abbrev wal_service : WalService
wal_service = record {
  instance_name = codes "main-1";
  spool_directory = spool_directory;
  pg_data_path = codes "/pgdata";
  environ = [];
  pg_data = codes "/pgdata";
  unmarshal = λ json. ok [];
}

abbrev definition : ClusterDefinition
definition = record {
  cluster = small_cluster;
  view = record {
    current_primary = codes "main-1";
    is_replica = false;
    promotion_token = [];
    last_promotion_token = [];
    source_connection = none;
  };
}

abbrev request : Result ClusterDefinition
request = ok definition

wal_restore-ServedFrom_example :
    (d : ClusterDefinition) × (request ≡ ok d)
    × ServedFrom memory service_host wal_service
        (selected_key d wal_service.instance_name)
        wal_one
        destination
unfolding wal_restore service_host cnpg_plugin_pgbackrest.Command.cloud_wal_restore_options
    cnpg_plugin_pgbackrest.Command.append_cloud_provider_options_from_configuration
    cnpg_plugin_pgbackrest.Command.append_stanza_options_from_configuration
    cnpg_plugin_pgbackrest.Command.append_log_options_from_configuration
    cnpg_plugin_pgbackrest.Wal.Restorer.restore_from_spool cnpg_plugin_pgbackrest.Wal.Spool.move_out
    Paths.join erase
wal_restore-ServedFrom_example =
    wal_restore-ServedFrom memory service_host wal_service request wal_one destination (0 ∷ [])
      (Paths.join spool_directory wal_one ∷ []) (destination ∷ []) refl refl
