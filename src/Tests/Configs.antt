-- ===== src/Tests/Configs.antt =====
-- The configuration of a small cluster whose plugin is switched off.
use cnpg_plugin_pgbackrest.Base.{
  Distinct, ◌≡◌, refl, false, not, ◌&&◌, ◌||◌, [], ◌∷◌, none, some, codes, str_eq, contains, is_nil,
}
use cnpg_plugin_pgbackrest.Config.{
  PluginEntry, Cluster, plugin_name, object_name, new_from_cluster, get_referred_archive_objects,
  PluginConfiguration,
}
use cnpg_plugin_pgbackrest.Config.Disabled.{disabled_plugin_names_archive}
use cnpg_plugin_pgbackrest.Config.Referred.{get_referred_archive_objects_lem}

abbrev disabled_plugin : PluginEntry
disabled_plugin = record {
  name = plugin_name;
  is_enabled = false;
  parameters = some ((codes "pgbackrestObjectName", codes "archive") ∷ []);
}

abbrev pub small_cluster : Cluster
small_cluster = record {
  name = codes "main";
  namespace = codes "default";
  image_pull_policy = codes "Always";
  plugins = disabled_plugin ∷ [];
  recovery_source = none;
  replica_source = none;
  external_cluster = λ source. none;
}

disabled_plugin_names_archive_example :
    ((new_from_cluster small_cluster).pgbackrest_object_name
      ≡ object_name disabled_plugin.parameters)
    × ((new_from_cluster small_cluster).stanza ≡ small_cluster.name)
disabled_plugin_names_archive_example =
    disabled_plugin_names_archive small_cluster disabled_plugin refl refl refl

abbrev pub referring : PluginConfiguration
referring = record {
  cluster = small_cluster;
  pgbackrest_object_name = codes "archive";
  stanza = codes "main";
  recovery_pgbackrest_object_name = codes "archive";
  recovery_stanza = codes "old";
  replica_source_pgbackrest_object_name = [];
  replica_source_stanza = [];
}

get_referred_archive_objects_example :
    Distinct (get_referred_archive_objects referring)
    × (contains (get_referred_archive_objects referring) (codes "archive") ≡ (
        (not (is_nil referring.pgbackrest_object_name)
          && str_eq referring.pgbackrest_object_name (codes "archive"))
        || (not (is_nil referring.recovery_pgbackrest_object_name)
            && str_eq referring.recovery_pgbackrest_object_name (codes "archive"))
        || (not (is_nil referring.replica_source_pgbackrest_object_name)
            && str_eq referring.replica_source_pgbackrest_object_name (codes "archive"))))
get_referred_archive_objects_example = get_referred_archive_objects_lem referring (codes "archive")
