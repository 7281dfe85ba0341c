-- ===== src/Config.antt =====
-- internal/cnpgi/operator/config/config.go: what the plugin reads from a cluster.
pub mod Disabled
pub mod Referred
use cnpg_plugin_pgbackrest.Base.{
  Bool, true, false, not, ◌&&◌, List, [], ◌∷◌, ◌++◌, Option, none, some, Text, codes, str_eq,
  contains, is_nil, if◌then◌else◌, Result, ok, err, message,
}

-- A plugin of a cluster: `IsEnabled()`, and its parameters, which may be nil.
pub record PluginEntry : Type 0 where
  pub name : Text
  pub is_enabled : Bool
  pub parameters : Option (List (Text × Text))

-- What the plugin reads of a cluster: `Spec.ImagePullPolicy`, the sources of `Spec.Bootstrap.Recovery` and of
-- `Spec.ReplicaCluster`, where these are there, and for a source that `ExternalCluster` finds its
-- plugin configuration.
pub record Cluster : Type 0 where
  pub name : Text
  pub namespace : Text
  pub image_pull_policy : Text
  pub plugins : List PluginEntry
  pub recovery_source : Option Text
  pub replica_source : Option Text
  pub external_cluster : Text → Option (Option PluginEntry)

pub record PluginConfiguration : Type 0 where
  pub cluster : Cluster
  pub pgbackrest_object_name : Text
  pub stanza : Text
  pub recovery_pgbackrest_object_name : Text
  pub recovery_stanza : Text
  pub replica_source_pgbackrest_object_name : Text
  pub replica_source_stanza : Text

abbrev pub plugin_name : Text
plugin_name = codes "pgbackrest.cnpg.opera.com"

-- A read of a map, with the flag that tells a missing key.
unfoldable pub lookup : Text → List (Text × Text) → Option Text
lookup key [] = none
lookup key ((k, v) ∷ m) = let rest = lookup key m in if str_eq k key then some v else rest

text_or : Text → Option Text → Text
text_or d none = d
text_or d (some v) = v

lookup_in : Text → Option (List (Text × Text)) → Option Text
unfolding lookup
lookup_in key none = none
lookup_in key (some m) = lookup key m

-- `NewPlugin`: the parameters of the last plugin of that name.
unfoldable pub plugin_parameters :
    List PluginEntry → Option (List (Text × Text)) → Option (List (Text × Text))
plugin_parameters [] found = found
plugin_parameters (p ∷ plugins) found =
    plugin_parameters plugins (if str_eq p.name plugin_name then p.parameters else found)

-- The loop for the stanza, over the enabled plugins.
unfoldable pub stanza_of : List PluginEntry → Text → Text
unfolding text_or lookup_in
stanza_of [] stanza = stanza
stanza_of (p ∷ plugins) stanza = stanza_of plugins (
    if p.is_enabled && str_eq p.name plugin_name
    then text_or stanza (lookup_in (codes "stanza") p.parameters)
    else stanza)

flatten : {A : Type 0} → Option (Option A) → Option A
flatten none = none
flatten (some o) = o

-- `getRecoverySourcePlugin` and `getReplicaSourcePlugin`
source_plugin : Cluster → Option Text → Option PluginEntry
unfolding flatten
source_plugin cluster none = none
source_plugin cluster (some source) =
    if is_nil source then none else flatten (cluster.external_cluster source)

-- `getRecoveryParameters` and `getReplicaSourceParameters`
source_parameters : Option PluginEntry → Option (List (Text × Text))
source_parameters none = none
source_parameters (some p) = if str_eq p.name plugin_name then p.parameters else none

unfoldable pub object_name : Option (List (Text × Text)) → Text
unfolding text_or lookup_in
object_name parameters = text_or [] (lookup_in (codes "pgbackrestObjectName") parameters)

source_stanza : Text → Option (List (Text × Text)) → Text
unfolding text_or lookup
source_stanza cluster_name none = []
source_stanza cluster_name (some m) =
    let stanza = text_or [] (lookup (codes "stanza") m) in
    if is_nil stanza then cluster_name else stanza

-- `NewFromCluster`
unfoldable pub new_from_cluster : Cluster → PluginConfiguration
unfolding plugin_parameters stanza_of source_plugin source_parameters object_name source_stanza
new_from_cluster cluster =
    let recovery = source_parameters (source_plugin cluster cluster.recovery_source) in
    let replica = source_parameters (source_plugin cluster cluster.replica_source) in
    record {
      cluster = cluster;
      pgbackrest_object_name = object_name (plugin_parameters cluster.plugins none);
      stanza = stanza_of cluster.plugins cluster.name;
      recovery_pgbackrest_object_name = object_name recovery;
      recovery_stanza = source_stanza cluster.name recovery;
      replica_source_pgbackrest_object_name = object_name replica;
      replica_source_stanza = source_stanza cluster.name replica;
    }

-- `addUnique`, on the names: all keys have the namespace of the cluster.
unfoldable pub add_unique : List Text → Text → List Text
add_unique result name = if contains result name then result else result ++ name ∷ []

-- The test for an empty name and the call of `addUnique`.
unfoldable pub add_named : List Text → Text → List Text
unfolding add_unique
add_named result name = if is_nil name then result else add_unique result name

-- The names of `GetReferredArchiveObjectsKey`
unfoldable pub get_referred_archive_objects : PluginConfiguration → List Text
unfolding add_named
get_referred_archive_objects config =
    add_named
      (add_named (add_named [] config.pgbackrest_object_name)
        config.recovery_pgbackrest_object_name)
      config.replica_source_pgbackrest_object_name

-- `types.NamespacedName`
pub record ObjectKey : Type 0 where
  pub namespace : Text
  pub name : Text

-- `GetArchiveObjectKey`
unfoldable pub get_archive_object_key : PluginConfiguration → ObjectKey
get_archive_object_key config = record {
  namespace = config.cluster.namespace;
  name = config.pgbackrest_object_name;
}

-- `GetRecoveryArchiveObjectKey`
unfoldable pub get_recovery_archive_object_key : PluginConfiguration → ObjectKey
get_recovery_archive_object_key config = record {
  namespace = config.cluster.namespace;
  name = config.recovery_pgbackrest_object_name;
}

-- `GetReplicaSourceArchiveObjectKey`
unfoldable pub get_replica_source_archive_object_key : PluginConfiguration → ObjectKey
get_replica_source_archive_object_key config = record {
  namespace = config.cluster.namespace;
  name = config.replica_source_pgbackrest_object_name;
}

-- `ConfigurationError`
pub record ConfigurationError : Type 0 where
  pub messages : List Text

-- `NewConfigurationError`
unfoldable pub new_configuration_error : ConfigurationError
new_configuration_error = record { messages = [] }

-- `WithMessage`, on a pointer that may be nil
unfoldable pub with_message : Option ConfigurationError → Text → ConfigurationError
with_message none msg = record { messages = msg ∷ [] }
with_message (some e) msg = record { messages = e.messages ++ msg ∷ [] }

-- `IsEmpty`
unfoldable pub is_empty : ConfigurationError → Bool
is_empty e = is_nil e.messages

join_messages : List Text → Text
join_messages [] = []
join_messages (m ∷ []) = m
join_messages (m ∷ n ∷ ms) = m ++ b',' ∷ join_messages (n ∷ ms)

-- `Error`
unfoldable pub configuration_error_text : ConfigurationError → Text
unfolding join_messages
configuration_error_text e = join_messages e.messages

-- `Validate`
unfoldable pub validate : PluginConfiguration → Result (Unit {0})
unfolding new_configuration_error with_message configuration_error_text
validate config =
    if is_nil config.pgbackrest_object_name && is_nil config.recovery_pgbackrest_object_name
    then err (
        message (
          configuration_error_text (
            with_message (some new_configuration_error)
              (codes "no reference to pgbackrestObjectName have been included"))))
    else ok tt

-- `NewFromClusterJSON`, for the cluster that the text decodes to
unfoldable pub new_from_cluster_json : Result Cluster → Result PluginConfiguration
unfolding new_from_cluster
new_from_cluster_json (ok cluster) = ok (new_from_cluster cluster)
new_from_cluster_json (err e) = err e
