-- ===== src/Config/Disabled.antt =====
-- A plugin that is not enabled still names the archive.
use cnpg_plugin_pgbackrest.Base.{
  ◌≡◌, ap, ◌∙◌, false, [], ◌∷◌, none, Text, str_eq, str_eq_self, if◌then◌else◌,
}
use cnpg_plugin_pgbackrest.Config.{
  PluginEntry, Cluster, plugin_name, plugin_parameters, stanza_of, object_name, new_from_cluster,
}

parameters_of_one :
    (p : PluginEntry) → p.name ≡ plugin_name → plugin_parameters (p ∷ []) none ≡ p.parameters
unfolding plugin_parameters
parameters_of_one p named =
    ap (λ b. if b then p.parameters else none)
      (ap (λ n. str_eq n plugin_name) named ∙ str_eq_self plugin_name)

stanza_of_disabled :
    (p : PluginEntry) (stanza : Text) → p.is_enabled ≡ false → stanza_of (p ∷ []) stanza ≡ stanza
unfolding stanza_of
stanza_of_disabled p stanza off = simp (off)

-- In a cluster whose only plugin is this one, switched off, the configuration takes the name of the
-- archive from its parameters all the same, while the stanza is the name of the cluster and not the
-- parameter.
pub disabled_plugin_names_archive :
    (cluster : Cluster) (p : PluginEntry)
    → cluster.plugins ≡ p ∷ []
    → p.name ≡ plugin_name
    → p.is_enabled ≡ false
    → ((new_from_cluster cluster).pgbackrest_object_name ≡ object_name p.parameters)
      × ((new_from_cluster cluster).stanza ≡ cluster.name)
unfolding new_from_cluster
disabled_plugin_names_archive cluster p only named off = (
  ap (λ ps. object_name (plugin_parameters ps none)) only
      ∙ ap object_name (parameters_of_one p named),
  ap (λ ps. stanza_of ps cluster.name) only ∙ stanza_of_disabled p cluster.name off,
)
