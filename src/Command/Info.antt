-- ===== src/Command/Info.antt =====
-- internal/pgbackrest/command/backuplist.go: the catalog as `pgbackrest info` reports it.
pub mod ByName
use cnpg_plugin_pgbackrest.Base.{
  Bool, List, [], ◌∷◌, ◌++◌, Option, none, some, Text, codes, is_nil, if◌then◌else◌, Result, ok,
  err, message,
}
use cnpg_plugin_pgbackrest.Host.{Host, Act, ◌>>=◌, return, fail, and_then, from_result}
use cnpg_plugin_pgbackrest.Api.{PgbackrestConfiguration}
use cnpg_plugin_pgbackrest.Catalog.{
  Catalog, PgbackrestBackup, new_catalog_from_pgbackrest_info,
  new_single_backup_catalog_from_pgbackrest_info,
}
use cnpg_plugin_pgbackrest.Catalog.Find.{latest_backup_info, get_backup_id_from_annotated_name}
use cnpg_plugin_pgbackrest.Command.{
  append_cloud_provider_options_from_configuration, append_log_options_from_configuration,
}

-- Over the decoding of the catalogs from their JSON text.
module _ (h : Host) (unmarshal : Text → Result (List Catalog)) (env : List Text)
    (c : PgbackrestConfiguration) (stanza : Text) where
  -- `executeQueryCommand`
  unfoldable pub execute_query_command : List Text → Act h.State Text
  execute_query_command additional_options = do
    o1 ← from_result (
        append_cloud_provider_options_from_configuration
          (codes "info" ∷ codes "--output" ∷ codes "json" ∷ []) c)
    o2 ← from_result (append_log_options_from_configuration o1 (some c))
    h.pgbackrest_output env ((o2 ++ codes "--stanza" ∷ stanza ∷ []) ++ additional_options)

  -- `GetBackupList`
  unfoldable pub get_backup_list : Act h.State Catalog
  get_backup_list = do
    raw_json ← execute_query_command []
    from_result (new_catalog_from_pgbackrest_info unmarshal raw_json)

  query_set : Text → Act h.State (Option Catalog)
  query_set backup_id = do
    raw_json ← execute_query_command (codes "--set" ∷ backup_id ∷ [])
    single ← from_result (new_single_backup_catalog_from_pgbackrest_info unmarshal raw_json)
    return (some single)

  set_unless_missing : Text → Act h.State (Option Catalog)
  unfolding query_set
  set_unless_missing [] = return none
  set_unless_missing (b ∷ backup_id) = query_set (b ∷ backup_id)

  -- `GetBackupByAnnotatedName`. Where no backup has the name, it returns a nil catalog, and its error
  -- is that of the call before, which is nil.
  unfoldable pub get_backup_by_annotated_name : Text → Act h.State (Option Catalog)
  unfolding set_unless_missing
  get_backup_by_annotated_name backup_name = do
    full_catalog ← get_backup_list
    set_unless_missing (get_backup_id_from_annotated_name full_catalog backup_name)

  latest_of : Catalog → Act h.State (Option PgbackrestBackup)
  latest_of backup_list s =
      if is_nil backup_list.backups
      then (err (message (codes "no backup found on the remote object storage")), s)
      else (ok (latest_backup_info backup_list), s)

  -- `GetLatestBackup`
  unfoldable pub get_latest_backup : Act h.State (Option PgbackrestBackup)
  unfolding latest_of
  get_latest_backup = do backup_list ← get_backup_list; latest_of backup_list
