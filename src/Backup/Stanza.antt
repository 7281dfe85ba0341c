-- ===== src/Backup/Stanza.antt =====
-- `CreatePgbackrestStanza` of internal/pgbackrest/backup/backup.go.
use cnpg_plugin_pgbackrest.Base.{List, Text, codes}
use cnpg_plugin_pgbackrest.Host.{Host, Act, ◌>>=◌, from_result, wrap_error}
use cnpg_plugin_pgbackrest.Backup.{Command, get_stanza_create_options}

unfoldable pub create_pgbackrest_stanza :
    (h : Host) → Command → Text → List Text → Act h.State (Unit {0})
create_pgbackrest_stanza h b stanza env = do
  options ← from_result (get_stanza_create_options b stanza)
  wrap_error (codes "unexpected failure invoking pgbackrest stanza-create")
      (h.pgbackrest env options)
