-- ===== src/Archiver.antt =====
-- internal/pgbackrest/archiver: the command lines of `archive-push` and `check`, and the list of the
-- WAL files that go into one batch.
pub mod Batch
pub mod Gather
pub mod Push
use cnpg_plugin_pgbackrest.Base.{
  Bool, true, false, not, List, [], ◌∷◌, ◌++◌, Option, none, some, Text, codes, is_nil,
  if◌then◌else◌, Result, ok, err, ◌>>=◌,
}
use cnpg_plugin_pgbackrest.Api.{PgbackrestConfiguration}
use cnpg_plugin_pgbackrest.Api.Args.{append_additional_archive_push_command_args}
use cnpg_plugin_pgbackrest.Command.{
  append_if, append_cloud_provider_options_from_configuration,
  append_stanza_options_from_configuration, append_log_options_from_configuration, stanza_or,
}

-- `PgbackrestWalArchiveOptions`; the test for a nil `Wal` and the method's own test are one.
unfoldable pub pgbackrest_wal_archive_options : PgbackrestConfiguration → Text → Result (List Text)
pgbackrest_wal_archive_options c cluster_name = do
  let o1 = append_if (not (is_nil c.compression)) (codes "--compress-type" ∷ c.compression ∷ []) []
  let o2 = append_additional_archive_push_command_args c.wal o1
  o3 ← append_cloud_provider_options_from_configuration o2 c
  o4 ← append_log_options_from_configuration o3 (some c)
  ok (o4 ++ codes "--stanza" ∷ stanza_or cluster_name c ∷ [])

-- `PgbackrestCheckWalArchiveOptions`
unfoldable pub pgbackrest_check_wal_archive_options :
    Text → PgbackrestConfiguration → Text → Result (List Text)
pgbackrest_check_wal_archive_options pg_data_directory c cluster_name = do
  o1 ← append_cloud_provider_options_from_configuration [] c
  o2 ← append_stanza_options_from_configuration o1 c pg_data_directory true
  o3 ← append_log_options_from_configuration o2 (some c)
  ok (
      o3
      ++ codes "--stanza"
        ∷ stanza_or cluster_name c
        ∷ codes "--lock-path"
        ∷ codes "/controller/tmp/pgbackrest"
        ∷ [])
