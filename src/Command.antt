-- ===== src/Command.antt =====
-- internal/pgbackrest/command/commandbuilder.go: the options that the pgBackRest commands share.
-- `append(options, a, b)` is `options ++ a ∷ b ∷ []`.
pub mod Info
pub mod Appends
pub mod ArchiveGet
use cnpg_plugin_pgbackrest.Base.{
  ℕ, zero, suc, ◌+◌, Bool, true, false, not, List, [], ◌∷◌, ◌++◌, Option, none, some, Text, codes,
  is_nil, if◌then◌else◌, Result, ok, err, ◌>>=◌,
}
use cnpg_plugin_pgbackrest.Base.Int.{ℤ, pos, ltb_ℤ}
use cnpg_plugin_pgbackrest.Go.Strconv.{format_int}
use cnpg_plugin_pgbackrest.Utils.{format_repo_flag, format_db_flag}
use cnpg_plugin_pgbackrest.Api.{
  S3Credentials, PgbackrestRetention, LogConfiguration, PgbackrestRepository,
  PgbackrestConfiguration,
}
use cnpg_plugin_pgbackrest.Api.Args.{append_additional_archive_get_command_args}

-- `if test { options = append(options, extra...) }`
abbrev pub append_if : Bool → List Text → List Text → List Text
append_if test extra options = if test then options ++ extra else options

repo_flag : ℕ → Text → Text → List Text
repo_flag index flag value = format_repo_flag index flag ∷ value ∷ []

retention_history : ℕ → Option ℤ → List Text → List Text
unfolding repo_flag
retention_history index none options = options
retention_history index (some days) options =
    options ++ repo_flag index (codes "retention-history") (format_int days)

-- `appendRetentionOptions`
unfoldable pub append_retention_options :
    List Text → ℕ → Option PgbackrestRetention → Result (List Text)
unfolding repo_flag retention_history
append_retention_options options index none = ok options
append_retention_options options index (some r) =
    let o1 =
      append_if (not (is_nil r.archive_type))
        (repo_flag index (codes "retention-archive-type") r.archive_type) options in
    let o2 =
      append_if (not (is_nil r.full_type))
        (repo_flag index (codes "retention-full-type") r.full_type) o1 in
    let o3 =
      append_if (ltb_ℤ (pos 0) r.archive)
        (repo_flag index (codes "retention-archive") (format_int r.archive)) o2 in
    let o4 =
      append_if (ltb_ℤ (pos 0) r.full)
        (repo_flag index (codes "retention-full") (format_int r.full)) o3 in
    let o5 =
      append_if (ltb_ℤ (pos 0) r.diff)
        (repo_flag index (codes "retention-diff") (format_int r.diff)) o4 in
    ok (retention_history index r.history o5)

s3_uri_style : ℕ → Option S3Credentials → List Text → List Text
unfolding repo_flag
s3_uri_style index none options = options
s3_uri_style index (some aws) options =
    append_if (not (is_nil aws.uri_style)) (repo_flag index (codes "s3-uri-style") aws.uri_style)
      options

-- `appendCloudProviderOptions`
unfoldable pub append_cloud_provider_options :
    List Text → ℕ → PgbackrestRepository → Result (List Text)
unfolding repo_flag s3_uri_style
append_cloud_provider_options options index repo =
    let o1 = options ++ repo_flag index (codes "type") (codes "s3") in
    let o2 =
      append_if (not (is_nil repo.endpoint_url))
        (repo_flag index (codes "s3-endpoint") repo.endpoint_url) o1 in
    let o3 =
      append_if repo.disable_verify_tls (format_repo_flag index (codes "storage-verify-tls=n") ∷ [])
        o2 in
    let o4 =
      o3
      ++ (repo_flag index (codes "s3-bucket") repo.bucket
          ++ repo_flag index (codes "path") repo.destination_path) in
    ok (s3_uri_style index repo.aws o4)

-- A loop `for index, repo := range repositories` that rewrites the options and stops at an error.
unfoldable pub for_repositories :
    (List Text → ℕ → PgbackrestRepository → Result (List Text))
    → ℕ
    → List PgbackrestRepository
    → List Text
    → Result (List Text)
for_repositories step index [] options = ok options
for_repositories step index (repo ∷ repos) options =
    step options index repo >>= for_repositories step (suc index) repos

-- `AppendCloudProviderOptionsFromConfiguration`
unfoldable pub append_cloud_provider_options_from_configuration :
    List Text → PgbackrestConfiguration → Result (List Text)
unfolding for_repositories append_cloud_provider_options
append_cloud_provider_options_from_configuration options c =
    for_repositories append_cloud_provider_options 0 c.repositories options

-- `AppendRetentionOptionsFromConfiguration`
unfoldable pub append_retention_options_from_configuration :
    List Text → PgbackrestConfiguration → Result (List Text)
unfolding for_repositories append_retention_options
append_retention_options_from_configuration options c =
    for_repositories (λ o index repo. append_retention_options o index repo.retention) 0
      c.repositories options

-- `appendStanzaOptions`
unfoldable pub append_stanza_options : List Text → ℕ → Text → Bool → Result (List Text)
unfolding codes
append_stanza_options options index pg_data_directory cluster_running =
    let o1 = options ++ format_db_flag index (codes "path") ∷ pg_data_directory ∷ [] in
    ok (
      append_if cluster_running
        (format_db_flag index (codes "user")
          ∷ codes "postgres"
          ∷ format_db_flag index (codes "socket-path")
          ∷ codes "/controller/run/"
          ∷ [])
        o1)

-- `AppendStanzaOptionsFromConfiguration`
unfoldable pub append_stanza_options_from_configuration :
    List Text → PgbackrestConfiguration → Text → Bool → Result (List Text)
unfolding append_stanza_options
append_stanza_options_from_configuration options c pg_data_directory cluster_running =
    append_stanza_options options 0 pg_data_directory cluster_running

stderr_level : Option LogConfiguration → Text
stderr_level none = codes "warn"
stderr_level (some log) = if is_nil log.level_stderr then codes "warn" else log.level_stderr

level_of_configuration : Option PgbackrestConfiguration → Text
unfolding stderr_level
level_of_configuration none = codes "warn"
level_of_configuration (some c) = stderr_level c.log

-- `appendLogOptions`; the configuration is a pointer.
unfoldable pub append_log_options : List Text → Option PgbackrestConfiguration → Result (List Text)
unfolding level_of_configuration
append_log_options options c = ok (
    options
    ++ codes "--log-level-stderr"
      ∷ level_of_configuration c
      ∷ codes "--log-level-console"
      ∷ codes "off"
      ∷ [])

-- `AppendLogOptionsFromConfiguration`
unfoldable pub append_log_options_from_configuration :
    List Text → Option PgbackrestConfiguration → Result (List Text)
unfolding append_log_options
append_log_options_from_configuration options c = append_log_options options c

-- The configured stanza, or the name of the cluster.
abbrev pub stanza_or : Text → PgbackrestConfiguration → Text
stanza_or cluster_name c = if is_nil c.stanza then cluster_name else c.stanza

-- `CloudWalRestoreOptions`
unfoldable pub cloud_wal_restore_options :
    PgbackrestConfiguration → Text → Text → Result (List Text)
unfolding append_additional_archive_get_command_args
cloud_wal_restore_options c cluster_name pg_data_directory = do
  o1 ← append_cloud_provider_options_from_configuration [] c
  o2 ← append_stanza_options_from_configuration o1 c pg_data_directory false
  o3 ← append_log_options_from_configuration o2 (some c)
  let o4 = o3 ++ codes "--stanza" ∷ stanza_or cluster_name c ∷ []
  ok (append_additional_archive_get_command_args c.wal o4)
