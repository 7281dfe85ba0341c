-- ===== src/Command/ArchiveGet.antt =====
-- `CloudWalRestoreOptions`: the options of the plugin and the user's arguments behind them.
use mathlib.Core.List.{Sublistᴰ}
use cnpg_plugin_pgbackrest.Base.{
  ◌≡◌, refl, sym, ap, Bool, true, false, List, [], ◌∷◌, ◌++◌, append-nil, Option, none, some, Text,
  codes, contains, is_nil, if◌then◌else◌, ok, All, subst,
}
use cnpg_plugin_pgbackrest.Api.{PgbackrestConfiguration, WalBackupConfiguration}
use cnpg_plugin_pgbackrest.Api.Args.{
  append_additional_command_args, append_additional_archive_get_command_args,
}
use cnpg_plugin_pgbackrest.Api.Args.Laws.{IsFresh, append_additional_command_args_lem}
use cnpg_plugin_pgbackrest.Api.Args.Again.{IsSettled, append_additional_command_args-IsSettled}
use cnpg_plugin_pgbackrest.Base.Members.{contains_left, contains_right, contains_head}
use cnpg_plugin_pgbackrest.Command.{
  append_cloud_provider_options_from_configuration, append_stanza_options_from_configuration,
  append_log_options, append_log_options_from_configuration, stanza_or, cloud_wal_restore_options,
}
use cnpg_plugin_pgbackrest.Command.Appends.{
  cloud_provider-Appends, stanza-Appends, log_extra, log-append, console_flag, contains-log_extra,
}

-- The user's arguments for `archive-get`.
abbrev pub archive_get_args : Option WalBackupConfiguration → List Text
archive_get_args none = []
archive_get_args (some cfg) = cfg.restore_additional_command_args

-- What is appended of some arguments: some of them, in their order, with fresh keys, such that all of
-- them are settled.
abbrev IsExtended : List Text → List Text → List Text → Type 0
IsExtended options args result =
    (extra : List Text) × (result ≡ options ++ extra)
    × Sublistᴰ extra args
    × All (IsFresh options) extra
    × All (IsSettled (options ++ extra)) args

append_args-IsExtended :
    (args options : List Text)
    → IsExtended options args (append_additional_command_args args options)
append_args-IsExtended args options =
    let (extra, eq, sub, fresh) = append_additional_command_args_lem args options in
    (
      extra,
      eq,
      sub,
      fresh,
      subst (λ o. All (IsSettled o) args) eq
          (append_additional_command_args-IsSettled args options),
    )

archive_get_args_lem :
    (wal : Option WalBackupConfiguration) (options : List Text)
    → IsExtended options
        (archive_get_args wal)
        (append_additional_archive_get_command_args wal options)
unfolding append_additional_archive_get_command_args
archive_get_args_lem none options = ([], sym (append-nil options), Sublistᴰ.slnil, tt, tt)
archive_get_args_lem (some cfg) options = go cfg.restore_additional_command_args
  where
    go :
        (args : List Text)
        → IsExtended options args
            (if is_nil args then options else append_additional_command_args args options)
    go [] = ([], sym (append-nil options), Sublistᴰ.slnil, tt, tt)
    go (arg ∷ args) = append_args-IsExtended (arg ∷ args) options

-- The builders do not read the WAL section.
module _ (c : PgbackrestConfiguration) (options : List Text) where
  cloud_provider_without_wal :
      append_cloud_provider_options_from_configuration options (record c { wal = none })
      ≡ append_cloud_provider_options_from_configuration options c
  unfolding append_cloud_provider_options_from_configuration
  cloud_provider_without_wal = refl

  stanza_without_wal :
      (dir : Text) (running : Bool)
      → append_stanza_options_from_configuration options (record c { wal = none }) dir running
        ≡ append_stanza_options_from_configuration options c dir running
  unfolding append_stanza_options_from_configuration
  stanza_without_wal dir running = refl

  log_without_wal :
      append_log_options_from_configuration options (some (record c { wal = none }))
      ≡ append_log_options_from_configuration options (some c)
  unfolding append_log_options_from_configuration append_log_options
  log_without_wal = refl

-- `CloudWalRestoreOptions` always succeeds. Its result is what it gives for the same configuration
-- with no WAL section, the console's log level and the stanza among it, and behind that some of the
-- user's arguments for `archive-get`, in their order. None of those has the key of an option that the
-- plugin sets, and one that is left out has an empty key or a key that stands in the result.
pub cloud_wal_restore_options_lem :
    (c : PgbackrestConfiguration) (cluster_name dir : Text)
    → (fixed : List Text) × (extra : List Text) × (cloud_wal_restore_options
          (record c { wal = none })
          cluster_name
          dir
        ≡ ok fixed)
      × (cloud_wal_restore_options c cluster_name dir ≡ ok (fixed ++ extra))
      × (contains fixed console_flag ≡ true)
      × (contains fixed (codes "--stanza") ≡ true)
      × Sublistᴰ extra (archive_get_args c.wal)
      × All (IsFresh fixed) extra
      × All (IsSettled (fixed ++ extra)) (archive_get_args c.wal)
unfolding cloud_wal_restore_options append_additional_archive_get_command_args
cloud_wal_restore_options_lem c cluster_name dir =
    let (e1, p1) = cloud_provider-Appends c in
    let (e2, p2) = stanza-Appends c dir false in
    let o3 = ([] ++ e1 ++ e2) ++ log_extra (some c) in
    let last = codes "--stanza" ∷ stanza_or cluster_name c ∷ [] in
    let (extra, eq, sub, fresh, settled) = archive_get_args_lem c.wal (o3 ++ last) in
    (
      o3 ++ last,
      extra,
      rw
          (
            cloud_provider_without_wal c,
            p1,
            stanza_without_wal c,
            p2,
            log_without_wal c,
            log-append (some c),
          )
          refl,
      rw (p1, p2, log-append (some c)) (ap ok eq),
      contains_left o3 last console_flag (
          contains_right ([] ++ e1 ++ e2) (log_extra (some c)) console_flag
            (contains-log_extra (some c))),
      contains_right o3 last (codes "--stanza")
          (contains_head (codes "--stanza") (stanza_or cluster_name c ∷ [])),
      sub,
      fresh,
      settled,
    )
