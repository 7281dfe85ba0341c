-- ===== src/Archiver/Push.antt =====
-- The user's arguments for `archive-push` come before the options that the plugin sets.
use cnpg_plugin_pgbackrest.Base.{
  ◌≡◌, inl, inr, refl, ap, ◌∙◌, subst, true, false, not, ◌||◌, List, [], ◌∷◌, ◌++◌, Option, none,
  some, Text, codes, contains, str_eq, str_eq_iff, str_eq_self, is_nil, ok, All, Bool-cases,
  if◌then◌else◌, arith, append_assoc,
}
use cnpg_plugin_pgbackrest.Api.{PgbackrestConfiguration, WalBackupConfiguration}
use cnpg_plugin_pgbackrest.Api.Args.{
  append_additional_archive_push_command_args, append_additional_command_args, option_keys,
}
use cnpg_plugin_pgbackrest.Api.Args.Again.{IsSettled, append_additional_command_args-IsSettled}
use cnpg_plugin_pgbackrest.Base.Members.{contains_left, contains_right}
use cnpg_plugin_pgbackrest.Go.Strings.{before_eq}
use cnpg_plugin_pgbackrest.Command.{append_if, stanza_or}
use cnpg_plugin_pgbackrest.Command.Appends.{
  cloud_provider-Appends, log_extra, log-append, console_flag, contains-log_extra,
}
use cnpg_plugin_pgbackrest.Archiver.{pgbackrest_wal_archive_options}

-- The user's arguments for `archive-push`.
abbrev pub archive_push_args : Option WalBackupConfiguration → List Text
archive_push_args none = []
archive_push_args (some wal) = wal.archive_additional_command_args

push_args-IsSettled :
    (wal : Option WalBackupConfiguration) (options : List Text)
    → All
        (IsSettled (append_additional_archive_push_command_args wal options))
        (archive_push_args wal)
unfolding append_additional_archive_push_command_args
push_args-IsSettled none options = tt
push_args-IsSettled (some wal) options = go wal.archive_additional_command_args
  where
    go :
        (args : List Text)
        → All
            (IsSettled
              (if is_nil args then options else append_additional_command_args args options))
            args
    go [] = tt
    go (arg ∷ args) = append_additional_command_args-IsSettled (arg ∷ args) options

module _ (key : Text) (named : is_nil key ≡ false) where
  -- A settled argument with the key stands for an option with the key.
  key_settled :
      (options : List Text) (arg : Text)
      → IsSettled options arg
      → str_eq (before_eq arg) key ≡ true
      → (contains options key || option_keys options key) ≡ true
  key_settled options arg settled same =
      let e = (str_eq_iff (before_eq arg) key).0 same in
      let at : (is_nil key || (contains options key || option_keys options key)) ≡ true =
        subst (λ k. (is_nil k || (contains options k || option_keys options k)) ≡ true) e settled in
      ground (arith, named)

  keys_settled :
      (options args : List Text)
      → All (IsSettled options) args
      → option_keys args key ≡ true
      → (contains options key || option_keys options key) ≡ true
  unfolding option_keys
  keys_settled options [] settled h = cc
  keys_settled options (arg ∷ args) settled h = elim (Bool-cases (str_eq (before_eq arg) key)) [
    | inl same ↦ key_settled options arg settled.0 same
    | inr other ↦ keys_settled options args settled.1 (ground arith)
  ]

  key_of_member :
      (options : List Text)
      → before_eq key ≡ key
      → contains options key ≡ true
      → option_keys options key ≡ true
  unfolding option_keys contains
  key_of_member [] plain h = cc
  key_of_member (x ∷ options) plain h = elim (Bool-cases (str_eq x key)) [
    | inl same ↦
        let e : before_eq x ≡ key = ap before_eq ((str_eq_iff x key).0 same) ∙ plain in
        rw (e, named, str_eq_self key) refl
    | inr other ↦ ground (arith, key_of_member options plain (ground arith))
  ]

  settled_twice :
      (options : List Text)
      → before_eq key ≡ key
      → (contains options key || option_keys options key) ≡ true
      → option_keys options key ≡ true
  settled_twice options plain h = elim (Bool-cases (contains options key)) [
    | inl member ↦ key_of_member options plain member
    | inr other ↦ ground arith
  ]

-- The check for options that are set already misses those that `archive-push` gets later: where one
-- of the user's arguments for it has the key of the console's log level, the command line has two
-- parts of which each sets that level, first as the user's arguments do and then as the plugin does,
-- whatever the other arguments and the compression are.
pub archive_push_sets_twice :
    (c : PgbackrestConfiguration) (cluster_name : Text)
    → option_keys (archive_push_args c.wal) console_flag ≡ true
    → (front : List Text) × (rest : List Text) × (pgbackrest_wal_archive_options c cluster_name
        ≡ ok (front ++ rest))
      × (option_keys front console_flag ≡ true)
      × (contains rest console_flag ≡ true)
unfolding pgbackrest_wal_archive_options codes before_eq
archive_push_sets_twice c cluster_name given =
    let (e, p) = cloud_provider-Appends c in
    let last = codes "--stanza" ∷ stanza_or cluster_name c ∷ [] in
    let front =
      append_additional_archive_push_command_args c.wal (
        append_if (not (is_nil c.compression)) (codes "--compress-type" ∷ c.compression ∷ []) []) in
    (
      front,
      (e ++ log_extra (some c)) ++ last,
      rw (p, log-append (some c))
          (ap ok (
            ap (λ l. l ++ last) (append_assoc front e (log_extra (some c)))
            ∙ append_assoc front (e ++ log_extra (some c)) last)),
      settled_twice console_flag refl front refl (
          keys_settled console_flag refl front (archive_push_args c.wal)
            (push_args-IsSettled c.wal _) given),
      contains_left (e ++ log_extra (some c)) last console_flag
          (contains_right e (log_extra (some c)) console_flag (contains-log_extra (some c))),
    )
