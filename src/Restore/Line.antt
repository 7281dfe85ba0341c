-- ===== src/Restore/Line.antt =====
-- What the command line of a restore begins and ends with.
use cnpg_plugin_pgbackrest.Base.{
  ◌≡◌, refl, sym, ap, ◌∙◌, false, List, [], ◌∷◌, ◌++◌, append-nil, append_assoc, Option, none, some,
  Text, codes, is_nil, ok, Bool-cases, inl, inr,
}
use cnpg_plugin_pgbackrest.Base.Int.{ℤ}
use cnpg_plugin_pgbackrest.Api.{DataRestoreConfiguration}
use cnpg_plugin_pgbackrest.Api.Args.{append_additional_restore_command_args}
use cnpg_plugin_pgbackrest.Api.Args.Laws.{append_additional_command_args_lem}
use cnpg_plugin_pgbackrest.Command.Appends.{
  cloud_provider-Appends, stanza-Appends, log_extra, log-append,
}
use cnpg_plugin_pgbackrest.Restore.{
  RestoreCommand, restore_jobs, get_restore_configuration, get_pgbackrest_restore_options,
}

jobs_add :
    (jobs : Option ℤ) (options : List Text)
    → (extra : List Text) × (restore_jobs jobs options ≡ options ++ extra)
unfolding restore_jobs
jobs_add none options = ([], sym (append-nil options))
jobs_add (some n) options = (_, refl)

arguments_add :
    (cfg : DataRestoreConfiguration) (options : List Text)
    → (extra : List Text) × (append_additional_restore_command_args (some cfg) options
        ≡ options ++ extra)
unfolding append_additional_restore_command_args
arguments_add cfg options = elim (Bool-cases (is_nil cfg.additional_command_args)) [
  | inl h ↦ ([], rw h (sym (append-nil options)))
  | inr h ↦
      let found = append_additional_command_args_lem cfg.additional_command_args options in
      (found.0, rw h found.1)
]

configuration_adds :
    (o : Option DataRestoreConfiguration) (options : List Text)
    → (extra : List Text) × (get_restore_configuration o options ≡ options ++ extra)
unfolding get_restore_configuration
configuration_adds none options = ([], sym (append-nil options))
configuration_adds (some cfg) options =
    let (e1, p1) = jobs_add cfg.jobs options in
    let (e2, p2) = arguments_add cfg (options ++ e1) in
    (
      e1 ++ e2,
      ap (append_additional_restore_command_args (some cfg)) p1 ∙ p2 ∙ append_assoc options e1 e2,
    )

-- The command line of a restore can always be built. It begins with the stanza and the lock path, and
-- ends with the command and the backup that is asked for, whatever the user's arguments are.
pub get_pgbackrest_restore_options_lem :
    (b : RestoreCommand) (backup_name stanza : Text)
    → (middle : List Text) × (get_pgbackrest_restore_options b backup_name stanza
        ≡ ok (
            (codes "--stanza"
              ∷ stanza
              ∷ codes "--lock-path"
              ∷ codes "/controller/tmp/pgbackrest"
              ∷ [])
            ++ (middle ++ codes "restore" ∷ codes "--set" ∷ backup_name ∷ [])))
unfolding get_pgbackrest_restore_options
get_pgbackrest_restore_options_lem b backup_name stanza =
    let first =
      codes "--stanza" ∷ stanza ∷ codes "--lock-path" ∷ codes "/controller/tmp/pgbackrest" ∷ [] in
    let last = codes "restore" ∷ codes "--set" ∷ backup_name ∷ [] in
    let (e1, p1) = configuration_adds b.configuration.restore first in
    let (e2, p2) = cloud_provider-Appends b.configuration in
    let (e4, p4) = stanza-Appends b.configuration b.pg_data_directory false in
    let e3 = log_extra (some b.configuration) in
    (((e1 ++ e2) ++ e3) ++ e4, rw (p1, p2, log-append (some b.configuration), p4) (ap ok refl))
