-- ===== src/Backup/Laws.antt =====
-- When the command line of a backup can be built, and what it begins with.
use cnpg_plugin_pgbackrest.Base.{
  ◌≡◌, refl, sym, ap, ◌∙◌, Bool, true, false, not, ◌||◌, List, [], ◌∷◌, ◌++◌, append_assoc,
  append-nil, Option, none, some, Text, codes, str_eq, is_nil, if◌then◌else◌, Result, ok, err,
  panic, Bool-cases, inl, inr, arith,
}
use cnpg_plugin_pgbackrest.Base.Int.{ℤ}
use cnpg_plugin_pgbackrest.Api.{DataBackupConfiguration}
use cnpg_plugin_pgbackrest.Api.Args.{
  append_additional_backup_command_args, append_additional_command_args,
}
use cnpg_plugin_pgbackrest.Api.Args.Laws.{append_additional_command_args_lem}
use cnpg_plugin_pgbackrest.Command.Appends.{
  Adds, append_if-Adds, ◌then_adds◌, cloud_provider-Appends, retention-Appends, stanza-Appends,
  log_extra, log-append,
}
use cnpg_plugin_pgbackrest.Backup.{
  Command, jobs_options, backup_name_annotation, get_data_configuration, reserved_annotation,
  append_annotations, annotations_of, append_parameters, parameters_of,
  get_pgbackrest_backup_options,
}

-- Some annotation of the configuration has the name that is reserved.
abbrev pub has_reserved : List (Text × Text) → Bool
has_reserved [] = false
has_reserved ((k, v) ∷ rest) = str_eq k backup_name_annotation || has_reserved rest

annotations_reserved :
    (annotations : List (Text × Text)) (options : List Text)
    → has_reserved annotations ≡ true
    → append_annotations annotations options ≡ err reserved_annotation
unfolding append_annotations
annotations_reserved [] options h = cc
annotations_reserved ((k, v) ∷ rest) options h =
    elim (Bool-cases (str_eq k backup_name_annotation)) [
      | inl reserved ↦ rw reserved
      | inr free ↦ rw free (annotations_reserved rest _ (ground arith))
    ]

-- Each annotation adds its pair.
annotations_free :
    (annotations : List (Text × Text))
    → has_reserved annotations ≡ false
    → (extra : List Text) × ((options : List Text)
        → append_annotations annotations options ≡ ok (options ++ extra))
unfolding append_annotations
annotations_free [] h = ([], λ options. ap ok (sym (append-nil options)))
annotations_free ((k, v) ∷ rest) h =
    let free : str_eq k backup_name_annotation ≡ false = ground arith in
    let (e, p) = annotations_free rest (ground arith) in
    (
      codes "--annotation" ∷ (k ++ b'=' ∷ v) ∷ e,
      λ options. rw free (
          p (options ++ codes "--annotation" ∷ (k ++ b'=' ∷ v) ∷ [])
          ∙ ap ok (append_assoc options _ e)),
    )

append_parameters-Adds : (parameters : List (Text × Text)) → Adds (append_parameters parameters)
unfolding append_parameters
append_parameters-Adds [] = ([], λ options. sym (append-nil options))
append_parameters-Adds ((k, v) ∷ rest) =
    let (e, p) = append_parameters-Adds rest in
    (
      (codes "--" ++ (k ++ b'=' ∷ v)) ∷ e,
      λ options. p (options ++ (codes "--" ++ (k ++ b'=' ∷ v)) ∷ []) ∙ append_assoc options _ e,
    )

jobs_options-Adds : (jobs : Option ℤ) → Adds (jobs_options jobs)
unfolding jobs_options
jobs_options-Adds none = ([], λ options. sym (append-nil options))
jobs_options-Adds (some n) = (_, λ options. refl)

backup_args_add :
    (cfg : DataBackupConfiguration) (options : List Text)
    → (extra : List Text) × (append_additional_backup_command_args (some cfg) options
        ≡ options ++ extra)
unfolding append_additional_backup_command_args
backup_args_add cfg options = go cfg.additional_command_args
  where
    go :
        (args : List Text)
        → (extra : List Text) × ((if is_nil args
              then options
              else append_additional_command_args args options)
            ≡ options ++ extra)
    go [] = ([], sym (append-nil options))
    go (arg ∷ args) =
        let (extra, p, _, _) = append_additional_command_args_lem (arg ∷ args) options in (extra, p)

-- What the configuration of the data adds depends on the options before it, for a user's argument
-- may stand among them.
data_adds :
    (compression : Text) (cfg : Option DataBackupConfiguration) (options : List Text)
    → (extra : List Text) × (get_data_configuration compression cfg options ≡ ok (options ++ extra))
unfolding get_data_configuration
data_adds compression none options = ([], ap ok (sym (append-nil options)))
data_adds compression (some cfg) options =
    let (e, p) =
      append_if-Adds (not (is_nil compression)) (codes "--compress-type" ∷ compression ∷ [])
      then_adds append_if-Adds cfg.immediate_checkpoint (codes "--start-fast" ∷ [])
      then_adds jobs_options-Adds cfg.jobs in
    let (d, q) = backup_args_add cfg (options ++ e) in
    (
      e ++ d,
      ap ok (
          ap (append_additional_backup_command_args (some cfg)) (p options)
          ∙ q
          ∙ append_assoc options e d),
    )

-- What the command line of a backup is, by whether the reserved annotation is given and by the
-- parameters of the plugin configuration.
abbrev pub DescribesCommandLine :
    Text → Bool → Option (List (Text × Text)) → Result (List Text) → Type 0
DescribesCommandLine backup_name true parameters r = r ≡ err reserved_annotation
DescribesCommandLine backup_name false none r = r ≡ err panic
DescribesCommandLine backup_name false (some parameters) r =
    (rest : List Text) × (r
      ≡ ok (
          codes "backup"
          ∷ codes "--annotation"
          ∷ (backup_name_annotation ++ b'=' ∷ backup_name)
          ∷ rest))

-- The three cases, each with its condition.
command_line_cases :
    (b : Command) (backup_name stanza : Text)
    → let annotations = annotations_of b.configuration.data_backup in
      (has_reserved annotations ≡ true
        → get_pgbackrest_backup_options b backup_name stanza ≡ err reserved_annotation)
      × (has_reserved annotations ≡ false
          → b.backup_config ≡ none
          → get_pgbackrest_backup_options b backup_name stanza ≡ err panic)
      × ((parameters : List (Text × Text))
          → has_reserved annotations ≡ false
          → b.backup_config ≡ some parameters
          → (rest : List Text) × (get_pgbackrest_backup_options b backup_name stanza
              ≡ ok (
                  codes "backup"
                  ∷ codes "--annotation"
                  ∷ (backup_name_annotation ++ b'=' ∷ backup_name)
                  ∷ rest)))
unfolding get_pgbackrest_backup_options parameters_of
command_line_cases b backup_name stanza =
    let c = b.configuration in
    let annotations = annotations_of c.data_backup in
    let first =
      codes "backup" ∷ codes "--annotation" ∷ (backup_name_annotation ++ b'=' ∷ backup_name) ∷ [] in
    let last =
      codes "--stanza"
      ∷ stanza
      ∷ codes "--lock-path"
      ∷ codes "/controller/tmp/pgbackrest"
      ∷ codes "--no-archive-check"
      ∷ [] in
    let (e1, p1) = data_adds c.compression c.data_backup first in
    let (e3, p3) = cloud_provider-Appends c in
    let (e4, p4) = retention-Appends c in
    let (e5, p5) = stanza-Appends c b.pg_data_directory true in
    (
      λ reserved. rw (p1, annotations_reserved annotations (first ++ e1) reserved),
      λ free nil.
          let (e2, p2) = annotations_free annotations free in
          rw (p1, p2, p3, p4, p5, log-append (some c), ap parameters_of nil),
      λ parameters free given.
          let (e2, p2) = annotations_free annotations free in
          let (e6, p6) = append_parameters-Adds parameters in
          (
            (e1 ++ e2 ++ e3 ++ e4 ++ e5 ++ log_extra (some c) ++ e6) ++ last,
            rw (p1, p2, p3, p4, p5, log-append (some c), ap parameters_of given)
                (ap (λ o. ok (o ++ last)) (p6 _)),
          ),
    )

command_line_of :
    (b : Command) (backup_name stanza : Text) (reserved : Bool) (o : Option (List (Text × Text)))
    → has_reserved (annotations_of b.configuration.data_backup) ≡ reserved
    → b.backup_config ≡ o
    → DescribesCommandLine backup_name reserved o
        (get_pgbackrest_backup_options b backup_name stanza)
command_line_of b backup_name stanza true o h e = (command_line_cases b backup_name stanza).0 h
command_line_of b backup_name stanza false none h e =
    (command_line_cases b backup_name stanza).1 h e
command_line_of b backup_name stanza false (some p) h e =
    (command_line_cases b backup_name stanza).2 p h e

-- The command line of a backup: an annotation with the reserved name is refused; without one, a nil
-- plugin configuration is dereferenced; otherwise there is a command line, and it begins with the
-- command and the annotation that carries the name of the backup.
pub get_pgbackrest_backup_options_lem :
    (b : Command) (backup_name stanza : Text)
    → DescribesCommandLine backup_name
        (has_reserved (annotations_of b.configuration.data_backup))
        b.backup_config
        (get_pgbackrest_backup_options b backup_name stanza)
get_pgbackrest_backup_options_lem b backup_name stanza =
    command_line_of b backup_name stanza _ _ refl refl
