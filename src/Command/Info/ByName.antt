-- ===== src/Command/Info/ByName.antt =====
-- The search for a backup by its annotated name, from the report on.
use cnpg_plugin_pgbackrest.Base.{
  ◌≡◌, ◌≢◌, ◌↔◌, refl, ap, ◌∙◌, subst, List, [], ◌∷◌, none, some, Text, codes, Result, ok,
}
use cnpg_plugin_pgbackrest.Host.{Host, ◌>>=◌, return, and_then, and_then-ok, from_result}
use cnpg_plugin_pgbackrest.Api.{PgbackrestConfiguration}
use cnpg_plugin_pgbackrest.Catalog.{Catalog, new_single_backup_catalog_from_pgbackrest_info}
use cnpg_plugin_pgbackrest.Catalog.Find.{get_backup_id_from_annotated_name}
use cnpg_plugin_pgbackrest.Catalog.Annotated.{
  LastAnnotated, search_unique, get_backup_id_from_annotated_name_lem,
}
use cnpg_plugin_pgbackrest.Command.Info.{
  get_backup_list, get_backup_by_annotated_name, execute_query_command, query_set,
  set_unless_missing,
}

abbrev name_key : Text
name_key = codes "cnpg-backup-name"

-- Where the report has a backup of that ID, and it is empty where no backup has the name.
id_of_annotated :
    (full : Catalog) (name id : Text)
    → LastAnnotated name_key name full.backups id
    → get_backup_id_from_annotated_name full name ≡ id
unfolding get_backup_id_from_annotated_name
id_of_annotated full name id = search_unique name_key name full.backups id

module _ (h : Host) (unmarshal : Text → Result (List Catalog)) (env : List Text)
    (c : PgbackrestConfiguration) (stanza : Text) where
  -- A query for an ID that does not fail gives a catalog.
  query_set-some :
      (id : Text) (s s' : h.State) → query_set h unmarshal env c stanza id s ≢ (ok none, s')
  unfolding query_set
  query_set-some id s s' e =
      let (raw, s1, queried, e1) =
        and_then-ok (execute_query_command h unmarshal env c stanza (codes "--set" ∷ id ∷ []) s)
          (λ raw.
            from_result (new_single_backup_catalog_from_pgbackrest_info unmarshal raw) >>= λ single.
            return (some single))
          none s' e in
      let (single, s2, decoded, e2) =
        and_then-ok (new_single_backup_catalog_from_pgbackrest_info unmarshal raw, s1)
          (λ single. return (some single)) none s' e1 in
      cc

  set_unless_missing-none :
      (id : Text) (s s' : h.State)
      → set_unless_missing h unmarshal env c stanza id s ≡ (ok none, s')
      → (id ≡ []) × (s ≡ s')
  unfolding set_unless_missing
  set_unless_missing-none [] s s' e = (refl, ap (λ p. p.1) e)
  set_unless_missing-none (b ∷ id) s s' e = absurd (query_set-some (b ∷ id) s s' e)

  missing_of_id :
      (name : Text) (full : Catalog) (s s' : h.State)
      → get_backup_list h unmarshal env c stanza s ≡ (ok full, s')
      → get_backup_id_from_annotated_name full name ≡ []
      → get_backup_by_annotated_name h unmarshal env c stanza name s ≡ (ok none, s')
  unfolding get_backup_by_annotated_name set_unless_missing
  missing_of_id name full s s' listed missing = rw (listed, and_then) (rw missing)

  -- The report can be read, and no backup in it has the name, or the last one that has it has an
  -- empty ID.
  abbrev pub IsUnnamed : Text → h.State → h.State → Type 0
  IsUnnamed name s s' =
      (full : Catalog) × (get_backup_list h unmarshal env c stanza s ≡ (ok full, s'))
      × LastAnnotated (codes "cnpg-backup-name") name full.backups []

  none-IsUnnamed :
      (name : Text) (s s' : h.State)
      → get_backup_by_annotated_name h unmarshal env c stanza name s ≡ (ok none, s')
      → IsUnnamed name s s'
  unfolding get_backup_by_annotated_name
  none-IsUnnamed name s s' e =
      let (full, s1, listed, e1) =
        and_then-ok (get_backup_list h unmarshal env c stanza s)
          (λ full.
            set_unless_missing h unmarshal env c stanza
              (get_backup_id_from_annotated_name full name))
          none s' e in
      let (empty, stay) =
        set_unless_missing-none (get_backup_id_from_annotated_name full name) s1 s' e1 in
      (
        full,
        listed ∙ ap (λ t. (ok full, t)) stay,
        subst (LastAnnotated name_key name full.backups) empty
            (get_backup_id_from_annotated_name_lem full name),
      )

-- The search by an annotated name ends with neither a catalog nor an error exactly where the report
-- can be read and no backup in it has the name, or the last backup that has it has an empty ID. The
-- state is then that after the report, so no query for a backup was made.
pub missing_name_no_error :
    (h : Host) (unmarshal : Text → Result (List Catalog)) (env : List Text)
    (c : PgbackrestConfiguration) (stanza name : Text) (s s' : h.State)
    → (get_backup_by_annotated_name h unmarshal env c stanza name s ≡ (ok none, s'))
      ↔ IsUnnamed h unmarshal env c stanza name s s'
missing_name_no_error h unmarshal env c stanza name s s' = (
  none-IsUnnamed h unmarshal env c stanza name s s',
  λ (full, listed, named).
      missing_of_id h unmarshal env c stanza name full s s' listed
        (id_of_annotated full name [] named),
)
