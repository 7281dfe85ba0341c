-- ===== src/Catalog/Annotated.antt =====
-- The search for a backup by the name in its annotation.
use mathlib.Core.List.{reverse, reverse-append, reverse-reverse}
use cnpg_plugin_pgbackrest.Base.{
  ◌≡◌, ◌⊎◌, inl, inr, refl, sym, ap, ◌∙◌, subst, true, false, List, [], ◌∷◌, ◌++◌, append_assoc,
  Text, codes, str_eq, str_eq_iff, All, All-append, Bool-cases,
}
use cnpg_plugin_pgbackrest.Catalog.{PgbackrestBackup, Catalog}
use cnpg_plugin_pgbackrest.Catalog.Find.{
  search_annotated, annotation, get_backup_id_from_annotated_name,
}
use cnpg_plugin_pgbackrest.Catalog.Latest.{reverse_split}

abbrev pub Unannotated : Text → Text → List PgbackrestBackup → Type 0
Unannotated key name = All (λ b. str_eq (annotation key b.annotations) name ≡ false)

-- The ID of the first backup of the list with the annotation, or the empty text where none has it.
abbrev FirstAnnotated : Text → Text → List PgbackrestBackup → Text → Type 0
FirstAnnotated key name l id =
    ((b : PgbackrestBackup) × (before : List PgbackrestBackup) × (after : List PgbackrestBackup)
      × (l ≡ before ++ b ∷ after)
      × (id ≡ b.id)
      × (annotation key b.annotations ≡ name)
      × Unannotated key name before)
    ⊎ ((id ≡ []) × Unannotated key name l)

abbrev pub LastAnnotated : Text → Text → List PgbackrestBackup → Text → Type 0
LastAnnotated key name l id =
    ((b : PgbackrestBackup) × (older : List PgbackrestBackup) × (newer : List PgbackrestBackup) × (l
        ≡ older ++ b ∷ newer)
      × (id ≡ b.id)
      × (annotation key b.annotations ≡ name)
      × Unannotated key name newer)
    ⊎ ((id ≡ []) × Unannotated key name l)

module _ (key name : Text) where
  annotated-cons :
      (b : PgbackrestBackup) (l : List PgbackrestBackup) (id : Text)
      → str_eq (annotation key b.annotations) name ≡ false
      → FirstAnnotated key name l id
      → FirstAnnotated key name (b ∷ l) id
  annotated-cons b l id h (inl (x, before, after, e, i, a, m)) =
      inl (x, b ∷ before, after, ap (λ t. b ∷ t) e, i, a, (h, m))
  annotated-cons b l id h (inr (i, m)) = inr (i, (h, m))

  search_hit :
      (b : PgbackrestBackup) (l : List PgbackrestBackup)
      → str_eq (annotation key b.annotations) name ≡ true
      → search_annotated key name (b ∷ l) ≡ b.id
  unfolding search_annotated
  search_hit b l h = rw h

  search_miss :
      (b : PgbackrestBackup) (l : List PgbackrestBackup)
      → str_eq (annotation key b.annotations) name ≡ false
      → search_annotated key name (b ∷ l) ≡ search_annotated key name l
  unfolding search_annotated
  search_miss b l h = rw h

  search_annotated_lem :
      (l : List PgbackrestBackup) → FirstAnnotated key name l (search_annotated key name l)
  search_annotated_lem [] = inr (unfold search_annotated in refl, tt)
  search_annotated_lem (b ∷ l) = elim (Bool-cases (str_eq (annotation key b.annotations) name)) [
    | inl hit ↦ inl (
      b,
      [],
      l,
      refl,
      search_hit b l hit,
      (str_eq_iff (annotation key b.annotations) name).0 hit,
      tt,
    )
    | inr miss ↦
        subst (FirstAnnotated key name (b ∷ l)) (sym (search_miss b l miss))
          (annotated-cons b l (search_annotated key name l) miss (search_annotated_lem l))
  ]

  Unannotated-reverse :
      (l : List PgbackrestBackup) → Unannotated key name l → Unannotated key name (reverse l)
  Unannotated-reverse [] h = tt
  Unannotated-reverse (x ∷ l) h =
      subst (Unannotated key name) (sym (reverse-append (x ∷ []) l))
        (All-append _ (reverse l) (x ∷ []) (Unannotated-reverse l h.1) (h.0, tt))

  annotated-reverse :
      (l : List PgbackrestBackup) (id : Text)
      → FirstAnnotated key name (reverse l) id
      → LastAnnotated key name l id
  annotated-reverse l id (inl (b, before, after, e, i, a, m)) = inl (
    b,
    reverse after,
    reverse before,
    reverse_split l before after b e,
    i,
    a,
    Unannotated-reverse before m,
  )
  annotated-reverse l id (inr (i, m)) =
      inr (i, subst (Unannotated key name) (reverse-reverse l) (Unannotated-reverse (reverse l) m))

module _ (key name : Text) where
  search_to :
      (before after : List PgbackrestBackup) (b : PgbackrestBackup)
      → Unannotated key name before
      → annotation key b.annotations ≡ name
      → search_annotated key name (before ++ b ∷ after) ≡ b.id
  search_to [] after b m h =
      search_hit key name b after ((str_eq_iff (annotation key b.annotations) name).1 h)
  search_to (x ∷ before) after b (m, ms) h =
      search_miss key name x (before ++ b ∷ after) m ∙ search_to before after b ms h

  search_none :
      (l : List PgbackrestBackup) → Unannotated key name l → search_annotated key name l ≡ []
  search_none [] m = unfold search_annotated in refl
  search_none (x ∷ l) (m, ms) = search_miss key name x l m ∙ search_none l ms

  -- The search gives the only ID that a last annotated backup can have.
  pub search_unique :
      (l : List PgbackrestBackup) (id : Text)
      → LastAnnotated key name l id
      → search_annotated key name (reverse l) ≡ id
  search_unique l id (inl (b, older, newer, split, same, named, m)) =
      ap (λ r. search_annotated key name (reverse r)) split
      ∙ ap (search_annotated key name) (
          reverse-append older (b ∷ newer)
          ∙ ap (λ r. r ++ reverse older) (reverse-append (b ∷ []) newer)
          ∙ append_assoc (reverse newer) (b ∷ []) (reverse older))
      ∙ search_to (reverse newer) (reverse older) b (Unannotated-reverse key name newer m) named
      ∙ sym same
  search_unique l id (inr (same, m)) =
      search_none (reverse l) (Unannotated-reverse key name l m) ∙ sym same

-- A backup is found by the name in its annotation `cnpg-backup-name`: of the last backup in the
-- catalog that has the name, the ID; of a catalog where none has it, the empty text. A backup with no
-- such annotation has the empty name.
pub get_backup_id_from_annotated_name_lem :
    (c : Catalog) (name : Text)
    → LastAnnotated
        (codes "cnpg-backup-name")
        name
        c.backups
        (get_backup_id_from_annotated_name c name)
unfolding get_backup_id_from_annotated_name
get_backup_id_from_annotated_name_lem c name =
    annotated-reverse (codes "cnpg-backup-name") name c.backups _
      (search_annotated_lem (codes "cnpg-backup-name") name (reverse c.backups))
