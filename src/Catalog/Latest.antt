-- ===== src/Catalog/Latest.antt =====
-- The latest and the first backup that are done, and the search by ID.
use mathlib.Core.List.{reverse, reverse-append, reverse-reverse}
use cnpg_plugin_pgbackrest.Base.{
  ◌≡◌, inl, inr, refl, sym, ap, ◌∙◌, subst, true, false, ◌&&◌, List, [], ◌∷◌, ◌++◌, append_assoc,
  Option, none, some, Text, str_eq, str_eq_iff, is_nil, Result, ok, err, All, All-append,
  Bool-cases, arith,
}
use cnpg_plugin_pgbackrest.Catalog.{PgbackrestBackup, Catalog, is_backup_done, first_done}
use cnpg_plugin_pgbackrest.Catalog.Find.{
  latest_backup_info, get_last_successful_backup_time, first_recoverability_point, stop_of,
  find_backup_from_id, search_id, found_id,
}

abbrev pub NoneDone : List PgbackrestBackup → Type 0
NoneDone = All (λ b. is_backup_done b ≡ false)

-- The first backup of the list that is done, `none` where none is.
abbrev pub IsFirstDone : List PgbackrestBackup → Option PgbackrestBackup → Type 0
IsFirstDone l none = NoneDone l
IsFirstDone l (some b) =
    (before : List PgbackrestBackup) × (after : List PgbackrestBackup) × (l ≡ before ++ b ∷ after)
    × (is_backup_done b ≡ true)
    × NoneDone before

-- The last one.
abbrev pub IsLastDone : List PgbackrestBackup → Option PgbackrestBackup → Type 0
IsLastDone l none = NoneDone l
IsLastDone l (some b) =
    (older : List PgbackrestBackup) × (newer : List PgbackrestBackup) × (l ≡ older ++ b ∷ newer)
    × (is_backup_done b ≡ true)
    × NoneDone newer

IsFirstDone-cons :
    (b : PgbackrestBackup) (l : List PgbackrestBackup) (o : Option PgbackrestBackup)
    → is_backup_done b ≡ false
    → IsFirstDone l o
    → IsFirstDone (b ∷ l) o
IsFirstDone-cons b l none h i = (h, i)
IsFirstDone-cons b l (some x) h (before, after, e, d, m) =
    (b ∷ before, after, ap (λ t. b ∷ t) e, d, (h, m))

first_done_lem : (l : List PgbackrestBackup) → IsFirstDone l (first_done l)
unfolding first_done
first_done_lem [] = tt
first_done_lem (b ∷ l) = elim (Bool-cases (is_backup_done b)) [
  | inl done ↦ rw done ([], l, refl, done, tt)
  | inr other ↦ rw other (IsFirstDone-cons b l (first_done l) other (first_done_lem l))
]

NoneDone-reverse : (l : List PgbackrestBackup) → NoneDone l → NoneDone (reverse l)
NoneDone-reverse [] h = tt
NoneDone-reverse (x ∷ l) h =
    subst NoneDone (sym (reverse-append (x ∷ []) l))
      (All-append _ (reverse l) (x ∷ []) (NoneDone-reverse l h.1) (h.0, tt))

pub reverse_split :
    (l before after : List PgbackrestBackup) (b : PgbackrestBackup)
    → reverse l ≡ before ++ b ∷ after
    → l ≡ reverse after ++ b ∷ reverse before
reverse_split l before after b e =
    sym (reverse-reverse l)
    ∙ ap reverse e
    ∙ reverse-append before (b ∷ after)
    ∙ ap (λ t. t ++ reverse before) (reverse-append (b ∷ []) after)
    ∙ append_assoc (reverse after) (b ∷ []) (reverse before)

-- The first of the reversed list is the last.
IsLastDone-reverse :
    (l : List PgbackrestBackup) (o : Option PgbackrestBackup)
    → IsFirstDone (reverse l) o
    → IsLastDone l o
IsLastDone-reverse l none h = subst NoneDone (reverse-reverse l) (NoneDone-reverse (reverse l) h)
IsLastDone-reverse l (some b) (before, after, e, d, m) =
    (reverse after, reverse before, reverse_split l before after b e, d, NoneDone-reverse before m)

-- `LatestBackupInfo` gives the last backup of the catalog that is done, and the time of the last
-- success is when that one stopped; the first recoverability point is when the first backup that is
-- done stopped. All three are empty exactly for a catalog with none.
pub last_and_first_backup :
    (c : Catalog)
    → IsLastDone c.backups (latest_backup_info c)
      × (get_last_successful_backup_time c ≡ stop_of (latest_backup_info c))
      × ((first : Option PgbackrestBackup) × IsFirstDone c.backups first
          × (first_recoverability_point c ≡ stop_of first))
unfolding latest_backup_info get_last_successful_backup_time first_recoverability_point
last_and_first_backup c = (
  IsLastDone-reverse c.backups (first_done (reverse c.backups))
      (first_done_lem (reverse c.backups)),
  refl,
  (first_done c.backups, first_done_lem c.backups, refl),
)

-- No backup of the list is done and has the ID.
abbrev pub NoneWithId : Text → List PgbackrestBackup → Type 0
NoneWithId id = All (λ b. (is_backup_done b && str_eq b.id id) ≡ false)

abbrev pub IsFirstWithId : Text → List PgbackrestBackup → Result (Option PgbackrestBackup) → Type 0
IsFirstWithId id l (err e) = NoneWithId id l
IsFirstWithId id l (ok none) = ⊥
IsFirstWithId id l (ok (some b)) =
    (before : List PgbackrestBackup) × (after : List PgbackrestBackup) × (l ≡ before ++ b ∷ after)
    × (is_backup_done b ≡ true)
    × (b.id ≡ id)
    × NoneWithId id before

IsFirstWithId-cons :
    (id : Text) (b : PgbackrestBackup) (l : List PgbackrestBackup) (o : Option PgbackrestBackup)
    → (is_backup_done b && str_eq b.id id) ≡ false
    → IsFirstWithId id l (found_id o)
    → IsFirstWithId id (b ∷ l) (found_id o)
unfolding found_id
IsFirstWithId-cons id b l none h i = (h, i)
IsFirstWithId-cons id b l (some x) h (before, after, e, d, same, m) =
    (b ∷ before, after, ap (λ t. b ∷ t) e, d, same, (h, m))

search_id_lem :
    (id : Text) (l : List PgbackrestBackup) → IsFirstWithId id l (found_id (search_id id l))
unfolding search_id found_id
search_id_lem id [] = tt
search_id_lem id (b ∷ l) = elim (Bool-cases (is_backup_done b && str_eq b.id id)) [
  | inl hit ↦ rw hit ([], l, refl, ground arith, (str_eq_iff b.id id).0 (ground arith), tt)
  | inr miss ↦ rw miss (IsFirstWithId-cons id b l (search_id id l) miss (search_id_lem id l))
]

-- A search by a given ID finds the first backup of the catalog that is done and has it, and is an
-- error where there is none; it never answers with no backup and no error.
pub find_backup_from_id_lem :
    (c : Catalog) (id : Text)
    → is_nil id ≡ false
    → IsFirstWithId id c.backups (find_backup_from_id c id)
unfolding find_backup_from_id
find_backup_from_id_lem c id h = rw h (search_id_lem id c.backups)
