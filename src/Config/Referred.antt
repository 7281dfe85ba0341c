-- ===== src/Config/Referred.antt =====
-- The archives that a configuration refers to.
use cnpg_plugin_pgbackrest.Base.{
  Distinct, contains-snoc, Distinct-snoc, ◌≡◌, inl, inr, subst, true, not, ◌&&◌, ◌||◌, List, [],
  Text, str_eq, str_eq_sound, contains, is_nil, Bool-cases, arith,
}
use cnpg_plugin_pgbackrest.Config.{
  PluginConfiguration, add_unique, add_named, get_referred_archive_objects,
}

Distinct-add_named : (l : List Text) (n : Text) → Distinct l → Distinct (add_named l n)
unfolding add_named add_unique
Distinct-add_named l n d = elim (Bool-cases (is_nil n)) [
  | inl h ↦ rw h d
  | inr h ↦ elim (Bool-cases (contains l n)) [
    | inl there ↦ rw (h, there) d
    | inr fresh ↦ rw (h, fresh) (Distinct-snoc l n fresh d)
  ]
]

already :
    (l : List Text) (n m : Text) → contains l n ≡ true → contains l m ≡ (contains l m || str_eq n m)
already l n m h = elim (Bool-cases (str_eq n m)) [
  | inl same ↦
      let e : contains l m ≡ true = subst (λ k. contains l k ≡ true) (str_eq_sound n m same) h in
      rw e
  | inr differ ↦ rw differ (ground arith)
]

contains-add_named :
    (l : List Text) (n m : Text)
    → contains (add_named l n) m ≡ (contains l m || (not (is_nil n) && str_eq n m))
unfolding add_named add_unique
contains-add_named l n m = elim (Bool-cases (is_nil n)) [
  | inl h ↦ rw h (ground arith)
  | inr h ↦ elim (Bool-cases (contains l n)) [
    | inl there ↦ rw (h, there) (already l n m there)
    | inr fresh ↦ rw (h, fresh) (contains-snoc l n m)
  ]
]

-- The list of the archives that a configuration refers to has no name twice, and its names are the
-- ones of the three that are not empty.
pub get_referred_archive_objects_lem :
    (config : PluginConfiguration) (name : Text)
    → Distinct (get_referred_archive_objects config)
      × (contains (get_referred_archive_objects config) name ≡ (
          (not (is_nil config.pgbackrest_object_name) && str_eq config.pgbackrest_object_name name)
          || (not (is_nil config.recovery_pgbackrest_object_name)
              && str_eq config.recovery_pgbackrest_object_name name)
          || (not (is_nil config.replica_source_pgbackrest_object_name)
              && str_eq config.replica_source_pgbackrest_object_name name)))
unfolding get_referred_archive_objects contains
get_referred_archive_objects_lem config name =
    let a = config.pgbackrest_object_name in
    let b = config.recovery_pgbackrest_object_name in
    let c = config.replica_source_pgbackrest_object_name in
    let ea = contains-add_named [] a name in
    let eb = contains-add_named (add_named [] a) b name in
    let ec = contains-add_named (add_named (add_named [] a) b) c name in
    (
      Distinct-add_named (add_named (add_named [] a) b) c
          (Distinct-add_named (add_named [] a) b (Distinct-add_named [] a tt)),
      grind (arith, ea, eb, ec),
    )
