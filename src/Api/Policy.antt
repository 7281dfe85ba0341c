-- ===== src/Api/Policy.antt =====
-- When the stanza is created: the methods of `PgbackrestConfiguration` in
-- internal/pgbackrest/api/config.go.
use cnpg_plugin_pgbackrest.Base.{
  ℕ, ◌≡◌, refl, ◌∷◌, sym, ap, str_eq_self, str_eq_sound, Bool, true, false, not, Text, codes,
  str_eq, is_nil, ◌&&◌, if◌then◌else◌, ◌↔◌, ◌⊎◌, arith, [], inl, inr,
}
use cnpg_plugin_pgbackrest.Api.{PgbackrestConfiguration}

abbrev pub on_first_archive : Text
unfolding codes
on_first_archive = codes "OnFirstArchive"

abbrev pub on_backup : Text
unfolding codes
on_backup = codes "OnBackup"

abbrev pub disabled : Text
unfolding codes
disabled = codes "Disabled"

-- `GetCreateStanzaPolicy`
unfoldable pub get_create_stanza_policy : PgbackrestConfiguration → Text
unfolding codes
get_create_stanza_policy c = if is_nil c.create_stanza then on_first_archive else c.create_stanza

-- `ShouldCreateStanzaOnArchive`
unfoldable pub should_create_stanza_on_archive : PgbackrestConfiguration → Bool
unfolding get_create_stanza_policy str_eq
should_create_stanza_on_archive c = str_eq (get_create_stanza_policy c) on_first_archive

-- `ShouldCreateStanzaOnBackup`
unfoldable pub should_create_stanza_on_backup : PgbackrestConfiguration → Bool
unfolding get_create_stanza_policy str_eq
should_create_stanza_on_backup c = not (str_eq (get_create_stanza_policy c) disabled)

first_or_default :
    (first t : Text)
    → (str_eq (if is_nil t then first else t) first ≡ true) ↔ ((t ≡ []) ⊎ (t ≡ first))
first_or_default first [] = (λ _. inl refl, λ _. str_eq_self first)
first_or_default first (x ∷ xs) = (
  λ h. inr (str_eq_sound (x ∷ xs) first h),
  λ h. elim h [ inl e ↦ cc | inr e ↦ rw e (str_eq_self first) ],
)

disabled_only :
    (first off t : Text)
    → str_eq first off ≡ false
    → is_nil off ≡ false
    → (not (str_eq (if is_nil t then first else t) off) ≡ false) ↔ (t ≡ off)
disabled_only first off [] differ nonempty =
    (λ h. absurd (not_both differ h), λ e. absurd (nil_not e nonempty))
  where
    not_both : str_eq first off ≡ false → not (str_eq first off) ≡ false → ⊥
    not_both d h = ground arith

    nil_not : [] ≡ off → is_nil off ≡ false → ⊥
    nil_not e n = let q : is_nil {A = ℕ} [] ≡ false = rw (sym e) at n in cc
disabled_only first off (x ∷ xs) differ nonempty =
    (λ h. str_eq_sound (x ∷ xs) off (ground arith), λ e. rw e (ap not (str_eq_self off)))

first_ne_disabled : str_eq on_first_archive disabled ≡ false
unfolding codes str_eq
first_ne_disabled = refl

disabled_ne_nil : is_nil disabled ≡ false
unfolding codes
disabled_ne_nil = refl

never_apart : (a b : Bool) → (a ≡ true → b ≡ true) → (a && not b) ≡ false
never_apart true b h = ap not (h refl)
never_apart false b h = refl

archive_then_backup :
    (c : PgbackrestConfiguration)
    → (should_create_stanza_on_archive c && not (should_create_stanza_on_backup c)) ≡ false
unfolding should_create_stanza_on_archive should_create_stanza_on_backup
archive_then_backup c = never_apart _ _ (λ h.
    rw (str_eq_sound (get_create_stanza_policy c) on_first_archive h) (ap not first_ne_disabled))

-- The archive path creates a missing stanza exactly under the policy `OnFirstArchive`, given or by
-- default; the backup path creates it under every policy but `Disabled`; so a configuration that
-- creates it on archiving creates it on a backup too.
pub should_create_stanza_iff :
    (c : PgbackrestConfiguration)
    → ((should_create_stanza_on_archive c ≡ true)
        ↔ ((c.create_stanza ≡ []) ⊎ (c.create_stanza ≡ on_first_archive)))
      × ((should_create_stanza_on_backup c ≡ false) ↔ (c.create_stanza ≡ disabled))
      × ((should_create_stanza_on_archive c && not (should_create_stanza_on_backup c)) ≡ false)
unfolding should_create_stanza_on_archive should_create_stanza_on_backup
should_create_stanza_iff c = (
  first_or_default on_first_archive c.create_stanza,
  disabled_only on_first_archive disabled c.create_stanza first_ne_disabled disabled_ne_nil,
  archive_then_backup c,
)
