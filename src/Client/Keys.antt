-- ===== src/Client/Keys.antt =====
-- The keys of the cache: no two entries have one.
use mathlib.Core.List.{map}
use cnpg_plugin_pgbackrest.Base.{
  ℕ, suc, ◌≡◌, refl, sym, ap, subst, ◌∙◌, inl, inr, Bool, true, false, ◌≢◌, zero, ◌||◌, List, [],
  ◌∷◌, ◌++◌, some, str_eq_iff, str_eq_self, str_eq_sound, get_elem?, set, All, Bool-cases, arith,
}
use cnpg_plugin_pgbackrest.Client.{
  Kind, secret_kind, archive_kind, other_kind, Key, CachedEntry, kind_eq, key_eq, remove_object,
}

kind_eq_sound : (a b : Kind) → kind_eq a b ≡ true → a ≡ b
unfolding kind_eq
kind_eq_sound secret_kind secret_kind h = refl
kind_eq_sound secret_kind archive_kind h = cc
kind_eq_sound secret_kind (other_kind b) h = cc
kind_eq_sound archive_kind secret_kind h = cc
kind_eq_sound archive_kind archive_kind h = refl
kind_eq_sound archive_kind (other_kind b) h = cc
kind_eq_sound (other_kind a) secret_kind h = cc
kind_eq_sound (other_kind a) archive_kind h = cc
kind_eq_sound (other_kind a) (other_kind b) h = ap other_kind (str_eq_sound a b h)

kind_eq_self : (a : Kind) → kind_eq a a ≡ true
unfolding kind_eq
kind_eq_self secret_kind = refl
kind_eq_self archive_kind = refl
kind_eq_self (other_kind a) = str_eq_self a

pub key_eq_sound : (a b : Key) → key_eq a b ≡ true → a ≡ b
unfolding key_eq
key_eq_sound a b h = ground (
  arith,
  str_eq_iff a.namespace b.namespace,
  str_eq_iff a.name b.name,
  kind_eq_sound a.kind b.kind,
)

pub key_eq_self : (a : Key) → key_eq a a ≡ true
unfolding key_eq
key_eq_self a = rw (str_eq_self a.namespace, str_eq_self a.name, kind_eq_self a.kind)

clash : true ≢ false
clash h = cc

pub key_eq_flip : (a b : Key) → key_eq a b ≡ false → key_eq b a ≡ false
key_eq_flip a b h = elim (Bool-cases (key_eq b a)) [
  | inl same ↦
      absurd (clash (sym (key_eq_self a) ∙ ap (key_eq a) (sym (key_eq_sound b a same)) ∙ h))
  | inr other ↦ other
]

abbrev pub keys : List CachedEntry → List Key
keys = map (λ e. e.entry.key)

unfoldable pub has_key : Key → List Key → Bool
has_key k [] = false
has_key k (x ∷ ks) = key_eq x k || has_key k ks

abbrev pub Unique : List Key → Type 0
Unique [] = Unit
Unique (k ∷ ks) = (has_key k ks ≡ false) × Unique ks

has_key-snoc : (k x : Key) (ks : List Key) → has_key k (ks ++ x ∷ []) ≡ (has_key k ks || key_eq x k)
unfolding has_key
has_key-snoc k x [] = ground arith
has_key-snoc k x (y ∷ ks) = ground (arith, has_key-snoc k x ks)

pub Unique-snoc :
    (ks : List Key) (x : Key) → Unique ks → has_key x ks ≡ false → Unique (ks ++ x ∷ [])
unfolding has_key
Unique-snoc [] x u h = (refl, tt)
Unique-snoc (y ∷ ks) x (fresh, u) h =
    (has_key-snoc y x ks ∙ ground (arith, key_eq_flip y x), Unique-snoc ks x u (ground arith))

some_inj : {a b : Key} → some a ≡ some b → b ≡ a
some_inj h = cc

-- An entry over one of its key leaves the keys.
pub keys-set :
    (entries : List CachedEntry) (j : ℕ) (e : CachedEntry)
    → get_elem? (keys entries) j ≡ some e.entry.key
    → keys (set entries j e) ≡ keys entries
keys-set [] j e h = refl
keys-set (x ∷ entries) zero e h = ap (λ k. k ∷ keys entries) (some_inj h)
keys-set (x ∷ entries) (suc j) e h = ap (λ ks. x.entry.key ∷ ks) (keys-set entries j e h)

-- Two cases of a removal at the head of the cache.
remove_here :
    (key : Key) (e : CachedEntry) (entries : List CachedEntry)
    → key_eq e.entry.key key ≡ true
    → remove_object key (e ∷ entries) ≡ entries
unfolding remove_object
remove_here key e entries h = rw h

remove_further :
    (key : Key) (e : CachedEntry) (entries : List CachedEntry)
    → key_eq e.entry.key key ≡ false
    → remove_object key (e ∷ entries) ≡ e ∷ remove_object key entries
unfolding remove_object
remove_further key e entries h = rw h

-- A removal brings no key.
has_key-remove :
    (key k : Key) (entries : List CachedEntry)
    → has_key k (keys entries) ≡ false
    → has_key k (keys (remove_object key entries)) ≡ false
unfolding has_key remove_object
has_key-remove key k [] h = refl
has_key-remove key k (e ∷ entries) h = ground (arith, has_key-remove key k entries)

pub Unique-remove :
    (key : Key) (entries : List CachedEntry)
    → Unique (keys entries)
    → Unique (keys (remove_object key entries))
unfolding remove_object
Unique-remove key [] u = u
Unique-remove key (e ∷ entries) u = elim (Bool-cases (key_eq e.entry.key key)) [
  | inl same ↦ subst (λ l. Unique (keys l)) (sym (remove_here key e entries same)) u.1
  | inr other ↦
      subst (λ l. Unique (keys l)) (sym (remove_further key e entries other))
        (has_key-remove key e.entry.key entries u.0, Unique-remove key entries u.1)
]

All-others :
    (key : Key) (entries : List CachedEntry) (P Q : CachedEntry → Type 0)
    → has_key key (keys entries) ≡ false
    → All P entries
    → ((e : CachedEntry) → key_eq e.entry.key key ≡ false → P e → Q e)
    → All Q entries
unfolding has_key
All-others key [] P Q h all keep = tt
All-others key (e ∷ entries) P Q h all keep =
    (keep e (ground (arith, h)) all.0, All-others key entries P Q (ground (arith, h)) all.1 keep)

-- The entries that a removal leaves have other keys.
pub All-remove :
    (key : Key) (entries : List CachedEntry) (P Q : CachedEntry → Type 0)
    → Unique (keys entries)
    → All P entries
    → ((e : CachedEntry) → key_eq e.entry.key key ≡ false → P e → Q e)
    → All Q (remove_object key entries)
unfolding remove_object
All-remove key [] P Q u all keep = tt
All-remove key (e ∷ entries) P Q u all keep = elim (Bool-cases (key_eq e.entry.key key)) [
  | inl same ↦ subst (All Q) (sym (remove_here key e entries same)) (
      All-others key entries P Q
        (subst (λ k. has_key k (keys entries) ≡ false) (key_eq_sound e.entry.key key same) u.0)
        all.1 keep)
  | inr other ↦
      subst (All Q) (sym (remove_further key e entries other))
        (keep e other all.0, All-remove key entries P Q u.1 all.1 keep)
]

module _ (P : CachedEntry → Type 0) where
  pub All-set :
      (entries : List CachedEntry) (j : ℕ) (e : CachedEntry)
      → All P entries
      → P e
      → All P (set entries j e)
  All-set [] j e all p = tt
  All-set (x ∷ entries) zero e all p = (p, all.1)
  All-set (x ∷ entries) (suc j) e all p = (all.0, All-set entries j e all.1 p)

  pub All-map :
      (Q : CachedEntry → Type 0) (entries : List CachedEntry)
      → ((e : CachedEntry) → P e → Q e)
      → All P entries
      → All Q entries
  All-map Q [] f all = tt
  All-map Q (x ∷ entries) f all = (f x all.0, All-map Q entries f all.1)
