-- ===== src/Client/Searching.antt =====
-- Where the search of the cache ends.
use cnpg_plugin_pgbackrest.Base.{
  ℕ, suc, ◌+◌, ◌≡◌, refl, ap, inl, inr, Bool, true, false, ◌⊎◌, ◌||◌, List, [], ◌∷◌, some,
  get_elem?, All, arith,
}
use cnpg_plugin_pgbackrest.Client.Keys.{keys, has_key, key_eq_sound}
use cnpg_plugin_pgbackrest.Client.{
  at_entry, Key, Object, CachedEntry, is_expired, key_eq, Search, found, expired_at, absent,
  search_cache,
}

or_cases : (a b : Bool) → (a || b) ≡ false → (a ≡ false) × (b ≡ false)
or_cases false b h = (refl, h)
or_cases true b h = cc

found_inj : {o o' : Object} → found o ≡ found o' → o ≡ o'
found_inj h = cc

at_entry-found :
    (P : CachedEntry → Type 0) (key : Key) (now : ℕ) (e : CachedEntry) (same expired : Bool)
    (index : ℕ) (rest : Search) (o : Object)
    → P e
    → key_eq e.entry.key key ≡ same
    → is_expired e now ≡ expired
    → (rest ≡ found o
        → (e : CachedEntry) × P e
          × (e.entry ≡ o)
          × (e.entry.key ≡ key)
          × (is_expired e now ≡ false))
    → at_entry same expired e.entry index rest ≡ found o
    → (e : CachedEntry) × P e × (e.entry ≡ o) × (e.entry.key ≡ key) × (is_expired e now ≡ false)
unfolding at_entry
at_entry-found P key now e false expired index rest o p same young further h = further h
at_entry-found P key now e true true index rest o p same young further h = cc
at_entry-found P key now e true false index rest o p same young further h =
    (e, p, found_inj h, key_eq_sound e.entry.key key same, young)

-- A hit is an entry of that key that has not expired.
pub search-found :
    (P : CachedEntry → Type 0) (key : Key) (now : ℕ) (entries : List CachedEntry) (index : ℕ)
    (o : Object)
    → All P entries
    → search_cache key now entries index ≡ found o
    → (e : CachedEntry) × P e × (e.entry ≡ o) × (e.entry.key ≡ key) × (is_expired e now ≡ false)
unfolding search_cache
search-found P key now [] index o all h = cc
search-found P key now (e ∷ entries) index o all h =
    at_entry-found P key now e (key_eq e.entry.key key) (is_expired e now) index
      (search_cache key now entries (suc index)) o all.0 refl refl
      (search-found P key now entries (suc index) o all.1) h

at_entry-absent :
    (same expired : Bool) (o : Object) (index : ℕ) (rest : Search)
    → at_entry same expired o index rest ≡ absent
    → (same ≡ false) × (rest ≡ absent)
unfolding at_entry
at_entry-absent false expired o index rest h = (refl, h)
at_entry-absent true true o index rest h = cc
at_entry-absent true false o index rest h = cc

pub search-absent :
    (key : Key) (now : ℕ) (entries : List CachedEntry) (index : ℕ)
    → search_cache key now entries index ≡ absent
    → has_key key (keys entries) ≡ false
unfolding search_cache has_key
search-absent key now [] index h = refl
search-absent key now (e ∷ entries) index h =
    let (other, rest) =
      at_entry-absent (key_eq e.entry.key key) (is_expired e now) e.entry index
        (search_cache key now entries (suc index)) h in
    rw (other, search-absent key now entries (suc index) rest)

at_entry-expired :
    (same expired : Bool) (o : Object) (index i : ℕ) (rest : Search)
    → at_entry same expired o index rest ≡ expired_at i
    → ((same ≡ true) × (i ≡ index)) ⊎ (rest ≡ expired_at i)
unfolding at_entry
at_entry-expired false expired o index i rest h = inr h
at_entry-expired true true o index i rest h = inl (refl, cc)
at_entry-expired true false o index i rest h = cc

-- An expired entry has that key, and stands at the index.
pub search-expired :
    (key : Key) (now : ℕ) (entries : List CachedEntry) (index i : ℕ)
    → search_cache key now entries index ≡ expired_at i
    → (j : ℕ) × (i ≡ index + j) × (get_elem? (keys entries) j ≡ some key)
unfolding search_cache
search-expired key now [] index i h = cc
search-expired key now (e ∷ entries) index i h =
    elim (at_entry-expired (key_eq e.entry.key key) (is_expired e now) e.entry index i
      (search_cache key now entries (suc index)) h) [
        | inl (same, here) ↦ (0, omega (arith, here), ap some (key_eq_sound e.entry.key key same))
        | inr rest ↦
            let (j, place, there) = search-expired key now entries (suc index) i rest in
            (suc j, omega (arith, place), there)
      ]
