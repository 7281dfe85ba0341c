-- ===== src/Client/Coherent.antt =====
-- A cache whose entries are what the server would answer.
use mathlib.Core.List.{map-append}
use cnpg_plugin_pgbackrest.Base.{
  ℕ, ◌+◌, ◌≡◌, refl, sym, ap, subst, ◌∙◌, ◌≢◌, get_elem?, inl, inr, Bool, true, false, List, [],
  ◌∷◌, ◌++◌, if◌then◌else◌, ok, All, All-append, Bool-cases, arith,
}
use cnpg_plugin_pgbackrest.Client.{
  Key, Object, Write, Server, CachedEntry, key_eq, is_object_cached, Search, found, expired_at,
  absent, search_cache, store_fetched, remove_object,
}
use cnpg_plugin_pgbackrest.Client.Keys.{
  keys, has_key, Unique, Unique-snoc, key_eq_sound, keys-set, Unique-remove, All-remove, All-set,
  All-map,
}
use cnpg_plugin_pgbackrest.Client.Searching.{search-absent, search-expired}
use cnpg_plugin_pgbackrest.Client.Alone.{Same, IsAlone}

no_offset : (i j : ℕ) → i ≡ 0 + j → i ≡ j
no_offset i j h = omega (arith, h)

clash : true ≢ false
clash h = cc

-- Two keys of which only one is of a type that is cached.
other_kind_key :
    (a b : Key)
    → is_object_cached a.kind ≡ true
    → is_object_cached b.kind ≡ false
    → key_eq a b ≡ false
other_kind_key a b cached uncached = elim (Bool-cases (key_eq a b)) [
  | inl same ↦
      absurd
        (clash (sym cached ∙ ap (λ k. is_object_cached k.kind) (key_eq_sound a b same) ∙ uncached))
  | inr other ↦ other
]

module _ (server : Server) where
  -- An entry of the cache is of a type that is cached, and is what the server would answer.
  abbrev pub Current : server.State → CachedEntry → Type 0
  Current s e =
      (is_object_cached e.entry.key.kind ≡ true) × ((server.get e.entry.key s).0 ≡ ok e.entry)

  abbrev pub Coherent : server.State → List CachedEntry → Type 0
  Coherent s entries = Unique (keys entries) × All (Current s) entries

  pub Coherent-Same :
      (s s' : server.State) (entries : List CachedEntry)
      → Same server s' s
      → Coherent s entries
      → Coherent s' entries
  Coherent-Same s s' entries same (u, all) = (
    u,
    All-map (Current s) (Current s') entries
        (λ e (cached, current). (cached, same e.entry.key ∙ current)) all,
  )

  Coherent-snoc :
      (s : server.State) (entries : List CachedEntry) (e : CachedEntry)
      → Coherent s entries
      → has_key e.entry.key (keys entries) ≡ false
      → Current s e
      → Coherent s (entries ++ e ∷ [])
  Coherent-snoc s entries e (u, all) fresh current = (
    subst Unique (sym (map-append (λ (x : CachedEntry). x.entry.key) entries (e ∷ [])))
        (Unique-snoc (keys entries) e.entry.key u fresh),
    All-append (Current s) entries (e ∷ []) all (current, tt),
  )

  -- A cache that a fetched object is stored in.
  pub store-Coherent :
      (s : server.State) (entries : List CachedEntry) (now : ℕ) (e : CachedEntry)
      (searched : Search)
      → Coherent s entries
      → Current s e
      → ((o : Object) → searched ≢ found o)
      → search_cache e.entry.key now entries 0 ≡ searched
      → Coherent s (store_fetched searched e entries)
  unfolding store_fetched
  store-Coherent s entries now e (found o) coherent current miss h = absurd (miss o refl)
  store-Coherent s entries now e (expired_at i) (u, all) current miss h =
      let (j, place, there) = search-expired e.entry.key now entries 0 i h in
      (
        subst Unique
            (sym
              (keys-set entries i e (ap (get_elem? (keys entries)) (no_offset i j place) ∙ there)))
            u,
        All-set (Current s) entries i e all current,
      )
  store-Coherent s entries now e absent coherent current miss h =
      Coherent-snoc s entries e coherent (search-absent e.entry.key now entries 0 h) current

module _ (server : Server) (alone : IsAlone server) where
  -- The cache after a write, for an object of a type that is cached and for another one.
  pub write-Coherent :
      (b : Bool) (w : Write) (o : Object) (s : server.State) (entries : List CachedEntry)
      → is_object_cached o.key.kind ≡ b
      → Coherent server s entries
      → Coherent server (server.write w o s).1 (if b then remove_object o.key entries else entries)
  write-Coherent true w o s entries cached (u, all) = (
    Unique-remove o.key entries u,
    All-remove o.key entries (Current server s) (Current server (server.write w o s).1) u all
        (λ e other (kept, current). (kept, alone.write-other w o e.entry.key s other ∙ current)),
  )
  write-Coherent false w o s entries uncached (u, all) = (
    u,
    All-map (Current server s) (Current server (server.write w o s).1) entries
        (λ e (cached, current). (
          cached,
          alone.write-other w o e.entry.key s (other_kind_key e.entry.key o.key cached uncached)
              ∙ current,
        ))
        all,
  )
