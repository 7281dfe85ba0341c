-- ===== src/Client/Fresh.antt =====
-- How old an object from the cache can be, whoever else writes to the server.
use cnpg_plugin_pgbackrest.Base.{
  ℕ, ◌+◌, ◌*◌, ◌/◌, ◌≤◌, ◌≡◌, ◌⊎◌, inl, inr, refl, ap, subst, ◌∙◌, Bool, true, false, List, [], ◌∷◌,
  Result, ok, err, All, All-append, arith,
}
use cnpg_plugin_pgbackrest.Client.{
  Key, Object, Server, CachedEntry, ClientState, Search, found, expired_at, absent, search_cache,
  is_expired, is_object_cached, store_fetched, new_entry, fetched, from_search, get_cached_object,
  keep_cache, get_by, get, second,
}
use cnpg_plugin_pgbackrest.Client.Keys.{All-set}
use cnpg_plugin_pgbackrest.Client.Searching.{search-found}

ok_inj : {a b : Object} → ok a ≡ ok b → a ≡ b
ok_inj h = cc

-- What a reader knows of an object and a second, such as that the server gave the object then; it
-- holds of each object that the server gives, at the second after the call.
module _ (server : Server) (Given : Object → ℕ → Type 0)
    (gives : (key : Key) (o : Object) (s s' : server.State)
      → server.get key s ≡ (ok o, s')
      → Given o (server.now s' / second)) where
  -- An entry of the cache was given at the time that it has, for ten seconds.
  abbrev pub Known : CachedEntry → Type 0
  Known e = Given e.entry e.fetch_unix_time × (e.ttl ≡ 10 * second)

  -- The object was given at a second that lies no more than ten seconds back.
  abbrev pub IsRecent : Object → ℕ → Type 0
  IsRecent o now = (t : ℕ) × Given o t × (now ≤ (t + 10) * second)

  abbrev IsAnswer : Key → ClientState server.State → Object → ClientState server.State → Type 0
  IsAnswer key c o c' = IsRecent o (server.now c.base) ⊎ (server.get key c.base ≡ (ok o, c'.base))

  young_time :
      (e : CachedEntry) (now : ℕ)
      → e.ttl ≡ 10 * second
      → is_expired e now ≡ false
      → now ≤ (e.fetch_unix_time + 10) * second
  unfolding is_expired
  young_time e now ttl young = ground arith

  stored-Known :
      (searched : Search) (entries : List CachedEntry) (e : CachedEntry)
      → All Known entries
      → Known e
      → All Known (store_fetched searched e entries)
  unfolding store_fetched
  stored-Known (found o) entries e all known = All-append Known entries (e ∷ []) all (known, tt)
  stored-Known (expired_at i) entries e all known = All-set Known entries i e all known
  stored-Known absent entries e all known = All-append Known entries (e ∷ []) all (known, tt)

  fetched-Known :
      (searched : Search) (key : Key) (c c' : ClientState server.State) (o : Object)
      (p : Result Object × server.State)
      → server.get key c.base ≡ p
      → All Known c.cached_objects
      → fetched server searched c.cached_objects p ≡ (ok o, c')
      → All Known c'.cached_objects × IsAnswer key c o c'
  unfolding fetched new_entry
  fetched-Known searched key c c' o (err e, s) got all h = cc
  fetched-Known searched key c c' o (ok given, s) got all h =
      let e = new_entry given (server.now s) in
      (
        subst (λ (x : ClientState server.State). All Known x.cached_objects) (ap (λ q. q.1) h)
            (stored-Known searched c.cached_objects e all (gives key given c.base s got, refl)),
        inr (got ∙ ap (λ (q : Result Object × ClientState server.State). (q.0, q.1.base)) h),
      )

  from_search-Known :
      (searched : Search) (key : Key) (c c' : ClientState server.State) (o : Object)
      → search_cache key (server.now c.base) c.cached_objects 0 ≡ searched
      → All Known c.cached_objects
      → from_search server searched key c ≡ (ok o, c')
      → All Known c'.cached_objects × IsAnswer key c o c'
  unfolding from_search
  from_search-Known (found given) key c c' o at all h =
      let (e, (given_then, ttl), entry, named, young) =
        search-found Known key (server.now c.base) c.cached_objects 0 given all at in
      (
        subst (λ (x : ClientState server.State). All Known x.cached_objects) (ap (λ q. q.1) h) all,
        inl (
          e.fetch_unix_time,
          subst (λ x. Given x e.fetch_unix_time) (entry ∙ ok_inj (ap (λ q. q.0) h)) given_then,
          young_time e (server.now c.base) ttl young,
        ),
      )
  from_search-Known (expired_at i) key c c' o at all h =
      fetched-Known (expired_at i) key c c' o (server.get key c.base) refl all h
  from_search-Known absent key c c' o at all h =
      fetched-Known absent key c c' o (server.get key c.base) refl all h

  get_by-Known :
      (b : Bool) (key : Key) (c c' : ClientState server.State) (o : Object)
      → All Known c.cached_objects
      → get_by server b key c ≡ (ok o, c')
      → All Known c'.cached_objects × IsAnswer key c o c'
  unfolding get_by get_cached_object keep_cache
  get_by-Known true key c c' o all h =
      from_search-Known (search_cache key (server.now c.base) c.cached_objects 0) key c c' o refl
        all h
  get_by-Known false key c c' o all h = (
    subst (λ (x : ClientState server.State). All Known x.cached_objects) (ap (λ q. q.1) h) all,
    inr (ap (λ (q : Result Object × ClientState server.State). (q.0, q.1.base)) h),
  )

  -- An object that the client gives comes from the server in this call, or was given by the server at
  -- a second that lies no more than ten seconds back, whoever wrote to the server in between. The
  -- entries of the cache stay such that this holds of the next call. What is known of an object and
  -- a second stands for the server having given the object then: it is assumed of each object that
  -- the server gives, at the second after the call, and of the entries of the cache with their times.
  pub get-IsRecent :
      (key : Key) (c c' : ClientState server.State) (o : Object)
      → All Known c.cached_objects
      → get server key c ≡ (ok o, c')
      → All Known c'.cached_objects
        × (IsRecent o (server.now c.base) ⊎ (server.get key c.base ≡ (ok o, c'.base)))
  unfolding get
  get-IsRecent key c c' o all h = get_by-Known (is_object_cached key.kind) key c c' o all h
