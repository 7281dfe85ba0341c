-- ===== src/Client.antt =====
-- internal/cnpgi/instance/internal/client/client.go: the client of the instance sidecar, which keeps
-- the secrets and the archives that it has read for a while. The client under it, with its server and
-- the clock, is a parameter. One operation runs at a time.
pub mod Alone
pub mod Coherent
pub mod Fresh
pub mod Keys
pub mod Refines
pub mod Searching
use cnpg_plugin_pgbackrest.Base.{
  ℕ, suc, ◌+◌, ◌*◌, ◌/◌, Bool, true, false, not, ◌&&◌, List, [], ◌∷◌, ◌++◌, Option, none, some,
  Text, str_eq, ltb, set, if◌then◌else◌, Result, ok, err,
}
use cnpg_plugin_pgbackrest.Host.{Act}

-- The Go types of the objects.
pub data Kind : Type 0 where
  secret_kind archive_kind : Kind
  other_kind : Text → Kind

-- `client.ObjectKey` with the type of the object that is asked for.
pub record Key : Type 0 where
  pub namespace : Text
  pub name : Text
  pub kind : Kind

-- A `client.Object`.
pub record Object : Type 0 where
  pub key : Key
  pub content : Text

pub data Write : Type 0 where
  update delete : Write
  patch : Text → Write

-- The embedded `client.Client`, and the time in nanoseconds.
pub record Server : Type 1 where
  pub State : Type 0
  pub now : State → ℕ
  pub get : Key → Act State Object
  pub write : Write → Object → Act State (Unit {0})

abbrev pub second : ℕ
second = 1000000000

-- `cachedEntry`, with the time of the fetch in seconds and the time to live in nanoseconds.
pub record CachedEntry : Type 0 where
  pub entry : Object
  pub fetch_unix_time : ℕ
  pub ttl : ℕ

-- `isExpired`
unfoldable pub is_expired : CachedEntry → ℕ → Bool
is_expired e now = ltb (e.fetch_unix_time * second + e.ttl) now

unfoldable pub kind_eq : Kind → Kind → Bool
kind_eq secret_kind secret_kind = true
kind_eq archive_kind archive_kind = true
kind_eq (other_kind a) (other_kind b) = str_eq a b
kind_eq _ _ = false

unfoldable pub key_eq : Key → Key → Bool
unfolding kind_eq
key_eq a b = str_eq a.namespace b.namespace && str_eq a.name b.name && kind_eq a.kind b.kind

-- `isObjectCached`
unfoldable pub is_object_cached : Kind → Bool
is_object_cached secret_kind = true
is_object_cached archive_kind = true
is_object_cached (other_kind _) = false

-- How the search of the cache ends: with an object, with the index of one that has expired, or with
-- no entry of that key.
pub data Search : Type 0 where
  found : Object → Search
  expired_at : ℕ → Search
  absent : Search

-- At one entry: whether it has the key, whether it has expired, and the search of the others.
unfoldable pub at_entry : Bool → Bool → Object → ℕ → Search → Search
at_entry false expired o index rest = rest
at_entry true true o index rest = expired_at index
at_entry true false o index rest = found o

-- The loop of `getCachedObject`.
unfoldable pub search_cache : Key → ℕ → List CachedEntry → ℕ → Search
unfolding key_eq is_expired at_entry
search_cache key now [] index = absent
search_cache key now (e ∷ entries) index =
    let rest = search_cache key now entries (suc index) in
    at_entry (key_eq e.entry.key key) (is_expired e now) e.entry index rest

-- The cache with what was fetched: over the entry that had expired, or behind the others.
unfoldable pub store_fetched : Search → CachedEntry → List CachedEntry → List CachedEntry
store_fetched (expired_at index) e entries = set entries index e
store_fetched _ e entries = entries ++ e ∷ []

-- An entry for an object that was fetched at a time, with `DefaultTTLSeconds`.
unfoldable pub new_entry : Object → ℕ → CachedEntry
new_entry o now = record { entry = o; fetch_unix_time = now / second; ttl = 10 * second }

-- `removeObject`
unfoldable pub remove_object : Key → List CachedEntry → List CachedEntry
unfolding key_eq
remove_object key [] = []
remove_object key (e ∷ entries) =
    let rest = remove_object key entries in if key_eq e.entry.key key then entries else e ∷ rest

-- `ExtendedClient`: the cached objects, and the state of the client under it.
pub record ClientState (S : Type 0) : Type 0 where
  pub cached_objects : List CachedEntry
  pub base : S

module _ (server : Server) where
  fetched :
      Search
      → List CachedEntry
      → Result Object × server.State
      → Result Object × ClientState server.State
  unfolding store_fetched new_entry
  fetched searched entries (err e, s) = (err e, record { cached_objects = entries; base = s })
  fetched searched entries (ok o, s) = (
    ok o,
    record {
      cached_objects = store_fetched searched (new_entry o (server.now s)) entries;
      base = s;
    },
  )

  from_search : Search → Key → Act (ClientState server.State) Object
  unfolding fetched
  from_search (found o) key c = (ok o, c)
  from_search (expired_at index) key c =
      fetched (expired_at index) c.cached_objects (server.get key c.base)
  from_search absent key c = fetched absent c.cached_objects (server.get key c.base)

  -- `getCachedObject`. An entry of the type that is asked for can always be assigned.
  unfoldable pub get_cached_object : Key → Act (ClientState server.State) Object
  unfolding from_search search_cache
  get_cached_object key c =
      from_search (search_cache key (server.now c.base) c.cached_objects 0) key c

  keep_cache :
      {A : Type 0}
      → List CachedEntry
      → Result A × server.State
      → Result A × ClientState server.State
  keep_cache entries (r, s) = (r, record { cached_objects = entries; base = s })

  get_by : Bool → Key → Act (ClientState server.State) Object
  unfolding get_cached_object keep_cache
  get_by true key c = get_cached_object key c
  get_by false key c = keep_cache c.cached_objects (server.get key c.base)

  -- `Get`
  unfoldable pub get : Key → Act (ClientState server.State) Object
  unfolding get_by is_object_cached
  get key = get_by (is_object_cached key.kind) key

  -- `Update`, `Delete` and `Patch`
  unfoldable pub write : Write → Object → Act (ClientState server.State) (Unit {0})
  unfolding is_object_cached remove_object keep_cache
  write w o c =
      keep_cache
        (if is_object_cached o.key.kind
          then remove_object o.key c.cached_objects
          else c.cached_objects)
        (server.write w o c.base)
