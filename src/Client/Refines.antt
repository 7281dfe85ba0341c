-- ===== src/Client/Refines.antt =====
-- The client with the cache against the client without it.
use cnpg_plugin_pgbackrest.Base.{
  ◌≡◌, refl, sym, ap, ◌∙◌, ◌≢◌, Bool, true, false, List, [], ◌∷◌, Result, ok, err,
}
use cnpg_plugin_pgbackrest.Client.{
  Key, Object, Write, Server, ClientState, is_object_cached, Search, found, expired_at, absent,
  search_cache, new_entry, fetched, from_search, get_cached_object, keep_cache, get_by, get, write,
}
use cnpg_plugin_pgbackrest.Client.Searching.{search-found}
use cnpg_plugin_pgbackrest.Client.Alone.{
  Operation, read, written, object, done, Same, direct_step, cached_step, direct_answers,
  cached_answers, IsAlone,
}
use cnpg_plugin_pgbackrest.Client.Coherent.{
  Coherent, Current, Coherent-Same, store-Coherent, write-Coherent,
}

module _ (server : Server) (alone : IsAlone server) where
  -- The client with the cache, and the server that is used without it.
  abbrev Simulates : ClientState server.State → server.State → Type 0
  Simulates c t = Coherent server c.base c.cached_objects × Same server c.base t

  -- After a read of the server on both sides the answers are still the same.
  Same-after :
      (key : Key) (s t s' : server.State)
      → Same server s t
      → (server.get key s).1 ≡ s'
      → Same server s' (server.get key t).1
  Same-after key s t s' same reached k =
      ap (λ u. (server.get k u).0) (sym reached)
      ∙ alone.get-same key s k
      ∙ same k
      ∙ sym (alone.get-same key t k)

  fetched-Simulates :
      (searched : Search) (key : Key) (c : ClientState server.State) (t : server.State)
      (p : Result Object × server.State)
      → server.get key c.base ≡ p
      → is_object_cached key.kind ≡ true
      → ((o : Object) → searched ≢ found o)
      → search_cache key (server.now c.base) c.cached_objects 0 ≡ searched
      → Simulates c t
      → ((fetched server searched c.cached_objects p).0 ≡ (server.get key t).0)
        × Simulates (fetched server searched c.cached_objects p).1 (server.get key t).1
  unfolding fetched new_entry
  fetched-Simulates searched key c t (err e, s') got cached miss h (coherent, same) = (
    ap (λ q. q.0) (sym got) ∙ same key,
    (
      Coherent-Same server c.base s' c.cached_objects
          (λ k.
            Same-after key c.base c.base s' (λ k'. refl) (ap (λ q. q.1) got) k
            ∙ alone.get-same key c.base k)
          coherent,
      Same-after key c.base t s' same (ap (λ q. q.1) got),
    ),
  )
  fetched-Simulates searched key c t (ok o, s') got cached miss h (coherent, same) =
      let named = alone.get-key key o c.base (ap (λ q. q.0) got) in
      let still = λ (k : Key).
        Same-after key c.base c.base s' (λ k'. refl) (ap (λ q. q.1) got) k
        ∙ alone.get-same key c.base k in
      let e = new_entry o (server.now s') in
      (
        ap (λ q. q.0) (sym got) ∙ same key,
        (
          store-Coherent server s' c.cached_objects (server.now c.base) e searched
              (Coherent-Same server c.base s' c.cached_objects still coherent)
              (
                ap (λ k. is_object_cached k.kind) named ∙ cached,
                still o.key ∙ ap (λ k. (server.get k c.base).0) named ∙ ap (λ q. q.0) got,
              )
              miss (ap (λ k. search_cache k (server.now c.base) c.cached_objects 0) named ∙ h),
          Same-after key c.base t s' same (ap (λ q. q.1) got),
        ),
      )

  from_search-Simulates :
      (searched : Search) (key : Key) (c : ClientState server.State) (t : server.State)
      → is_object_cached key.kind ≡ true
      → search_cache key (server.now c.base) c.cached_objects 0 ≡ searched
      → Simulates c t
      → ((from_search server searched key c).0 ≡ (server.get key t).0)
        × Simulates (from_search server searched key c).1 (server.get key t).1
  unfolding from_search
  from_search-Simulates (found o) key c t cached h (coherent, same) =
      let (e, current, entry, named, young) =
        search-found (Current server c.base) key (server.now c.base) c.cached_objects 0 o coherent.1
          h in
      (
        ap ok (sym entry) ∙ sym current.1 ∙ ap (λ k. (server.get k c.base).0) named ∙ same key,
        (coherent, λ k. same k ∙ sym (alone.get-same key t k)),
      )
  from_search-Simulates (expired_at i) key c t cached h sim =
      fetched-Simulates (expired_at i) key c t (server.get key c.base) refl cached (λ o e. cc) h sim
  from_search-Simulates absent key c t cached h sim =
      fetched-Simulates absent key c t (server.get key c.base) refl cached (λ o e. cc) h sim

  get-Simulates :
      (b : Bool) (key : Key) (c : ClientState server.State) (t : server.State)
      → is_object_cached key.kind ≡ b
      → Simulates c t
      → ((get_by server b key c).0 ≡ (server.get key t).0)
        × Simulates (get_by server b key c).1 (server.get key t).1
  unfolding get_by get_cached_object keep_cache
  get-Simulates true key c t cached sim =
      from_search-Simulates (search_cache key (server.now c.base) c.cached_objects 0) key c t cached
        refl sim
  get-Simulates false key c t cached (coherent, same) = (
    same key,
    (
      Coherent-Same server c.base (server.get key c.base).1 c.cached_objects
          (alone.get-same key c.base) coherent,
      Same-after key c.base t (server.get key c.base).1 same refl,
    ),
  )

  write-Simulates :
      (w : Write) (o : Object) (c : ClientState server.State) (t : server.State)
      → Simulates c t
      → ((write server w o c).0 ≡ (server.write w o t).0)
        × Simulates (write server w o c).1 (server.write w o t).1
  unfolding write keep_cache
  write-Simulates w o c t (coherent, same) = (
    alone.write-outcome w o c.base t same,
    (
      write-Coherent server alone (is_object_cached o.key.kind) w o c.base c.cached_objects refl
          coherent,
      alone.write-same w o c.base t same,
    ),
  )

  answers_refine :
      (ops : List Operation) (c : ClientState server.State) (t : server.State)
      → Simulates c t
      → cached_answers server ops c ≡ direct_answers server ops t
  unfolding cached_answers direct_answers cached_step direct_step get
  answers_refine [] c t sim = refl
  answers_refine (read key ∷ ops) c t sim =
      let (same, sim') = get-Simulates (is_object_cached key.kind) key c t refl sim in
      ap (λ r. object r ∷ cached_answers server ops (get server key c).1) same
      ∙ ap (λ l. object (server.get key t).0 ∷ l)
          (answers_refine ops (get server key c).1 (server.get key t).1 sim')
  answers_refine (written w o ∷ ops) c t sim =
      let (same, sim') = write-Simulates w o c t sim in
      ap (λ r. done r ∷ cached_answers server ops (write server w o c).1) same
      ∙ ap (λ l. done (server.write w o t).0 ∷ l)
          (answers_refine ops (write server w o c).1 (server.write w o t).1 sim')

  -- Any sequence of reads and writes gives through the cache, empty at first, the answers that it
  -- gives without one, whatever time passes, for a server that only this client writes to.
  pub cached_answers_refine :
      (ops : List Operation) (s : server.State)
      → cached_answers server ops (record { cached_objects = []; base = s })
        ≡ direct_answers server ops s
  cached_answers_refine ops s =
      answers_refine ops (record { cached_objects = []; base = s }) s ((tt, tt), λ key. refl)
