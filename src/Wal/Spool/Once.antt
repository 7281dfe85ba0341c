-- ===== src/Wal/Spool/Once.antt =====
-- A WAL that was archived ahead of its request is in the spool, and its request takes it out.
use cnpg_plugin_pgbackrest.Base.{
  ◌≡◌, ap, ◌∙◌, Bool, true, false, Text, str_eq_self, Result, ok, if◌then◌else◌, subst,
}
use cnpg_plugin_pgbackrest.Go.Paths
use cnpg_plugin_pgbackrest.Host.{Host, IsLawful, and_then, and_then-ok}
use cnpg_plugin_pgbackrest.Wal.Spool.{contains_wal, touch, delete_from_spool, when_contained}

module _ (h : Host) (spool request : Text) where
  not_found :
      (s : h.State)
      → h.file_exists (Paths.join spool (Paths.base request)) s ≡ ok false
      → delete_from_spool h spool request s ≡ (ok false, s)
  unfolding delete_from_spool
  not_found s e = rw (e, and_then)

  found_and_removed :
      (s s' : h.State)
      → h.file_exists (Paths.join spool (Paths.base request)) s ≡ ok true
      → h.remove (Paths.join spool (Paths.base request)) s ≡ (ok tt, s')
      → delete_from_spool h spool request s ≡ (ok true, s')
  unfolding delete_from_spool
  found_and_removed s s' e r = rw (e, and_then) (rw (r, and_then))

false_in :
    {S : Type 0} (s s' : S) → (let r : Result Bool × S = (ok false, s) in r ≡ (ok true, s')) → ⊥
false_in s s' e = cc

-- A WAL that is reported as taken out of the spool was in it.
pub contained_of_deleted :
    (h : Host) (spool request : Text) (s s' : h.State)
    → delete_from_spool h spool request s ≡ (ok true, s')
    → contains_wal h spool request s ≡ ok true
unfolding delete_from_spool when_contained
contained_of_deleted h spool request s s' e =
    let (b, s1, given, rest) = and_then-ok (contains_wal h spool request s, s) _ true s' e in
    by_answer b s1 (ap (λ r. r.0) given) rest
  where
    by_answer :
        (b : Bool) (s1 : h.State)
        → contains_wal h spool request s ≡ ok b
        → when_contained h spool request b s1 ≡ (ok true, s')
        → contains_wal h spool request s ≡ ok true
    by_answer true s1 given rest = given
    by_answer false s1 given rest = absurd (false_in s1 s' rest)

-- A WAL that is touched is taken out of the spool once: the next request for a file of that name,
-- by whatever path, finds it and removes it, and the one after that does not find it. For a lawful
-- host that can create and remove the file, and a spool directory whose joined path is clean.
pub delete_from_spool_once :
    (h : Host)
    → IsLawful h
    → (spool wal_name request : Text) (s s1 s2 : h.State) → Paths.base request ≡ Paths.base wal_name
    → Paths.clean (Paths.join spool (Paths.base wal_name)) ≡ Paths.join spool (Paths.base wal_name)
    → touch h spool wal_name s ≡ (ok tt, s1)
    → h.remove (Paths.join spool (Paths.base wal_name)) s1 ≡ (ok tt, s2)
    → (delete_from_spool h spool request s1 ≡ (ok true, s2))
      × (delete_from_spool h spool request s2 ≡ (ok false, s2))
unfolding touch
delete_from_spool_once h lawful spool wal_name request s s1 s2 same clean touched removed =
    let path = Paths.join spool (Paths.base wal_name) in
    let created : h.create path s ≡ (ok tt, s1) =
      subst (λ p. h.create p s ≡ (ok tt, s1)) clean touched in
    let there : h.file_exists path s1 ≡ ok true =
      lawful.exists-create s s1 path path created
      ∙ ap (λ b. if b then ok true else h.file_exists path s) (str_eq_self path) in
    let gone : h.file_exists path s2 ≡ ok false =
      lawful.exists-remove s1 s2 path path removed
      ∙ ap (λ b. if b then ok false else h.file_exists path s1) (str_eq_self path) in
    (
      found_and_removed h spool request s1 s2 (rw same there) (rw same removed),
      not_found h spool request s2 (rw same gone),
    )
