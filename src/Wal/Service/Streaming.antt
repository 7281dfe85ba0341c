-- ===== src/Wal/Service/Streaming.antt =====
-- The end of a WAL stream, the spool and the missing WAL as the restore service treats them.
use cnpg_plugin_pgbackrest.Base.{
  ℕ, ◌≡◌, ap, ◌∙◌, Bool, true, false, Text, List, Option, str_eq_self, ok, err,
  end_of_wal_stream_reached, if◌then◌else◌,
}
use cnpg_plugin_pgbackrest.Api.{PgbackrestConfiguration}
use cnpg_plugin_pgbackrest.Command.{cloud_wal_restore_options}
use cnpg_plugin_pgbackrest.Go.Paths
use cnpg_plugin_pgbackrest.Host.{Host, IsLawful}
use cnpg_plugin_pgbackrest.Wal.Spool
use cnpg_plugin_pgbackrest.Wal.Spool.{as_non_existent}
use cnpg_plugin_pgbackrest.Wal.Restorer.{set_end_of_wal_stream, restore_from_spool, from_spool}
use cnpg_plugin_pgbackrest.Wal.Restorer.Flag.{flag_path, is_end-of, reset-removed, set_leaves_flag}
use cnpg_plugin_pgbackrest.Wal.Service.{
  ClusterView, check_end_of_wal_stream_flag, reset_and_stop, restore_from_pgbackrest_archive,
  lift_result, unless_in_spool,
}

module _ (h : Host) (spool : Text) (env : List Text) where
  check_set :
      (s s' : h.State)
      → h.file_exists (flag_path spool) s ≡ ok true
      → h.remove (flag_path spool) s ≡ (ok tt, s')
      → check_end_of_wal_stream_flag h spool env s ≡ (err end_of_wal_stream_reached, s')
  unfolding check_end_of_wal_stream_flag reset_and_stop
  check_set s s' e r = rw (is_end-of h spool env s true e) (rw (reset-removed h spool env s s' r))

  check_unset :
      (s : h.State)
      → h.file_exists (flag_path spool) s ≡ ok false
      → check_end_of_wal_stream_flag h spool env s ≡ (ok tt, s)
  unfolding check_end_of_wal_stream_flag reset_and_stop
  check_unset s e = rw (is_end-of h spool env s false e)

  move_found :
      (s s' : h.State) (wal destination : Text)
      → h.move_file (Paths.join spool wal) destination s ≡ (ok tt, s')
      → restore_from_spool h spool env wal destination s ≡ (ok true, s')
  unfolding restore_from_spool Spool.move_out as_non_existent from_spool
  move_found s s' wal destination e = rw e

-- The flag stops PostgreSQL once: after `SetEndOfWALStream` succeeds, the next check answers that
-- the end of the WAL is reached and takes the flag away, and the check after it lets the request
-- through. For a lawful host that can remove the file of the flag, and a spool directory whose
-- joined path is clean.
pub end_of_wal_stream_flag_once :
    (h : Host)
    → IsLawful h
    → (spool : Text) (env : List Text) (s s1 s2 : h.State)
    → Paths.clean (flag_path spool) ≡ flag_path spool
    → set_end_of_wal_stream h spool env s ≡ (ok tt, s1)
    → h.remove (flag_path spool) s1 ≡ (ok tt, s2)
    → (check_end_of_wal_stream_flag h spool env s1 ≡ (err end_of_wal_stream_reached, s2))
      × (check_end_of_wal_stream_flag h spool env s2 ≡ (ok tt, s2))
end_of_wal_stream_flag_once h lawful spool env s s1 s2 clean set removed =
    let path = flag_path spool in
    let gone : h.file_exists path s2 ≡ ok false =
      lawful.exists-remove s1 s2 path path removed
      ∙ ap (λ b. if b then ok false else h.file_exists path s1) (str_eq_self path) in
    (
      check_set h spool env s1 s2 (set_leaves_flag h lawful spool env s s1 clean set) removed,
      check_unset h spool env s2 gone,
    )

-- A WAL that an earlier batch left in the spool is moved to its destination and the request is
-- done, whatever the flag, the cluster and the repositories say: pgBackRest does not run. For
-- options that can be built and a spool directory that is there.
pub restore_of_spooled :
    (h : Host) (spool : Text) (env : List Text) (cluster : Option ClusterView)
    (instance_name : Text) (c : PgbackrestConfiguration) (stanza pg_data wal destination : Text)
    (controlled : Bool) (schedule : List ℕ) (options : List Text) (s s1 s2 : h.State)
    → cloud_wal_restore_options c stanza pg_data ≡ ok options
    → h.ensure_directory spool s ≡ (ok tt, s1)
    → h.move_file (Paths.join spool wal) destination s1 ≡ (ok tt, s2)
    → restore_from_pgbackrest_archive h spool env cluster instance_name c stanza pg_data wal
        destination controlled schedule s
      ≡ (ok tt, s2)
unfolding restore_from_pgbackrest_archive lift_result unless_in_spool
restore_of_spooled h spool env cluster instance_name c stanza pg_data wal destination controlled
      schedule options s s1 s2 o d m =
    rw o (rw d (rw (move_found h spool env s1 s2 wal destination m)))
