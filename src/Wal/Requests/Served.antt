-- ===== src/Wal/Requests/Served.antt =====
-- The requests for a WAL that the service answers without an error.
use cnpg_plugin_pgbackrest.Base.{
  ◌≡◌, ap, subst, inl, inr, not, ◌&&◌, ◌||◌, is_nil, str_eq, if◌then◌else◌, Bool-cases, ℕ, Bool,
  true, List, Text, codes, Result, ok, some,
}
use cnpg_plugin_pgbackrest.Parallel.Slots.{occurs}
use cnpg_plugin_pgbackrest.Host.{Host, and_then-ok, wrap_error}
use cnpg_plugin_pgbackrest.Api.Archive.{Archive}
use cnpg_plugin_pgbackrest.Config.{ObjectKey, new_from_cluster}
use cnpg_plugin_pgbackrest.Command.{cloud_wal_restore_options}
use cnpg_plugin_pgbackrest.Credentials.{env_set_restore_cloud_credentials}
use cnpg_plugin_pgbackrest.Wal.Service.{
  ClusterView, Source, source_of, restore_from_pgbackrest_archive,
}
use cnpg_plugin_pgbackrest.Wal.Service.Fetched.{IsDelivered, restore-IsDelivered}
use cnpg_plugin_pgbackrest.Wal.Requests.{
  ServiceHost, WalService, ClusterDefinition, source_key, get_keyed, restore_with, restore_source,
  restore_defined, wal_restore,
}

-- Whether the cluster has a token of a promotion that it has not seen yet.
abbrev pub is_promoting : ClusterView → Bool
is_promoting v =
    not (is_nil v.promotion_token) && not (str_eq v.last_promotion_token v.promotion_token)

abbrev pub is_designated_primary : ClusterView → Text → Bool
is_designated_primary v instance_name = v.is_replica && str_eq v.current_primary instance_name

-- The stanza and the archive that the state of the cluster calls for.
abbrev pub selected_key : ClusterDefinition → Text → Text × ObjectKey
selected_key d instance_name =
    let c = new_from_cluster d.cluster in
    let of : Text → ObjectKey = λ name. record { namespace = d.cluster.namespace; name = name } in
    if is_promoting d.view || is_designated_primary d.view instance_name
    then (c.replica_source_stanza, of c.replica_source_pgbackrest_object_name)
    else if is_nil d.view.current_primary
    then (c.recovery_stanza, of c.recovery_pgbackrest_object_name)
    else (c.stanza, of c.pgbackrest_object_name)

source_key-source_of :
    (d : ClusterDefinition) (instance_name : Text)
    → source_key (new_from_cluster d.cluster) (source_of d.view instance_name).0
      ≡ selected_key d instance_name
unfolding source_key source_of new_from_cluster
source_key-source_of d instance_name = elim (Bool-cases (is_promoting d.view)) [
  | inl promoting ↦ rw promoting
  | inr other ↦ elim (Bool-cases (is_designated_primary d.view instance_name)) [
    | inl primary ↦ rw (other, primary)
    | inr replica ↦ elim (Bool-cases (is_nil d.view.current_primary)) [
      | inl unknown ↦ rw (other, replica, unknown)
      | inr known ↦ rw (other, replica, known)
    ]
  ]
]

module _ (h : Host) (k : ServiceHost h.State) (w : WalService) where
  -- A WAL that comes from the archive with that key, with the options for that stanza.
  abbrev pub ServedFrom : Text × ObjectKey → Text → Text → Type 0
  ServedFrom (stanza, key) requested destination =
      (archive : Archive) × (env options : List Text) × (t t' : h.State) × (k.get_archive
          key.namespace key.name t
        ≡ (ok archive, t'))
      × (cloud_wal_restore_options archive.configuration stanza w.pg_data_path ≡ ok options)
      × IsDelivered h w.spool_directory env requested destination options

  restore_source-ServedFrom :
      (d : ClusterDefinition) (requested destination : Text) (schedule : List ℕ)
      (chosen : Source × Bool) (s s' : h.State)
      → occurs 0 schedule ≡ true
      → restore_source h k w d requested destination schedule chosen s ≡ (ok tt, s')
      → ServedFrom (source_key (new_from_cluster d.cluster) chosen.0) requested destination
  unfolding restore_source restore_with get_keyed
  restore_source-ServedFrom d requested destination schedule (source, controlled) s s' turn done =
      let key = source_key (new_from_cluster d.cluster) source in
      let (archive, t, got, done1) =
        and_then-ok (k.get_archive key.1.namespace key.1.name s)
          (λ archive.
            restore_with h k w d.view archive key.0 requested destination controlled schedule)
          tt s' done in
      let (env, t1, credentials, done2) =
        and_then-ok
          (wrap_error (codes "while getting recover credentials")
            (env_set_restore_cloud_credentials k.get_secret k.mkdir_all k.write_file
              archive.namespace archive.configuration w.environ)
            t)
          (λ env.
            restore_from_pgbackrest_archive h w.spool_directory env (some d.view) w.instance_name
              archive.configuration key.0 w.pg_data_path requested destination controlled schedule)
          tt s' done1 in
      let (options, line, delivered) =
        restore-IsDelivered h w.spool_directory env (some d.view) w.instance_name
          archive.configuration key.0 w.pg_data_path requested destination controlled schedule t1 s'
          turn done2 in
      (archive, env, options, s, t, got, line, delivered)

  -- A request for a WAL that the service answers without an error was served from the archive that
  -- the state of the cluster selects: the one of the replica's source during a controlled promotion
  -- and for the designated primary, the recovery archive while no primary is known, and else the
  -- archive of the cluster, each with its own stanza. The WAL was moved out of the spool, or
  -- `archive-get` with the options of that archive and stanza ended without an error. For an order
  -- of the goroutines in which the first one gets to run.
  pub wal_restore-ServedFrom :
      (request : Result ClusterDefinition) (requested destination : Text) (schedule : List ℕ)
      (s s' : h.State)
      → occurs 0 schedule ≡ true
      → wal_restore h k w request requested destination schedule s ≡ (ok tt, s')
      → (d : ClusterDefinition) × (request ≡ ok d)
        × ServedFrom (selected_key d w.instance_name) requested destination
  unfolding wal_restore restore_defined
  wal_restore-ServedFrom request requested destination schedule s s' turn done =
      let (d, t, decoded, done1) =
        and_then-ok (request, s) (restore_defined h k w requested destination schedule) tt s'
          done in
      (
        d,
        ap (λ p. p.0) decoded,
        subst (λ key. ServedFrom key requested destination) (source_key-source_of d w.instance_name)
            (restore_source-ServedFrom d requested destination schedule
              (source_of d.view w.instance_name) t s' turn done1),
      )
