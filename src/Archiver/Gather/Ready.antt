-- ===== src/Archiver/Gather/Ready.antt =====
-- What the list of WALs to archive holds.
use cnpg_plugin_pgbackrest.Base.{
  ℕ, zero, suc, ◌-◌, ◌<◌, ◌≤◌, ◌≡◌, ◌⊎◌, inl, inr, refl, sym, ap, ◌∙◌, true, false, List, [], ◌∷◌,
  ◌++◌, append-nil, append_assoc, Option, none, some, Text, codes, leb, if◌then◌else◌, length, take,
  Bool-cases, arith,
}
use cnpg_plugin_pgbackrest.Go.Paths
use cnpg_plugin_pgbackrest.Go.Strings.{has_suffix, trim_suffix}
use cnpg_plugin_pgbackrest.Go.Suffix.{trim_suffix_lem, has_suffix-append, not_suffix}
use cnpg_plugin_pgbackrest.Host.{Host, DirEntry}
use cnpg_plugin_pgbackrest.Archiver.Gather.{
  pg_wal_directory, archive_status_path, wal_file_name, is_skipped, walk_entries, walk_listing,
  gather_wal_files_to_archive,
}

le_of_leb : (n m : ℕ) → leb n m ≡ true → n ≤ m
le_of_leb n m h = ground arith

lt_of_leb : (n m : ℕ) → leb n m ≡ false → m < n
lt_of_leb n m h = ground arith

module _ (pg_data requested : Text) where
  -- What the walk collects from the entries.
  abbrev ready_wals : List DirEntry → List Text
  ready_wals [] = []
  ready_wals (entry ∷ entries) =
      let rest = ready_wals entries in
      if is_skipped pg_data requested entry
      then rest
      else Paths.join (pg_wal_directory pg_data requested) (wal_file_name pg_data requested entry)
        ∷ rest

  abbrev ready_in : Option (List DirEntry) → List Text
  ready_in none = []
  ready_in (some entries) = ready_wals entries

  take_nil : (n : ℕ) → take {A = Text} n [] ≡ []
  take_nil zero = refl
  take_nil (suc n) = refl

  take_none : (n : ℕ) (xs ys : List Text) → n ≤ length xs → xs ≡ xs ++ take (n - length xs) ys
  take_none n xs ys h = let e : n - length xs ≡ 0 = omega arith in rw e (sym (append-nil xs))

  length_snoc : (xs : List Text) (x : Text) → length (xs ++ x ∷ []) ≡ suc (length xs)
  length_snoc [] x = refl
  length_snoc (y ∷ ys) x = ap suc (length_snoc ys x)

  take_one :
      (n : ℕ) (xs ys : List Text) (x : Text)
      → length xs < n
      → (xs ++ x ∷ []) ++ take (n - length (xs ++ x ∷ [])) ys ≡ xs ++ take (n - length xs) (x ∷ ys)
  take_one n xs ys x h =
      let e : n - length xs ≡ suc (n - suc (length xs)) = omega arith in
      rw (length_snoc xs x, e) (append_assoc xs (x ∷ []) (take (n - suc (length xs)) ys))

  walk_takes :
      (n : ℕ) (entries : List DirEntry) (acc : List Text)
      → walk_entries pg_data requested n entries acc
        ≡ acc ++ take (n - length acc) (ready_wals entries)
  unfolding walk_entries
  walk_takes n [] acc = rw (take_nil (n - length acc)) (sym (append-nil acc))
  walk_takes n (entry ∷ entries) acc = elim (Bool-cases (leb n (length acc))) [
    | inl full ↦
        rw full (take_none n acc (ready_wals (entry ∷ entries)) (le_of_leb n (length acc) full))
    | inr room ↦ elim (Bool-cases (is_skipped pg_data requested entry)) [
      | inl skipped ↦ rw (room, skipped) (walk_takes n entries acc)
      | inr kept ↦
          rw (room, kept)
            (walk_takes n entries (
                acc
                ++ Paths.join (pg_wal_directory pg_data requested)
                    (wal_file_name pg_data requested entry)
                  ∷ [])
              ∙ take_one n acc (ready_wals entries) _ (lt_of_leb n (length acc) room))
    ]
  ]

  listing_takes :
      (n : ℕ) (listing : Option (List DirEntry)) (w : Text)
      → walk_listing pg_data requested n listing (w ∷ []) ≡ w ∷ take (n - 1) (ready_in listing)
  unfolding walk_listing
  listing_takes n none w = rw (take_nil (n - 1))
  listing_takes n (some entries) w = elim (Bool-cases (leb n 1)) [
    | inl full ↦ let e : n - 1 ≡ 0 = omega (arith, le_of_leb n 1 full) in rw (full, e)
    | inr room ↦ rw room (walk_takes n entries (w ∷ []))
  ]

abbrev pub entries_of : Option (List DirEntry) → List DirEntry
entries_of none = []
entries_of (some entries) = entries

module _ (pg_data requested : Text) where
  -- A file of the status directory that marks this WAL as ready, where the request is not for it.
  abbrev pub IsReady : DirEntry → Text → Type 0
  IsReady entry wal =
      (entry.is_dir ≡ false)
      × ((stem : Text) × (Paths.join (archive_status_path pg_data requested) entry.name
            ≡ stem ++ codes ".ready"))
      × (wal
          ≡ trim_suffix (Paths.base (Paths.join (archive_status_path pg_data requested) entry.name))
              (codes ".ready"))
      × (¬ ((front : Text) × (requested ≡ front ++ wal)))

  -- The paths of the WALs that the entries mark as ready, in their order, and no other.
  abbrev pub Selects : List DirEntry → List Text → Type 0
  Selects [] paths = paths ≡ []
  Selects (entry ∷ entries) paths =
      ((wal : Text) × (others : List Text) × IsReady entry wal
        × (paths ≡ Paths.join (pg_wal_directory pg_data requested) wal ∷ others)
        × Selects entries others)
      ⊎ ((¬ ((wal : Text) × IsReady entry wal)) × Selects entries paths)

  kept-IsReady :
      (entry : DirEntry)
      → is_skipped pg_data requested entry ≡ false
      → IsReady entry (wal_file_name pg_data requested entry)
  unfolding is_skipped wal_file_name
  kept-IsReady entry kept =
      let path = Paths.join (archive_status_path pg_data requested) entry.name in
      let wal = trim_suffix (Paths.base path) (codes ".ready") in
      let marked : has_suffix path (codes ".ready") ≡ true = ground arith in
      let other : has_suffix requested wal ≡ false = ground arith in
      (
        ground arith,
        (trim_suffix path (codes ".ready"), trim_suffix_lem path (codes ".ready") marked),
        refl,
        λ (front, e). not_suffix requested front wal other e,
      )

  skipped-not_ready :
      (entry : DirEntry) (wal : Text)
      → is_skipped pg_data requested entry ≡ true
      → IsReady entry wal
      → ⊥
  unfolding is_skipped wal_file_name
  skipped-not_ready entry wal skipped (file, (stem, marked), name, other) =
      let path = Paths.join (archive_status_path pg_data requested) entry.name in
      let ready : has_suffix path (codes ".ready") ≡ true =
        ap (λ p. has_suffix p (codes ".ready")) marked ∙ has_suffix-append stem (codes ".ready") in
      let same : has_suffix requested (trim_suffix (Paths.base path) (codes ".ready")) ≡ true =
        ground arith in
      other (
        trim_suffix requested wal,
        trim_suffix_lem requested wal (ap (has_suffix requested) name ∙ same),
      )

  ready_wals-Selects :
      (entries : List DirEntry) → Selects entries (ready_wals pg_data requested entries)
  ready_wals-Selects [] = refl
  ready_wals-Selects (entry ∷ entries) = elim (Bool-cases (is_skipped pg_data requested entry)) [
    | inl skipped ↦ rw skipped (
        inr (λ (wal, ready). skipped-not_ready entry wal skipped ready, ready_wals-Selects entries))
    | inr kept ↦ rw kept (
        inl (
          wal_file_name pg_data requested entry,
          ready_wals pg_data requested entries,
          kept-IsReady entry kept,
          refl,
          ready_wals-Selects entries,
        ))
  ]

  ready_in-Selects :
      (listing : Option (List DirEntry))
      → Selects (entries_of listing) (ready_in pg_data requested listing)
  ready_in-Selects none = refl
  ready_in-Selects (some entries) = ready_wals-Selects entries

-- The list begins with the requested WAL, by its absolute path, and goes on with the paths of the
-- WALs that a file `<WAL>.ready` of the status directory marks, in its order, as many of them as are
-- left of the parallel limit; a limit of one or none gives the requested WAL alone. A WAL whose name
-- the requested path ends with is left out, and a directory that cannot be read counts as empty.
pub gather_wal_files_to_archive_lem :
    (h : Host) (pg_data requested : Text) (parallel : ℕ) (s : h.State)
    → (ready : List Text) × Selects pg_data requested
        (entries_of (h.list_directory (archive_status_path pg_data requested) s))
        ready
      × (gather_wal_files_to_archive pg_data requested h parallel s
          ≡ Paths.join (pg_wal_directory pg_data requested) (Paths.base requested)
            ∷ take (parallel - 1) ready)
unfolding gather_wal_files_to_archive
gather_wal_files_to_archive_lem h pg_data requested parallel s =
    let listing = h.list_directory (archive_status_path pg_data requested) s in
    (
      ready_in pg_data requested listing,
      ready_in-Selects pg_data requested listing,
      listing_takes pg_data requested parallel _ _,
    )
