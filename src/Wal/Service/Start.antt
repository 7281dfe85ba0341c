-- ===== src/Wal/Service/Start.antt =====
-- The list of files to restore begins with the requested one.
use mathlib.Core.List.{map}
use cnpg_plugin_pgbackrest.Base.{
  ℕ, zero, suc, ◌<◌, ◌≡◌, ◌⊎◌, inl, inr, refl, Bool, true, false, ◌&&◌, ◌==◌, List, [], ◌∷◌, Option,
  none, some, Text, get_elem?, if◌then◌else◌, Result, result_cases, ok, err, Error, arith,
}
use cnpg_plugin_pgbackrest.Base.Int.{ℤ, pos, negsuc}
use cnpg_plugin_pgbackrest.Api.{WalBackupConfiguration}
use cnpg_plugin_pgbackrest.Wal.Segment.{
  Segment, segment_from_name, segment_name, next_segments, next_segments_loop,
}
use cnpg_plugin_pgbackrest.Wal.Service.{
  gather_from, gather_wal_files_to_restore, files_to_restore, max_parallel, at_least_one,
}
use cnpg_plugin_pgbackrest.Wal.Service.Gather.{gather_wal_files_to_restore_lem}

-- The name is the requested one, or the name of the segment that the requested one stands for.
abbrev pub IsRequested : Text → Text → Type 0
IsRequested requested wal =
    (wal ≡ requested)
    ⊎ ((segment : Segment) × (segment_from_name requested ≡ ok segment)
        × (wal ≡ segment_name segment))

-- A list of files begins with the requested one.
abbrev pub StartsRequested : Text → Result (List Text) → Type 0
StartsRequested requested (err _) = Unit
StartsRequested requested (ok fetch) =
    (wal : Text) × (get_elem? fetch 0 ≡ some wal) × IsRequested requested wal

positive : 0 < 0 → ⊥
positive h = omega (arith, h)

names_start :
    (segment : Segment) (n : ℕ)
    → 0 < n
    → get_elem? (map segment_name (next_segments segment n none none)) 0
      ≡ some (segment_name segment)
unfolding next_segments next_segments_loop
names_start segment zero h = absurd (positive h)
names_start segment (suc n) h = refl

list_start :
    (segment : Segment) (n : ℕ) (b : Bool) (rest : List Text)
    → 0 < n
    → get_elem?
        (if b
          then segment_name segment ∷ rest
          else map segment_name (next_segments segment n none none))
        0
      ≡ some (segment_name segment)
list_start segment n true rest h = refl
list_start segment n false rest h = names_start segment n h

unparsed_start :
    (w : Text) (n : ℕ) (c : Bool) (x : Error)
    → segment_from_name w ≡ err x
    → gather_wal_files_to_restore w n c ≡ ok (w ∷ [])
unfolding gather_wal_files_to_restore gather_from
unparsed_start w n c x e = rw e

gather_start :
    (requested : Text) (n : ℕ) (controlled : Bool)
    → 0 < n
    → StartsRequested requested (gather_wal_files_to_restore requested n controlled)
gather_start requested n controlled h = elim (result_cases (segment_from_name requested)) [
  | inl (segment, e) ↦ rw (gather_wal_files_to_restore_lem requested segment n controlled e) (
    segment_name segment,
    list_start segment n (controlled && (n == 1)) _ h,
    inr (segment, e, refl),
  )
  | inr (x, e) ↦ rw (unparsed_start requested n controlled x e) (requested, refl, inl refl)
]

pub files_start :
    (requested : Text) (n : ℕ) (controlled is_wal : Bool)
    → 0 < n
    → StartsRequested requested (files_to_restore requested n controlled is_wal)
unfolding files_to_restore
files_start requested n controlled true h = gather_start requested n controlled h
files_start requested n controlled false h = (requested, refl, inl refl)

pub max_parallel_pos : (w : Option WalBackupConfiguration) → 0 < max_parallel w
unfolding max_parallel at_least_one
max_parallel_pos none = omega arith
max_parallel_pos (some w) = by_count w.max_parallel
  where
    by_count : (m : ℤ) → 0 < at_least_one m
    by_count (pos n) = ground arith
    by_count (negsuc n) = omega arith
