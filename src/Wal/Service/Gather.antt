-- ===== src/Wal/Service/Gather.antt =====
-- The list of WALs that `gatherWALFilesToRestore` makes.
use mathlib.Core.List.{map}
use cnpg_plugin_pgbackrest.Base.{
  ℕ, zero, suc, ◌≡◌, refl, ap, Bool, true, ◌&&◌, ◌||◌, [], ◌∷◌, ◌++◌, none, Text, codes, ltb, ◌==◌,
  if◌then◌else◌, length, ok, arith, Bool-cases, inl, inr, Option,
}
use cnpg_plugin_pgbackrest.Wal.Segment.{
  Segment, segment_from_name, segment_name, next_segments, next_segments_loop, advance,
}
use cnpg_plugin_pgbackrest.Wal.Service.{
  gather_wal_files_to_restore, gather_from, with_partial, append_partial, last_of,
}

length-loop : (n f : ℕ) (b : Bool) (c : Segment) → length (next_segments_loop n f b c) ≡ n
unfolding next_segments_loop
length-loop zero f b c = refl
length-loop (suc n) f b c = ap suc (length-loop n f b (advance f b c))

-- `NextSegments` returns as many segments as it is asked for.
length-next_segments : (c : Segment) (n : ℕ) (v z : Option ℕ) → length (next_segments c n v z) ≡ n
unfolding next_segments
length-next_segments c n v z = length-loop n _ _ c

adds_partial : (p : ℕ) (c : Bool) (n : ℕ) → n ≡ p → (c && (ltb n p || p == 1)) ≡ (c && (p == 1))
adds_partial p c n e = ground arith

with_partial_alone :
    (seg : Segment)
    → with_partial true (map segment_name (next_segments seg 1 none none))
      ≡ ok (segment_name seg ∷ (segment_name seg ++ codes ".partial") ∷ [])
unfolding with_partial append_partial last_of next_segments next_segments_loop
with_partial_alone seg = refl

only_one : (p : ℕ) (c : Bool) → (c && (p == 1)) ≡ true → p ≡ 1
only_one p c h = ground arith

with_partial_lem :
    (seg : Segment) (p : ℕ) (c : Bool)
    → with_partial (c && (p == 1)) (map segment_name (next_segments seg p none none))
      ≡ ok (
          if c && (p == 1)
          then segment_name seg ∷ (segment_name seg ++ codes ".partial") ∷ []
          else map segment_name (next_segments seg p none none))
unfolding with_partial
with_partial_lem seg p c = elim (Bool-cases (c && (p == 1))) [
  | inl h ↦ rw (h, only_one p c h) (with_partial_alone seg)
  | inr h ↦ rw h
]

-- For a name of a WAL segment the list holds the names of as many consecutive segments as may be
-- fetched in parallel. The partial segment of a controlled promotion is in the list exactly when
-- one file is fetched at a time, and then as the second of two.
pub gather_wal_files_to_restore_lem :
    (wal_name : Text) (segment : Segment) (parallel : ℕ) (controlled_promotion : Bool)
    → segment_from_name wal_name ≡ ok segment
    → gather_wal_files_to_restore wal_name parallel controlled_promotion
      ≡ ok (
          if controlled_promotion && (parallel == 1)
          then segment_name segment ∷ (segment_name segment ++ codes ".partial") ∷ []
          else map segment_name (next_segments segment parallel none none))
unfolding gather_wal_files_to_restore gather_from
gather_wal_files_to_restore_lem w seg p c e =
    rw (e, adds_partial p c _ (length-next_segments seg p none none)) (with_partial_lem seg p c)
