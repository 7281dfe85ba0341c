-- ===== src/Wal/Segment/Next.antt =====
-- `NextSegments` walks the linear order of the segments.
use mathlib.Core.List.{map}
use cnpg_plugin_pgbackrest.Base.{
  ℕ, zero, suc, ◌+◌, ◌*◌, ◌<◌, ◌≤◌, ◌≡◌, refl, ap, ◌∙◌, false, List, [], ◌∷◌, arith, All, ◌^◌, none,
  inl, inr, Bool-cases, ltb,
}
use cnpg_plugin_pgbackrest.Base.Int.{ℤ, pos, pos_part, inc32-pos}
use cnpg_plugin_pgbackrest.Wal.Segment.{Segment, advance, next_segments, next_segments_loop}

-- The place of a segment in the order of the log, where a file holds the segments 0 to `per_file`.
abbrev pub position : ℕ → Segment → ℕ
position per_file s = pos_part s.log * (per_file + 1) + pos_part s.seg

abbrev pub count_from : ℕ → ℕ → List ℕ
count_from start zero = []
count_from start (suc n) = start ∷ count_from (start + 1) n

abbrev pub segment_at : ℤ → ℕ → ℕ → Segment
segment_at t l g = record { tli = t; log = pos l; seg = pos g }

-- A segment that a name can denote, of timeline `t`.
abbrev pub IsRegular : ℕ → ℤ → Segment → Type 0
IsRegular per_file t s =
    (s.tli ≡ t)
    × ((l : ℕ) × (s.log ≡ pos l) × (l < 2147483648))
    × ((g : ℕ) × (s.seg ≡ pos g) × (g ≤ per_file))

module _ (per_file : ℕ) (t : ℤ) where
  advance_within :
      (l g : ℕ)
      → g < per_file
      → per_file < 2147483647
      → advance per_file false (segment_at t l g) ≡ segment_at t l (g + 1)
  unfolding advance
  advance_within l g h b = rw (inc32-pos g (omega arith)) (ground arith)

  advance_full :
      (l : ℕ)
      → l + 1 < 2147483648
      → per_file < 2147483647
      → advance per_file false (segment_at t l per_file) ≡ segment_at t (l + 1) 0
  unfolding advance
  advance_full l h b = rw (inc32-pos per_file (omega arith), inc32-pos l h) (ground arith)

-- One segment of the loop and the rest, from wherever the advance leads.
module _ (per_file : ℕ) (t : ℤ) (bound : per_file < 2147483647) where
  positions_loop :
      (n l g : ℕ)
      → g ≤ per_file
      → l + n < 2147483648
      → map (position per_file) (next_segments_loop n per_file false (segment_at t l g))
        ≡ count_from (l * (per_file + 1) + g) n
  unfolding next_segments_loop
  positions_loop zero l g h b = refl
  positions_loop (suc n) l g h b = elim (Bool-cases (ltb g per_file)) [
    | inl within ↦ rw (advance_within per_file t l g (ground arith) bound) (
        ap (λ r. (l * (per_file + 1) + g) ∷ r)
          (positions_loop n l (g + 1) (ground arith) (omega arith)
            ∙ ap (λ v. count_from v n) (omega arith)))
    | inr full ↦
        let last : g ≡ per_file = ground arith in
        rw (last, advance_full per_file t l (omega arith) bound)
          (ap (λ r. (l * (per_file + 1) + per_file) ∷ r)
            (positions_loop n (l + 1) 0 (omega arith) (omega arith)
              ∙ ap (λ v. count_from v n) (grind arith)))
  ]

  -- Every segment is one that the naming scheme has: the given timeline, and a number in its file.
  IsRegular-loop :
      (n l g : ℕ)
      → g ≤ per_file
      → l + n < 2147483648
      → All (IsRegular per_file t) (next_segments_loop n per_file false (segment_at t l g))
  unfolding next_segments_loop
  IsRegular-loop zero l g h b = tt
  IsRegular-loop (suc n) l g h b = elim (Bool-cases (ltb g per_file)) [
    | inl within ↦ (
      (refl, (l, refl, omega arith), (g, refl, h)),
      rw (advance_within per_file t l g (ground arith) bound)
          (IsRegular-loop n l (g + 1) (ground arith) (omega arith)),
    )
    | inr full ↦
        let last : g ≡ per_file = ground arith in
        (
          (refl, (l, refl, omega arith), (g, refl, h)),
          rw (last, advance_full per_file t l (omega arith) bound)
              (IsRegular-loop n (l + 1) 0 (omega arith) (omega arith)),
        )
  ]

-- `NextSegments` at the default segment size: as many segments as asked for, at the consecutive
-- places of the log from the given one on, a full log file continued by the next one, all of the
-- given timeline and with numbers from 0 to 255; for a start in such a file, as long as the log
-- numbers stay below 2^31.
pub next_segments-positions :
    (n l g : ℕ) (t : ℤ)
    → g ≤ 255
    → l + n < 2 ^ 31
    → (map (position 255) (next_segments (segment_at t l g) n none none)
        ≡ count_from (position 255 (segment_at t l g)) n)
      × All (IsRegular 255 t) (next_segments (segment_at t l g) n none none)
unfolding next_segments
next_segments-positions n l g t h b =
    (positions_loop 255 t (omega arith) n l g h b, IsRegular-loop 255 t (omega arith) n l g h b)
