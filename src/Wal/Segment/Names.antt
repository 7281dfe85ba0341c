-- ===== src/Wal/Segment/Names.antt =====
-- Names of segments: what `Segment.Name` prints, `SegmentFromName` reads.
use cnpg_plugin_pgbackrest.Base.{
  ℕ, zero, suc, ◌^◌, ◌/◌, ◌%◌, ◌<◌, ◌≡◌, refl, sym, ap, ◌∙◌, Bool, true, false, ◌&&◌, lt→ltb, subst,
  ltb, ◌==◌, [], ◌∷◌, ◌++◌, append-nil, none, some, Text, codes, arith, ok, err,
  bad_wal_segment_name, if◌then◌else◌, str_eq, length, length-append, All, All-append,
}
use cnpg_plugin_pgbackrest.Base.Int.{pos}
use cnpg_plugin_pgbackrest.Go.Paths
use cnpg_plugin_pgbackrest.Go.Paths.{Slashless, base_of_Slashless}
use cnpg_plugin_pgbackrest.Go.Strconv.{
  hex_digit, hex_fixed, parse_int, parse_digits, parse_digits-hex_fixed, parse_int-cons,
}
use cnpg_plugin_pgbackrest.Wal.Segment.{
  is_hex, hex_run, is_wal_tail, wal_re_timeline, wal_re_log, wal_re_segment, wal_re, wal_segment_re,
  is_wal_file, parse_fields, segment_from_name, segment_name,
}

abbrev IsHex : Text → Type 0
IsHex = All (λ c. is_hex c ≡ true)

is_hex-hex_digit : (d : ℕ) → d < 16 → is_hex (hex_digit d) ≡ true
unfolding is_hex hex_digit
is_hex-hex_digit d h = ground arith

hex_fixed-IsHex : (k n : ℕ) → IsHex (hex_fixed k n)
unfolding hex_fixed
hex_fixed-IsHex zero n = tt
hex_fixed-IsHex (suc k) n =
    All-append _ (hex_fixed k (n / 16)) _ (hex_fixed-IsHex k (n / 16))
      (is_hex-hex_digit (n % 16) (omega arith), tt)

length-hex_fixed : (k n : ℕ) → length (hex_fixed k n) ≡ k
unfolding hex_fixed
length-hex_fixed zero n = refl
length-hex_fixed (suc k) n = omega (
  arith,
  length-append (hex_fixed k (n / 16)) (hex_digit (n % 16) ∷ []),
  length-hex_fixed k (n / 16),
)

-- A run of hexadecimal digits is found whole.
hex_run-append : (s rest : Text) → IsHex s → hex_run (length s) (s ++ rest) ≡ some (s, rest)
unfolding hex_run
hex_run-append [] rest h = refl
hex_run-append (c ∷ s) rest h = simp (hex_run-append s rest h.1, h.0)

-- The three groups of a name.
abbrev pub name_of : ℕ → ℕ → ℕ → Text
name_of t l g = hex_fixed 8 t ++ (hex_fixed 8 l ++ hex_fixed 8 g)

hex_run-hex_fixed :
    (n : ℕ) (rest : Text) → hex_run 8 (hex_fixed 8 n ++ rest) ≡ some (hex_fixed 8 n, rest)
hex_run-hex_fixed n rest =
    subst (λ k. hex_run k (hex_fixed 8 n ++ rest) ≡ some (hex_fixed 8 n, rest))
      (length-hex_fixed 8 n) (hex_run-append (hex_fixed 8 n) rest (hex_fixed-IsHex 8 n))

hex_run_end : (n : ℕ) → hex_run 8 (hex_fixed 8 n) ≡ some (hex_fixed 8 n, [])
hex_run_end n =
    subst (λ s. hex_run 8 s ≡ some (hex_fixed 8 n, [])) (append-nil (hex_fixed 8 n))
      (hex_run-hex_fixed n [])

hex_digit_sign :
    (d : ℕ) → d < 16 → ((hex_digit d == b'-') ≡ false) × ((hex_digit d == b'+') ≡ false)
unfolding hex_digit
hex_digit_sign d h = (ground arith, ground arith)

parse_digits_8 : (n : ℕ) → n < 2 ^ 32 → parse_digits 16 0 (hex_fixed 8 n) ≡ some n
unfolding parse_digits
parse_digits_8 n h =
    rw (sym (append-nil (hex_fixed 8 n)))
      (parse_digits-hex_fixed 8 0 n [] (omega arith) ∙ ap some (omega arith))

parse_int-hex_fixed :
    (n : ℕ)
    → n < 2 ^ 32
    → parse_int 16 32 (hex_fixed 8 n) ≡ (if ltb n (2 ^ 31) then some (pos n) else none)
unfolding hex_fixed
parse_int-hex_fixed n h =
    parse_int-cons 16 32 _ _ n (hex_digit_sign _ (omega arith)).0 (hex_digit_sign _ (omega arith)).1
      (parse_digits_8 n h)

-- The digits of a name are digits, so the bounds of the three fields decide.
abbrev pub fits : ℕ → ℕ → ℕ → Bool
fits t l g = ltb t (2 ^ 31) && (ltb l (2 ^ 31) && ltb g (2 ^ 31))

not_history : (n : ℕ) (rest : Text) → str_eq (hex_fixed 8 n ++ rest) (codes ".history") ≡ false
unfolding hex_fixed str_eq codes
not_history n rest = ground arith

wal_re-name_of :
    (t l g : ℕ)
    → wal_re (name_of t l g)
      ≡ some (record {
        whole = name_of t l g;
        timeline = hex_fixed 8 t;
        log = hex_fixed 8 l;
        segment = hex_fixed 8 g;
      })
unfolding wal_re wal_re_timeline wal_re_log wal_re_segment is_wal_tail
wal_re-name_of t l g =
    rw (hex_run-hex_fixed t (hex_fixed 8 l ++ hex_fixed 8 g))
      (rw (not_history l (hex_fixed 8 g), hex_run-hex_fixed l (hex_fixed 8 g)) (rw (hex_run_end g)))

length-name_of : (t l g : ℕ) → length (name_of t l g) ≡ 24
length-name_of t l g = omega (
  arith,
  length-append (hex_fixed 8 t) (hex_fixed 8 l ++ hex_fixed 8 g),
  length-append (hex_fixed 8 l) (hex_fixed 8 g),
  length-hex_fixed 8 t,
  length-hex_fixed 8 l,
  length-hex_fixed 8 g,
)

name_of-IsHex : (t l g : ℕ) → IsHex (name_of t l g)
name_of-IsHex t l g =
    All-append _ (hex_fixed 8 t) _ (hex_fixed-IsHex 8 t)
      (All-append _ (hex_fixed 8 l) _ (hex_fixed-IsHex 8 l) (hex_fixed-IsHex 8 g))

slashless_byte : (c : ℕ) → is_hex c ≡ true → (c == b'/') ≡ false
unfolding is_hex
slashless_byte c h = ground arith

IsHex-Slashless : (s : Text) → IsHex s → Slashless s
IsHex-Slashless [] h = tt
IsHex-Slashless (c ∷ s) h = (slashless_byte c h.0, IsHex-Slashless s h.1)

base-name_of : (t l g : ℕ) → Paths.base (name_of t l g) ≡ name_of t l g
unfolding hex_fixed
base-name_of t l g = base_of_Slashless _ _ (IsHex-Slashless (name_of t l g) (name_of-IsHex t l g))

parse_fields-name_of :
    (t l g : ℕ)
    → t < 2 ^ 32
    → l < 2 ^ 32
    → g < 2 ^ 32
    → parse_fields (record {
      whole = name_of t l g;
      timeline = hex_fixed 8 t;
      log = hex_fixed 8 l;
      segment = hex_fixed 8 g;
    })
      ≡ (if fits t l g
          then ok (record { tli = pos t; log = pos l; seg = pos g })
          else err bad_wal_segment_name)
unfolding parse_fields
parse_fields-name_of t l g ht hl hg =
    rw (parse_int-hex_fixed t ht, parse_int-hex_fixed l hl, parse_int-hex_fixed g hg) (ground arith)

wal_segment_re-name_of : (t l g : ℕ) → wal_segment_re (name_of t l g) ≡ true
unfolding wal_segment_re
wal_segment_re-name_of t l g =
    rw (sym (append-nil (name_of t l g))) (
      rw (sym (length-name_of t l g))
        (rw (hex_run-append (name_of t l g) [] (name_of-IsHex t l g))))

-- `IsWALFile` accepts the 24 digits of any three numbers, and `SegmentFromName` reads the numbers
-- back exactly when each of them is below 2^31; otherwise it answers ErrBadWALSegmentName.
pub segment_from_name-name_of :
    (t l g : ℕ)
    → t < 2 ^ 32
    → l < 2 ^ 32
    → g < 2 ^ 32
    → (is_wal_file (name_of t l g) ≡ true)
      × (segment_from_name (name_of t l g) ≡ (
          if fits t l g
          then ok (record { tli = pos t; log = pos l; seg = pos g })
          else err bad_wal_segment_name))
unfolding is_wal_file segment_from_name
segment_from_name-name_of t l g ht hl hg = rw (base-name_of t l g) (
  wal_segment_re-name_of t l g,
  rw (wal_re-name_of t l g) (rw (length-name_of t l g) (parse_fields-name_of t l g ht hl hg)),
)

-- `Segment.Name` and `SegmentFromName` are inverse on the segments whose three fields are not
-- negative, as int32 values are below 2^31.
pub segment_from_name-segment_name :
    (t l g : ℕ)
    → t < 2 ^ 31
    → l < 2 ^ 31
    → g < 2 ^ 31
    → segment_from_name (segment_name (record { tli = pos t; log = pos l; seg = pos g }))
      ≡ ok (record { tli = pos t; log = pos l; seg = pos g })
unfolding segment_name
segment_from_name-segment_name t l g ht hl hg =
    (segment_from_name-name_of t l g (omega arith) (omega arith) (omega arith)).1
    ∙ rw (lt→ltb t (2 ^ 31) ht, lt→ltb l (2 ^ 31) hl, lt→ltb g (2 ^ 31) hg)
