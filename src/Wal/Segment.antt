-- ===== src/Wal/Segment.antt =====
-- WAL segment names, from internal/cnpgi/common/wal_import.go. The int32 fields are integers, and
-- `++` on them wraps around.
pub mod Names
pub mod Next
use cnpg_plugin_pgbackrest.Base.{
  ℕ, zero, suc, ◌-◌, ◌/◌, ◌+◌, ◌^◌, Bool, true, false, ◌&&◌, ◌||◌, List, [], ◌∷◌, ◌++◌, Option,
  none, some, Text, codes, str_eq, ltb, leb, ◌==◌, if◌then◌else◌, Result, ok, err, Error, length,
  is_nil, bad_wal_segment_name, ◌>>=◌,
}
use cnpg_plugin_pgbackrest.Base.Int.{ℤ, pos, negsuc, inc32, ltb_ℤ, eqb_ℤ}
use cnpg_plugin_pgbackrest.Go.Paths
use cnpg_plugin_pgbackrest.Go.Strconv.{parse_int, format_08X}

pub record Segment : Type 0 where
  pub tli : ℤ
  pub log : ℤ
  pub seg : ℤ

abbrev pub default_wal_segment_size : ℕ
default_wal_segment_size = 16777216

-- `[\dA-Fa-f]`
unfoldable pub is_hex : ℕ → Bool
is_hex c = leb b'0' c && leb c b'9' || leb b'A' c && leb c b'F' || leb b'a' c && leb c b'f'

-- A group of `n` hexadecimal digits, and the text behind it.
unfoldable pub hex_run : ℕ → Text → Option (Text × Text)
unfolding is_hex
hex_run zero s = some ([], s)
hex_run (suc n) [] = none
hex_run (suc n) (c ∷ s) = elim (hex_run n s) [
  | none ↦ none
  | some (run, rest) ↦ if is_hex c then some (c ∷ run, rest) else none
]

-- `\.[\dA-Fa-f]{8}\.backup`, to the end
is_backup_offset : Text → Bool
unfolding hex_run codes str_eq
is_backup_offset [] = false
is_backup_offset (c ∷ s) = elim (hex_run 8 s) [
  | none ↦ false
  | some (run, rest) ↦ c == b'.' && str_eq rest (codes ".backup")
]

-- What may stand behind the segment name: nothing, a backup label's offset, or `.partial`.
unfoldable pub is_wal_tail : Text → Bool
unfolding is_backup_offset codes str_eq
is_wal_tail s = is_nil s || is_backup_offset s || str_eq s (codes ".partial")

-- The submatches of a WAL file's name: the whole, the timeline, the log and the segment.
pub record Submatches : Type 0 where
  pub whole : Text
  pub timeline : Text
  pub log : Text
  pub segment : Text

-- The last part of the match: the eight digits of the segment, and the tail.
wal_re_segment : Text → Text → Text → Option (Text × Text) → Option Submatches
unfolding is_wal_tail
wal_re_segment s tli log none = none
wal_re_segment s tli log (some (seg, tail)) =
    if is_wal_tail tail
    then some (record { whole = s; timeline = tli; log = log; segment = seg })
    else none

wal_re_log : Text → Text → Option (Text × Text) → Option Submatches
unfolding wal_re_segment hex_run
wal_re_log s tli none = none
wal_re_log s tli (some (log, rest)) = wal_re_segment s tli log (hex_run 8 rest)

wal_re_timeline : Text → Option (Text × Text) → Option Submatches
unfolding wal_re_log hex_run codes str_eq
wal_re_timeline s none = none
wal_re_timeline s (some (tli, rest)) =
    if str_eq rest (codes ".history")
    then some (record { whole = s; timeline = tli; log = []; segment = [] })
    else wal_re_log s tli (hex_run 8 rest)

-- `WALRe.FindStringSubmatch(s)`
unfoldable pub wal_re : Text → Option Submatches
unfolding wal_re_timeline
wal_re s = wal_re_timeline s (hex_run 8 s)

is_whole_run : Option (Text × Text) → Bool
is_whole_run none = false
is_whole_run (some (run, rest)) = is_nil rest

-- `WALSegmentRe.MatchString(s)`: 24 digits and nothing more.
unfoldable pub wal_segment_re : Text → Bool
unfolding hex_run is_whole_run
wal_segment_re s = is_whole_run (hex_run 24 s)

-- `IsWALFile`
unfoldable pub is_wal_file : Text → Bool
unfolding wal_segment_re
is_wal_file name = wal_segment_re (Paths.base name)

-- A `ParseInt(…, 16, 32)`, whose errors become ErrBadWALSegmentName.
field_of : Option ℤ → Result ℤ
field_of none = err bad_wal_segment_name
field_of (some n) = ok n

unfoldable pub parse_fields : Submatches → Result Segment
unfolding field_of
parse_fields m = do
  tli ← field_of (parse_int 16 32 m.timeline)
  log ← field_of (parse_int 16 32 m.log)
  seg ← field_of (parse_int 16 32 m.segment)
  ok (record { tli = tli; log = log; seg = seg })

segment_of_match : Option Submatches → Result Segment
unfolding parse_fields
segment_of_match none = err bad_wal_segment_name
segment_of_match (some m) =
    if length m.whole == 24 then parse_fields m else err bad_wal_segment_name

-- `SegmentFromName`
unfoldable pub segment_from_name : Text → Result Segment
unfolding wal_re segment_of_match
segment_from_name name = segment_of_match (wal_re (Paths.base name))

-- `Segment.Name`
unfoldable pub segment_name : Segment → Text
unfolding format_08X
segment_name s = format_08X s.tli ++ (format_08X s.log ++ format_08X s.seg)

-- `WalSegmentsPerFile`, at a size for which the int32 conversion keeps the value (512 bytes or more).
unfoldable pub wal_segments_per_file : ℕ → ℕ
wal_segments_per_file size = 0xFFFFFFFF / size

-- The step of the loop: the next segment, in the next log when the file is full.
unfoldable pub advance : ℕ → Bool → Segment → Segment
unfolding inc32
advance per_file skip_last s =
    let seg = inc32 s.seg in
    if ltb_ℤ (pos per_file) seg || (skip_last && eqb_ℤ seg (pos per_file))
    then record s { log = inc32 s.log; seg = pos 0 }
    else record s { seg = seg }

-- The loop of `NextSegments`, over the segments that are still wanted.
unfoldable pub next_segments_loop : ℕ → ℕ → Bool → Segment → List Segment
next_segments_loop zero per_file skip_last current = []
next_segments_loop (suc n) per_file skip_last current =
    current ∷ next_segments_loop n per_file skip_last (advance per_file skip_last current)

abbrev segment_size_or_default : Option ℕ → ℕ
segment_size_or_default none = default_wal_segment_size
segment_size_or_default (some size) = size

abbrev skips_last : Option ℕ → Bool
skips_last none = false
skips_last (some version) = ltb version 90300

-- `NextSegments`
unfoldable pub next_segments : Segment → ℕ → Option ℕ → Option ℕ → List Segment
unfolding next_segments_loop wal_segments_per_file
next_segments segment size version segment_size =
    next_segments_loop size (wal_segments_per_file (segment_size_or_default segment_size))
      (skips_last version) segment
