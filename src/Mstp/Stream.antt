-- ===== src/Mstp/Stream.antt =====
-- `parse_mstp_stream` of src/services/bacnet_mstp.py.
pub mod Search
pub mod Header
pub mod Sound
pub mod Encode
pub mod Corrupt
mod Tests
use mathlib.Core.Option
use rpinode.Mstp.Crc.{crc8_header}
use rpinode.Prelude.{
  ℕ, zero, suc, ◌+◌, ◌-◌, ◌*◌, Option, none, some, List, [], ◌∷◌, ◌++◌, ◌&&◌, length, take, drop,
  get_or, ltb, ◌==◌, if◌then◌else◌,
}

pub record Frame : Type 0 where
  pub ftype : ℕ
  pub dest : ℕ
  pub src : ℕ
  pub length_field : ℕ

pub record Stats : Type 0 where
  pub crc_ok : ℕ
  pub crc_bad : ℕ
  pub stray_bytes : ℕ
  pub frames_with_stray : ℕ
  pub bytes : ℕ

-- The variables of the loop. The frames are in the order in which they were found.
pub record Loop : Type 0 where
  pub frames : List Frame
  pub stats : Stats
  pub i : ℕ
  pub prev_end : Option ℕ

-- The place of the first preamble in a suffix that begins at place `at` of the stream.
unfoldable pub find_preamble : ℕ → List ℕ → Option ℕ
find_preamble at [] = none
find_preamble at (a ∷ []) = none
find_preamble at (a ∷ b ∷ rest) =
    if a == 0x55 && b == 0xff then some at else find_preamble (at + 1) (b ∷ rest)

-- `data.find(MSTP_PREAMBLE, i)`: nothing is found from a place past the end.
unfoldable pub find_from : List ℕ → ℕ → Option ℕ
unfolding find_preamble
find_from stream i = find_preamble i (drop i stream)

-- `data[a:b]`
abbrev pub slice : List ℕ → ℕ → ℕ → List ℕ
slice xs a b = take (b - a) (drop a xs)

abbrev pub byte_at : List ℕ → ℕ → ℕ
byte_at xs i = get_or xs i 0

-- `(hdr[5] << 8) | hdr[6]`: the two bytes have no digit in common.
abbrev pub length_of : List ℕ → ℕ
length_of hdr = byte_at hdr 5 * 256 + byte_at hdr 6

-- A frame with data has two more bytes, the checksum of the data.
abbrev pub data_end : ℕ → ℕ → ℕ
data_end idx len = idx + 8 + len + (if len == 0 then 0 else 2)

abbrev pub count_stray : Option ℕ → ℕ → Stats → Stats
count_stray none idx stats = stats
count_stray (some prev) idx stats =
    if ltb prev idx
    then record stats {
      stray_bytes = stats.stray_bytes + (idx - prev);
      frames_with_stray = stats.frames_with_stray + 1;
    }
    else stats

-- The checksum of the header is right: the frame is kept, and the search goes on behind its data.
accept : List ℕ → ℕ → Loop → Loop
accept hdr idx s = record {
  frames =
      s.frames
      ++ record {
        ftype = byte_at hdr 2;
        dest = byte_at hdr 3;
        src = byte_at hdr 4;
        length_field = length_of hdr;
      }
        ∷ [];
  stats = count_stray s.prev_end idx (record s.stats { crc_ok = s.stats.crc_ok + 1 });
  i = if ltb idx (data_end idx (length_of hdr)) then data_end idx (length_of hdr) else idx + 1;
  prev_end = some (data_end idx (length_of hdr));
}

-- The checksum is wrong: the search goes on one byte further.
reject : ℕ → Loop → Loop
reject idx s = record s { stats = record s.stats { crc_bad = s.stats.crc_bad + 1 }; i = idx + 1 }

-- The round of the loop at a preamble at `idx` with the eight bytes `hdr`.
unfoldable pub round : List ℕ → ℕ → Loop → Loop
unfolding accept reject
round hdr idx s =
    if crc8_header (slice hdr 2 7) == byte_at hdr 7 then accept hdr idx s else reject idx s

-- `while True`, with the rounds left; `none` means that they ran out.
unfoldable pub parse_loop : ℕ → List ℕ → Loop → Option Loop
unfolding find_from
parse_loop zero stream s = none
parse_loop (suc fuel) stream s = elim (find_from stream s.i) [
  | none ↦ some s
  | some idx ↦
      let rest = parse_loop fuel stream (round (slice stream idx (idx + 8)) idx s) in
      if ltb (length stream) (idx + 8) then some s else rest
]

abbrev pub start : List ℕ → Loop
start stream = record {
  frames = [];
  stats = record {
    crc_ok = 0;
    crc_bad = 0;
    stray_bytes = 0;
    frames_with_stray = 0;
    bytes = length stream;
  };
  i = 0;
  prev_end = none;
}

-- Every round moves `i` forward, so one round more than there are bytes is enough.
unfoldable pub parse_mstp_stream : List ℕ → Option (List Frame × Stats)
unfolding parse_loop
parse_mstp_stream stream =
    Option.map (λ s. (s.frames, s.stats)) (parse_loop (length stream + 1) stream (start stream))
