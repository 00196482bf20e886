-- ===== src/Mstp/Stream/Encode.antt =====
-- What the decoder makes of a stream that is a row of frames, each behind some stray bytes.
use mathlib.Core.Option
use mathlib.Core.List.{append_assoc, append-nil}
use rpinode.Mstp.Crc.{crc8_header}
use rpinode.Mstp.Stream.{
  Frame, Stats, Loop, find_preamble, find_from, slice, data_end, count_stray, accept, round,
  parse_loop, start, parse_mstp_stream,
}
use rpinode.Mstp.Stream.Search.{drop-drop, find_from_end}
use rpinode.Prelude.{
  ℕ, zero, suc, ◌+◌, ◌-◌, ◌*◌, ◌/◌, ◌%◌, ◌≤◌, ◌<◌, ◌≡◌, ◌≢◌, refl, sym, ◌∙◌, ap, Option, none, some,
  List, [], ◌∷◌, ◌++◌, map, ◌==◌, ltb, Bool, true, false, arith, length, drop, length-append,
  length-drop, drop-length-append, lt→ltb, le→not_ltb, ap₂, All, ==_refl, if◌then◌else◌,
}

-- A frame on the wire: the bytes before it that belong to no frame, its header, its data.
pub record Packet : Type 0 where
  pub stray : List ℕ
  pub frame : Frame
  pub payload : List ℕ

-- The data of a frame is followed by a checksum of two bytes.
abbrev payload_size : ℕ → ℕ
payload_size len = if len == 0 then 0 else len + 2

pub record IsPacket (p : Packet) : Type 0 where
  pub quiet : All (λ b. b ≢ 0x55) p.stray
  pub fits : p.frame.length_field < 65536
  pub full : length p.payload ≡ payload_size p.frame.length_field

abbrev fields : Frame → List ℕ
fields f = f.ftype ∷ f.dest ∷ f.src ∷ f.length_field / 256 ∷ f.length_field % 256 ∷ []

-- The eight bytes of a header.
abbrev header : Frame → List ℕ
header f = 0x55 ∷ 0xff ∷ fields f ++ crc8_header (fields f) ∷ []

abbrev encode : Packet → List ℕ
encode p = p.stray ++ (header p.frame ++ p.payload)

abbrev pub encode_all : List Packet → List ℕ
encode_all [] = []
encode_all (p ∷ ps) = encode p ++ encode_all ps

-- The counts that the row of frames calls for: stray bytes count between two frames only.
abbrev count_gap : Bool → List ℕ → Stats → Stats
count_gap first [] stats = stats
count_gap true (b ∷ bs) stats = stats
count_gap false (b ∷ bs) stats = record stats {
  stray_bytes = stats.stray_bytes + length (b ∷ bs);
  frames_with_stray = stats.frames_with_stray + 1;
}

abbrev pub tally : Bool → List Packet → Stats → Stats
tally first [] stats = stats
tally first (p ∷ ps) stats =
    tally false ps (count_gap first p.stray (record stats { crc_ok = stats.crc_ok + 1 }))

find_preamble_behind :
    (at : ℕ) (stray rest : List ℕ)
    → All (λ b. b ≢ 0x55) stray
    → find_preamble at (stray ++ (0x55 ∷ 0xff ∷ rest)) ≡ some (at + length stray)
unfolding find_preamble
find_preamble_behind at [] rest h = ap some (omega arith)
find_preamble_behind at (b ∷ []) rest (h, _) = ground (arith)
find_preamble_behind at (b ∷ c ∷ stray) rest (h, hs) =
    ground (arith, find_preamble_behind (at + 1) (c ∷ stray) rest hs)

abbrev counted : Stats → Stats
counted stats = record stats { crc_ok = stats.crc_ok + 1 }

-- The variables of the loop after a frame at `idx`.
abbrev after : Frame → ℕ → Loop → Loop
after f idx s = record {
  frames = s.frames ++ f ∷ [];
  stats = count_stray s.prev_end idx (counted s.stats);
  i = data_end idx f.length_field;
  prev_end = some (data_end idx f.length_field);
}

accept-header : (f : Frame) (idx : ℕ) (s : Loop) → accept (header f) idx s ≡ after f idx s
unfolding accept
accept-header f idx s =
    let e : f.length_field / 256 * 256 + f.length_field % 256 ≡ f.length_field = omega arith in
    rw (e, lt→ltb idx (data_end idx f.length_field) (omega arith))

round-header : (f : Frame) (idx : ℕ) (s : Loop) → round (header f) idx s ≡ after f idx s
unfolding round
round-header f idx s = rw (==_refl, accept-header)

module _ (stream pre : List ℕ) (p : Packet) (rest : List ℕ)
    (here : stream ≡ pre ++ (encode p ++ rest)) where
  abbrev place : ℕ
  place = length pre + length p.stray

  stream_at_stray : drop (length pre) stream ≡ encode p ++ rest
  stream_at_stray = rw here (drop-length-append pre (encode p ++ rest))

  stream_at_header : drop place stream ≡ header p.frame ++ (p.payload ++ rest)
  stream_at_header =
      let e : place ≡ length p.stray + length pre = omega arith in
      rw (e, ← drop-drop (length pre) (length p.stray) stream, stream_at_stray)
        (rw append_assoc (drop-length-append p.stray _))

  slice-header : slice stream place (place + 8) ≡ header p.frame
  slice-header = let e : place + 8 - place ≡ 8 = omega arith in rw (e, stream_at_header)

  find_from-stray : All (λ b. b ≢ 0x55) p.stray → find_from stream (length pre) ≡ some place
  unfolding find_from
  find_from-stray quiet =
      rw (stream_at_stray, append_assoc) (find_preamble_behind (length pre) p.stray _ quiet)

  room : place + 8 ≤ length stream
  room = omega (arith, ap length stream_at_header, length-drop place stream)

-- The end of the frame before, as the loop keeps it.
abbrev prev_of : Bool → ℕ → Option ℕ
prev_of true n = none
prev_of false n = some n

count_stray-gap :
    (first : Bool) (n : ℕ) (stray : List ℕ) (stats : Stats)
    → count_stray (prev_of first n) (n + length stray) stats ≡ count_gap first stray stats
count_stray-gap true n [] stats = refl
count_stray-gap true n (b ∷ bs) stats = refl
count_stray-gap false n [] stats = ground arith
count_stray-gap false n (b ∷ bs) stats = ground arith

length-encode :
    (p : Packet) → IsPacket p → length (encode p) ≡ length p.stray + 8 + length p.payload
length-encode p h = omega (arith, length-append p.stray (header p.frame ++ p.payload))

data_end-encode :
    (n : ℕ) (p : Packet)
    → IsPacket p
    → data_end (n + length p.stray) p.frame.length_field ≡ n + length (encode p)
data_end-encode n p h = ground (arith, length-encode p h, h.full)

abbrev Result : Option Loop → List Frame → Stats → Type 0
Result r frames stats = (end : Loop) × (r ≡ some end) × (end.frames ≡ frames) × (end.stats ≡ stats)

parse_loop-encode :
    (ps : List Packet) (fuel : ℕ) (stream pre : List ℕ) (first : Bool) (s : Loop)
    → length ps < fuel
    → stream ≡ pre ++ encode_all ps
    → s.i ≡ length pre
    → s.prev_end ≡ prev_of first (length pre)
    → All IsPacket ps
    → Result (parse_loop fuel stream s) (s.frames ++ map (λ p. p.frame) ps) (tally first ps s.stats)
unfolding parse_loop
parse_loop-encode ps zero stream pre first s fuel here at prev hs = elim fuel [ ]
parse_loop-encode [] (suc n) stream pre first s fuel here at prev hs =
    let nil : drop s.i stream ≡ [] = rw (at, here) (drop-length-append pre []) in
    (s, rw (find_from_end stream s.i nil, parse_loop), sym (append-nil s.frames), refl)
parse_loop-encode (p ∷ ps) (suc n) stream pre first s fuel here at prev (h, hs) =
    let idx : ℕ = length pre + length p.stray in
    let found : find_from stream s.i ≡ some idx =
      rw at (find_from-stray stream pre p (encode_all ps) here h.quiet) in
    let long : ltb (length stream) (idx + 8) ≡ false =
      le→not_ltb _ _ (room stream pre p (encode_all ps) here) in
    let next : round (slice stream idx (idx + 8)) idx s ≡ after p.frame idx s =
      rw (slice-header stream pre p (encode_all ps) here) (round-header p.frame idx s) in
    let ended : data_end idx p.frame.length_field ≡ length (pre ++ encode p) =
      data_end-encode (length pre) p h ∙ sym (length-append pre (encode p)) in
    let (end, e, fs, st) =
      parse_loop-encode ps n stream (pre ++ encode p) false (after p.frame idx s) (omega arith)
        (here ∙ sym (append_assoc pre (encode p) (encode_all ps))) ended (ap some ended) hs in
    (
      end,
      rw (found, parse_loop, long, next) e,
      fs ∙ append_assoc s.frames (p.frame ∷ []) (map (λ q. q.frame) ps),
      st
          ∙ ap (tally false ps) (
              ap (λ o. count_stray o idx (counted s.stats)) prev
              ∙ count_stray-gap first (length pre) p.stray (counted s.stats)),
    )

packets_fit : (ps : List Packet) → length ps ≤ length (encode_all ps)
packets_fit [] = omega arith
packets_fit (p ∷ ps) = omega (
  arith,
  length-append (encode p) (encode_all ps),
  length-append p.stray (header p.frame ++ p.payload),
  packets_fit ps,
)

-- Of a row of frames, each behind stray bytes with no first preamble byte among them, with a length
-- below 65536 and followed by data of that length, the decoder reports every frame, in order. No
-- checksum is wrong, and the stray bytes counted are those between two frames.
pub parse_mstp_stream-encode :
    (ps : List Packet)
    → All IsPacket ps
    → parse_mstp_stream (encode_all ps)
      ≡ some (map (λ p. p.frame) ps, tally true ps (start (encode_all ps)).stats)
unfolding parse_mstp_stream
parse_mstp_stream-encode ps hs =
    let (end, e, fs, st) =
      parse_loop-encode ps (length (encode_all ps) + 1) (encode_all ps) [] true
        (start (encode_all ps)) (omega (arith, packets_fit ps)) refl refl refl hs in
    ap (Option.map (λ t. (t.frames, t.stats))) e ∙ ap₂ (λ a b. some (a, b)) fs st
