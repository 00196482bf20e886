-- ===== src/Mstp/Stream/Sound.antt =====
-- What the decoder reports is in the stream, and its counts are those of the stream.
use mathlib.Core.Option
use rpinode.Mstp.Crc.{crc8_header}
use rpinode.Mstp.Stream.{
  Frame, Stats, Loop, find_from, slice, byte_at, accept, reject, round, parse_loop, start,
  parse_mstp_stream,
}
use rpinode.Mstp.Stream.Header.{HeaderAt, header_at}
use rpinode.Mstp.Stream.Search.{find_from_sound}
use rpinode.Prelude.{
  ℕ, zero, suc, ◌+◌, ◌*◌, ◌≤◌, ◌<◌, ◌≡◌, refl, ap, Option, none, some, List, [], ◌∷◌, ◌==◌, ltb,
  Bool, true, false, inl, inr, Bool-cases, Option-cases, arith, length, drop, length-append, All,
  All-append, ==_iff,
}

-- The frame stands in the stream at place `idx`, with a header checksum that is right.
pub record IsFrameAt (stream : List ℕ) (idx : ℕ) (f : Frame) : Type 0 where
  pub hi : ℕ
  pub lo : ℕ
  pub check : ℕ
  pub tail : List ℕ
  pub found : drop idx stream ≡ 0x55 ∷ 0xff ∷ f.ftype ∷ f.dest ∷ f.src ∷ hi ∷ lo ∷ check ∷ tail
  pub checked : crc8_header (f.ftype ∷ f.dest ∷ f.src ∷ hi ∷ lo ∷ []) ≡ check
  pub sized : f.length_field ≡ hi * 256 + lo

abbrev pub IsGenuine : List ℕ → Frame → Type 0
IsGenuine stream f = (idx : ℕ) × IsFrameAt stream idx f

abbrev end_of : Option ℕ → ℕ
end_of none = 0
end_of (some e) = e

record Sound (stream : List ℕ) (s : Loop) : Type 0 where
  genuine : All (IsGenuine stream) s.frames
  counted : s.stats.crc_ok ≡ length s.frames
  sized : s.stats.bytes ≡ length stream
  ended : end_of s.prev_end ≤ s.i
  room : s.stats.stray_bytes + 8 * s.stats.crc_ok ≤ end_of s.prev_end
  fits : s.stats.stray_bytes + 8 * s.stats.crc_ok ≤ length stream
  passed : s.stats.crc_ok + s.stats.crc_bad ≤ s.i
  tried : s.stats.crc_ok + s.stats.crc_bad ≤ length stream
  strays : s.stats.frames_with_stray ≤ s.stats.crc_ok
  stray_sized : s.stats.frames_with_stray ≤ s.stats.stray_bytes

accept-Sound :
    (stream : List ℕ) (s : Loop) (idx : ℕ) (hd : HeaderAt stream idx)
    → s.i ≤ idx
    → idx + 8 ≤ length stream
    → crc8_header (hd.f.ftype ∷ hd.f.dest ∷ hd.f.src ∷ hd.hi ∷ hd.lo ∷ []) ≡ hd.check
    → Sound stream s
    → Sound stream (accept (slice stream idx (idx + 8)) idx s)
unfolding accept
accept-Sound stream s idx hd later h good inv = rw hd.bytes (record {
  genuine = All-append (IsGenuine stream) s.frames _ inv.genuine (
    (
      idx,
      record {
        hi = hd.hi;
        lo = hd.lo;
        check = hd.check;
        tail = hd.tail;
        found = hd.found;
        checked = good;
        sized = refl;
      },
    ),
    tt,
  );
  counted = ground (arith, length-append s.frames (hd.f ∷ []));
  sized = ground arith;
  ended = ground arith;
  room = ground arith;
  fits = ground arith;
  passed = ground arith;
  tried = ground arith;
  strays = ground arith;
  stray_sized = ground arith;
})

reject-Sound :
    (stream : List ℕ) (s : Loop) (idx : ℕ)
    → s.i ≤ idx
    → idx + 8 ≤ length stream
    → Sound stream s
    → Sound stream (reject idx s)
unfolding reject
reject-Sound stream s idx later h inv = record {
  genuine = inv.genuine;
  counted = inv.counted;
  sized = inv.sized;
  ended = omega arith;
  room = inv.room;
  fits = inv.fits;
  passed = omega arith;
  tried = omega arith;
  strays = inv.strays;
  stray_sized = inv.stray_sized;
}

abbrev header_ok : List ℕ → Bool
header_ok hdr = crc8_header (slice hdr 2 7) == byte_at hdr 7

round_good :
    (hdr : List ℕ) (idx : ℕ) (s : Loop) → header_ok hdr ≡ true → round hdr idx s ≡ accept hdr idx s
unfolding round
round_good hdr idx s h = rw h

round_bad :
    (hdr : List ℕ) (idx : ℕ) (s : Loop) → header_ok hdr ≡ false → round hdr idx s ≡ reject idx s
unfolding round
round_bad hdr idx s h = rw h

-- A frame whose checksum is right is added, and any other leaves a trace in the counts alone.
round-Sound :
    (stream : List ℕ) (s : Loop) (idx : ℕ)
    → HeaderAt stream idx
    → s.i ≤ idx
    → idx + 8 ≤ length stream
    → Sound stream s
    → Sound stream (round (slice stream idx (idx + 8)) idx s)
round-Sound stream s idx hd later h inv =
    let hdr = slice stream idx (idx + 8) in
    elim (Bool-cases (header_ok hdr)) [
      | inl good ↦
          let right : header_ok (slice stream idx (idx + 8)) ≡ true = good in
          rw (round_good hdr idx s good)
            (accept-Sound stream s idx hd later h ((==_iff _ _).0 (rw hd.bytes at right)) inv)
      | inr bad ↦ rw (round_bad hdr idx s bad) (reject-Sound stream s idx later h inv)
    ]

round_advances : (hdr : List ℕ) (idx : ℕ) (s : Loop) → idx < (round hdr idx s).i
unfolding round
round_advances hdr idx s = ground arith

-- Enough rounds are given, and the state at the end is sound.
abbrev Ends : List ℕ → Option Loop → Type 0
Ends stream r = (s : Loop) × (r ≡ some s) × Sound stream s

parse_loop-Sound :
    (fuel : ℕ) (stream : List ℕ) (s : Loop)
    → 0 < fuel
    → length stream < fuel + s.i
    → Sound stream s
    → Ends stream (parse_loop fuel stream s)
unfolding parse_loop
parse_loop-Sound zero stream s p h inv = elim p [ ]
parse_loop-Sound (suc fuel) stream s p h inv = elim (Option-cases (find_from stream s.i)) [
  | inl gone ↦ (s, rw (gone, parse_loop), inv)
  | inr (idx, found) ↦ elim (Bool-cases (ltb (length stream) (idx + 8))) [
    | inl short ↦ (s, rw (found, parse_loop, short), inv)
    | inr long ↦
        let (_, later, _) = find_from_sound stream s.i idx found in
        let room : idx + 8 ≤ length stream = ground arith in
        let (end, e, sound) =
          parse_loop-Sound fuel stream (round (slice stream idx (idx + 8)) idx s) (omega arith)
            (omega (arith, round_advances (slice stream idx (idx + 8)) idx s))
            (round-Sound stream s idx (header_at stream s.i idx found room) later room inv) in
        (end, rw (found, parse_loop, long) e, sound)
  ]
]

start-Sound : (stream : List ℕ) → Sound stream (start stream)
start-Sound stream = record {
  genuine = tt;
  counted = refl;
  sized = refl;
  ended = omega arith;
  room = omega arith;
  fits = omega arith;
  passed = omega arith;
  tried = omega arith;
  strays = omega arith;
  stray_sized = omega arith;
}

-- What a result of the decoder promises of its stream.
pub record IsReport (stream : List ℕ) (frames : List Frame) (stats : Stats) : Type 0 where
  pub genuine : All (IsGenuine stream) frames
  pub counted : stats.crc_ok ≡ length frames
  pub sized : stats.bytes ≡ length stream
  pub fits : stats.stray_bytes + 8 * stats.crc_ok ≤ stats.bytes
  pub tried : stats.crc_ok + stats.crc_bad ≤ stats.bytes
  pub strays : stats.frames_with_stray ≤ stats.crc_ok
  pub stray_sized : stats.frames_with_stray ≤ stats.stray_bytes

-- The decoder ends on every stream, and each frame that it reports stands in the stream with a
-- right header checksum. It counts its frames and the bytes of the stream; eight bytes for each
-- frame and the stray bytes fit the stream, no more headers are tried than there are bytes, and
-- a frame counted as preceded by stray bytes is one of the frames and has such a byte.
pub parse_mstp_stream-IsReport :
    (stream : List ℕ)
    → (frames : List Frame) × (stats : Stats) × (parse_mstp_stream stream ≡ some (frames, stats))
      × IsReport stream frames stats
unfolding parse_mstp_stream
parse_mstp_stream-IsReport stream =
    let (s, e, sound) =
      parse_loop-Sound (length stream + 1) stream (start stream) (omega arith) (omega arith)
        (start-Sound stream) in
    (
      s.frames,
      s.stats,
      ap (Option.map (λ t. (t.frames, t.stats))) e,
      record {
        genuine = sound.genuine;
        counted = sound.counted;
        sized = sound.sized;
        fits = omega arith;
        tried = omega arith;
        strays = sound.strays;
        stray_sized = sound.stray_sized;
      },
    )
