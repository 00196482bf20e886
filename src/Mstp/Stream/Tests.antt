-- ===== src/Mstp/Stream/Tests.antt =====
-- The decoder on small streams.
use rpinode.Checksum.{shift_bits, shift_bit}
use rpinode.Mstp.Crc.{crc8_header}
use rpinode.Mstp.Stream.{
  Frame, Stats, Loop, find_preamble, accept, reject, round, start, parse_mstp_stream,
}
use rpinode.Mstp.Stream.Sound.{IsReport, parse_mstp_stream-IsReport}
use rpinode.Mstp.Stream.Encode.{Packet, encode_all, tally, parse_mstp_stream-encode}
use rpinode.Mstp.Stream.Corrupt.{with_check, round-one_byte}
use rpinode.Prelude.{ℕ, ◌≡◌, refl, some, true, List, [], ◌∷◌, map, arith}

-- A token from station 1 to station 2.
token : crc8_header (0 ∷ 2 ∷ 1 ∷ 0 ∷ 0 ∷ []) ≡ 0x73
unfolding crc8_header shift_bits shift_bit
token = refl

abbrev stream : List ℕ
stream =
    7 ∷ 0x55 ∷ 0xff ∷ 0 ∷ 2 ∷ 1 ∷ 0 ∷ 0 ∷ 0x73 ∷ 9 ∷ 0x55 ∷ 0xff ∷ 0 ∷ 2 ∷ 1 ∷ 0 ∷ 0 ∷ 0x73 ∷ []

abbrev token_frame : Frame
token_frame = record { ftype = 0; dest = 2; src = 1; length_field = 0 }

-- Two tokens with one stray byte between them, and one before that does not count.
two_tokens :
    parse_mstp_stream stream
    ≡ some (
      token_frame ∷ token_frame ∷ [],
      record { crc_ok = 2; crc_bad = 0; stray_bytes = 1; frames_with_stray = 1; bytes = 18 },
    )
unfolding parse_mstp_stream find_preamble round accept reject crc8_header shift_bits shift_bit
two_tokens = refl

parse_mstp_stream-IsReport_example :
    (frames : List Frame) × (stats : Stats) × (parse_mstp_stream stream ≡ some (frames, stats))
    × IsReport stream frames stats
parse_mstp_stream-IsReport_example = parse_mstp_stream-IsReport stream

-- A token, and a frame with three bytes of data behind two stray bytes.
abbrev packets : List Packet
packets =
    record { stray = []; frame = token_frame; payload = [] }
    ∷ record {
      stray = 1 ∷ 2 ∷ [];
      frame = record { ftype = 5; dest = 1; src = 2; length_field = 3 };
      payload = 10 ∷ 11 ∷ 12 ∷ 13 ∷ 14 ∷ [];
    }
    ∷ []

parse_mstp_stream-encode_example :
    parse_mstp_stream (encode_all packets)
    ≡ some (map (λ p. p.frame) packets, tally true packets (start (encode_all packets)).stats)
parse_mstp_stream-encode_example = parse_mstp_stream-encode packets (
  record { quiet = tt; fits = omega arith; full = refl },
  (record { quiet = (omega arith, (omega arith, tt)); fits = omega arith; full = refl }, tt),
)

abbrev fresh : Loop
fresh = start []

round-one_byte_example :
    round (with_check (0 ∷ 3 ∷ 1 ∷ 0 ∷ 0 ∷ []) (crc8_header (0 ∷ 2 ∷ 1 ∷ 0 ∷ 0 ∷ []))) 4 fresh
    ≡ record fresh { stats = record fresh.stats { crc_bad = 1 }; i = 5 }
round-one_byte_example =
    round-one_byte (0 ∷ []) (1 ∷ 0 ∷ 0 ∷ []) 2 3 4 fresh (omega arith) (omega arith, tt)
      (omega arith, (omega arith, (omega arith, tt))) (omega arith) (omega arith) (omega arith)
