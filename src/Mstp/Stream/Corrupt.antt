-- ===== src/Mstp/Stream/Corrupt.antt =====
-- What the header checksum keeps out of the decoder's report.
use rpinode.Checksum.{crc_from}
use rpinode.Checksum.Errors.{crc_from-lt, crc_from_one_byte}
use rpinode.Mstp.Crc.{crc8_header}
use rpinode.Mstp.Stream.{Loop, slice, byte_at, reject, round}
use rpinode.Prelude.{
  ℕ, ◌+◌, ◌<◌, ◌≡◌, ◌≢◌, refl, List, [], ◌∷◌, ◌++◌, ◌==◌, false, arith, length, length-append, All,
  All-append,
}

abbrev pub IsByte : ℕ → Type 0
IsByte b = b < 256

crc8_lt : (bs : List ℕ) → All IsByte bs → crc_from 0x81 0xff bs < 256
crc8_lt bs h = crc_from-lt 7 1 (omega arith) bs 0xff h (omega arith)

crc8_one_byte :
    (xs ys : List ℕ) (a b : ℕ)
    → All IsByte xs
    → All IsByte ys
    → a < 256
    → b < 256
    → crc8_header (xs ++ a ∷ ys) ≡ crc8_header (xs ++ b ∷ ys)
    → a ≡ b
unfolding crc8_header
crc8_one_byte xs ys a b hx hy ha hb e =
    crc_from_one_byte 7 1 (omega arith) xs ys 0xff a b hx hy (omega arith) ha hb (
      omega (
        arith,
        crc8_lt (xs ++ a ∷ ys) (All-append IsByte xs (a ∷ ys) hx (ha, hy)),
        crc8_lt (xs ++ b ∷ ys) (All-append IsByte xs (b ∷ ys) hx (hb, hy)),
      ))

-- The header of eight bytes with the five that the checksum covers.
abbrev pub with_check : List ℕ → ℕ → List ℕ
with_check five check = 0x55 ∷ 0xff ∷ five ++ check ∷ []

slice-with_check :
    (five : List ℕ) (check : ℕ)
    → length five ≡ 5
    → (slice (with_check five check) 2 7 ≡ five) × (byte_at (with_check five check) 7 ≡ check)
slice-with_check (a ∷ b ∷ c ∷ d ∷ e ∷ []) check h = (refl, refl)
slice-with_check five check h = absurd (omega arith)

-- A header in which one byte of the type, the addresses or the length was changed on the way is
-- refused: no frame is added, one more wrong checksum is counted, the other counts stay, and the
-- search goes on one byte further.
pub round-one_byte :
    (xs ys : List ℕ) (a b idx : ℕ) (s : Loop)
    → length xs + length ys ≡ 4
    → All IsByte xs
    → All IsByte ys
    → a < 256
    → b < 256
    → a ≢ b
    → round (with_check (xs ++ b ∷ ys) (crc8_header (xs ++ a ∷ ys))) idx s
      ≡ record s { stats = record s.stats { crc_bad = s.stats.crc_bad + 1 }; i = idx + 1 }
unfolding round reject
round-one_byte xs ys a b idx s five hx hy ha hb ne =
    let check = crc8_header (xs ++ a ∷ ys) in
    let (covered, last) =
      slice-with_check (xs ++ b ∷ ys) check (omega (arith, length-append xs (b ∷ ys))) in
    let wrong : (crc8_header (xs ++ b ∷ ys) == check) ≡ false =
      ground (arith, crc8_one_byte xs ys a b hx hy ha hb) in
    rw (covered, last, wrong)
