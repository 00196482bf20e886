-- ===== src/Modbus/Wire/Corrupt.antt =====
-- What the RTU checksum keeps out.
use rpinode.Checksum.Errors.{crc_from_one_byte}
use rpinode.Modbus.Error.{bad_crc, modbus, err}
use rpinode.Modbus.Wire.{crc16, check_body, check_rtu}
use rpinode.Prelude.{
  ℕ, suc, ◌+◌, ◌-◌, ◌*◌, ◌/◌, ◌%◌, ◌≤◌, ◌<◌, ◌^◌, ◌≡◌, ◌≢◌, List, [], ◌∷◌, ◌++◌, ◌==◌, false, ltb,
  arith, length, drop, length-append, All, le→not_ltb, get_or-length-append, get_or_second,
  take-length-append, if◌then◌else◌,
}

abbrev pub IsByte : ℕ → Type 0
IsByte b = b < 256

-- The bytes of a frame behind which stands the checksum `crc`, low byte first.
abbrev pub with_crc : List ℕ → ℕ → List ℕ
with_crc raw crc = raw ++ crc % 256 ∷ crc / 256 ∷ []

-- On a frame of four bytes or more, the checks compare the two checksums and go on with the body.
pub check_rtu-with_crc :
    (raw : List ℕ) (crc : ℕ)
    → 2 ≤ length raw
    → check_rtu (with_crc raw crc) ≡ (
        if crc == crc16 raw
        then check_body (drop 1 raw)
        else err (modbus (bad_crc crc (crc16 raw))))
unfolding check_rtu
check_rtu-with_crc raw crc h =
    let lo : ℕ = crc % 256 in
    let hi : ℕ = crc / 256 in
    let n : length (raw ++ lo ∷ hi ∷ []) ≡ length raw + 2 = length-append raw (lo ∷ hi ∷ []) in
    let last : length (raw ++ lo ∷ hi ∷ []) - 1 ≡ suc (length raw) = omega arith in
    let last2 : length (raw ++ lo ∷ hi ∷ []) - 2 ≡ length raw = omega arith in
    let long : ltb (length (raw ++ lo ∷ hi ∷ [])) 4 ≡ false = le→not_ltb 4 _ (omega arith) in
    let sum : hi * 256 + lo ≡ crc = omega arith in
    rw (
      long,
      last,
      last2,
      get_or_second raw lo hi [] 0,
      get_or-length-append raw lo (hi ∷ []) 0,
      take-length-append raw (lo ∷ hi ∷ []),
      sum,
    )

abbrev FitsRegister : ℕ → Type 0
FitsRegister b = b < 2 ^ 16

fits : (bs : List ℕ) → All IsByte bs → All FitsRegister bs
fits [] h = tt
fits (b ∷ bs) (h, hs) = (omega arith, fits bs hs)

crc16_one_byte :
    (xs ys : List ℕ) (a b : ℕ)
    → All IsByte xs
    → All IsByte ys
    → a < 256
    → b < 256
    → crc16 (xs ++ a ∷ ys) ≡ crc16 (xs ++ b ∷ ys)
    → a ≡ b
unfolding crc16
crc16_one_byte xs ys a b hx hy ha hb e =
    crc_from_one_byte 15 0x2001 (omega arith) xs ys 0xffff a b (fits xs hx) (fits ys hy)
      (omega arith) (omega arith) (omega arith) e

-- A frame of four bytes or more with the checksum of another frame, from which it differs in one byte.
pub check_rtu_one_byte :
    (xs ys : List ℕ) (a b : ℕ)
    → 1 ≤ length xs + length ys
    → All IsByte xs
    → All IsByte ys
    → a < 256
    → b < 256
    → a ≢ b
    → check_rtu (with_crc (xs ++ b ∷ ys) (crc16 (xs ++ a ∷ ys)))
      ≡ err (modbus (bad_crc (crc16 (xs ++ a ∷ ys)) (crc16 (xs ++ b ∷ ys))))
check_rtu_one_byte xs ys a b long hx hy ha hb ne =
    let wrong : (crc16 (xs ++ a ∷ ys) == crc16 (xs ++ b ∷ ys)) ≡ false =
      ground (arith, crc16_one_byte xs ys a b hx hy ha hb) in
    rw (
      check_rtu-with_crc (xs ++ b ∷ ys) (crc16 (xs ++ a ∷ ys))
          (omega (arith, length-append xs (b ∷ ys))),
      wrong,
    )
