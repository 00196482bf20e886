-- ===== src/Checksum/Errors.antt =====
-- What the shift register detects: it forgets nothing, so a single wrong byte always shows.
use native.Mathlib.Nat.{pow-suc}
use rpinode.Bits.{bit_xor-lt, bit_xor-injective, bit_xor-injective_left, bit_xor_top}
use rpinode.Checksum.{shift_bit, shift_bits, crc_from}
use rpinode.Prelude.{
  ℕ, zero, suc, ◌+◌, ◌*◌, ◌/◌, ◌^◌, ◌<◌, ◌≡◌, List, [], ◌∷◌, ◌++◌, arith, bit_xor, All,
}

-- The polynomial has its top digit set, at place k, in a register of k + 1 digits.
module _ (k m : ℕ) (m_fits : m < 2 ^ k) where
  double : 2 ^ suc k ≡ 2 * 2 ^ k
  double = omega (arith, pow-suc 2 k)

  shift_bit-lt : (c : ℕ) → c < 2 ^ suc k → shift_bit (2 ^ k + m) c < 2 ^ suc k
  unfolding shift_bit
  shift_bit-lt c h = ground (
    arith,
    double,
    bit_xor_top k (c / 2) m (omega (arith, double)) m_fits,
    bit_xor-lt k (c / 2) m (omega (arith, double)) m_fits,
  )

  shift_bit-injective :
      (c d : ℕ)
      → c < 2 ^ suc k
      → d < 2 ^ suc k
      → shift_bit (2 ^ k + m) c ≡ shift_bit (2 ^ k + m) d
      → c ≡ d
  unfolding shift_bit
  shift_bit-injective c d h g e = ground (
    arith,
    double,
    bit_xor_top k (c / 2) m (omega (arith, double)) m_fits,
    bit_xor_top k (d / 2) m (omega (arith, double)) m_fits,
    bit_xor-injective_left (2 ^ k + m) (c / 2) (d / 2),
  )

  shift_bits-lt : (n c : ℕ) → c < 2 ^ suc k → shift_bits (2 ^ k + m) n c < 2 ^ suc k
  unfolding shift_bits
  shift_bits-lt zero c h = h
  shift_bits-lt (suc n) c h = shift_bits-lt n (shift_bit (2 ^ k + m) c) (shift_bit-lt c h)

  shift_bits-injective :
      (n c d : ℕ)
      → c < 2 ^ suc k
      → d < 2 ^ suc k
      → shift_bits (2 ^ k + m) n c ≡ shift_bits (2 ^ k + m) n d
      → c ≡ d
  unfolding shift_bits
  shift_bits-injective zero c d h g e = e
  shift_bits-injective (suc n) c d h g e =
      shift_bit-injective c d h g
        (shift_bits-injective n _ _ (shift_bit-lt c h) (shift_bit-lt d g) e)

  abbrev FitsRegister : ℕ → Type 0
  FitsRegister b = b < 2 ^ suc k

  pub crc_from-lt :
      (bs : List ℕ) (c : ℕ)
      → All FitsRegister bs
      → c < 2 ^ suc k
      → crc_from (2 ^ k + m) c bs < 2 ^ suc k
  unfolding crc_from
  crc_from-lt [] c hs h = h
  crc_from-lt (b ∷ bs) c (hb, hs) h =
      crc_from-lt bs (shift_bits (2 ^ k + m) 8 (bit_xor c b)) hs
        (shift_bits-lt 8 (bit_xor c b) (bit_xor-lt (suc k) c b h hb))

  -- Over the same bytes, two registers that differ stay different.
  pub crc_from-injective :
      (bs : List ℕ) (c d : ℕ)
      → All FitsRegister bs
      → c < 2 ^ suc k
      → d < 2 ^ suc k
      → crc_from (2 ^ k + m) c bs ≡ crc_from (2 ^ k + m) d bs
      → c ≡ d
  unfolding crc_from
  crc_from-injective [] c d hs h g e = e
  crc_from-injective (b ∷ bs) c d (hb, hs) h g e = bit_xor-injective_left b c d (
      shift_bits-injective 8 _ _ (bit_xor-lt (suc k) c b h hb) (bit_xor-lt (suc k) d b g hb) (
        crc_from-injective bs _ _ hs (shift_bits-lt 8 _ (bit_xor-lt (suc k) c b h hb))
          (shift_bits-lt 8 _ (bit_xor-lt (suc k) d b g hb)) e))

  -- Two messages with one wrong byte never have the same checksum.
  pub crc_from_one_byte :
      (xs ys : List ℕ) (c a b : ℕ)
      → All FitsRegister xs
      → All FitsRegister ys
      → c < 2 ^ suc k
      → a < 2 ^ suc k
      → b < 2 ^ suc k
      → crc_from (2 ^ k + m) c (xs ++ a ∷ ys) ≡ crc_from (2 ^ k + m) c (xs ++ b ∷ ys)
      → a ≡ b
  unfolding crc_from
  crc_from_one_byte [] ys c a b hx hy h ha hb e = bit_xor-injective c a b (
      shift_bits-injective 8 _ _ (bit_xor-lt (suc k) c a h ha) (bit_xor-lt (suc k) c b h hb) (
        crc_from-injective ys _ _ hy (shift_bits-lt 8 _ (bit_xor-lt (suc k) c a h ha))
          (shift_bits-lt 8 _ (bit_xor-lt (suc k) c b h hb)) e))
  crc_from_one_byte (x ∷ xs) ys c a b (hx, hxs) hy h ha hb e =
      crc_from_one_byte xs ys (shift_bits (2 ^ k + m) 8 (bit_xor c x)) a b hxs hy
        (shift_bits-lt 8 _ (bit_xor-lt (suc k) c x h hx)) ha hb e
