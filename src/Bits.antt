-- ===== src/Bits.antt =====
-- Laws of the exclusive or at variables, which the checksums of the serial protocols need.
use Prim.Native.Nat.{digits, bit_xor-bitwise, differ}
use native.Mathlib.Nat.{le_refl, pow-suc}
use rpinode.Prelude.{
  ℕ, zero, suc, ◌+◌, ◌*◌, ◌/◌, ◌%◌, ◌^◌, ◌≤◌, ◌<◌, ◌≡◌, refl, Bool, true, ◌&&◌, arith, bit_xor, ap,
  sym, ◌∙◌,
}

-- A test that holds of every number below a bound, found by trying them.
unfoldable pub holds_below : (ℕ → Bool) → ℕ → Bool
holds_below test zero = true
holds_below test (suc bound) = holds_below test bound && test bound

pub holds_below-lt :
    (test : ℕ → Bool) (bound k : ℕ) → k < bound → holds_below test bound ≡ true → test k ≡ true
unfolding holds_below
holds_below-lt test zero k below all = absurd (omega arith)
holds_below-lt test (suc bound) k below all = ground (arith, holds_below-lt test bound k)

abbrev xor_digits : ℕ → ℕ → ℕ → ℕ
xor_digits rounds a b = digits (λ c. c) differ rounds a b

-- As many rounds as the first number are enough, and more change nothing.
xor_digits_enough :
    (a b rounds more : ℕ) → a ≤ rounds → a ≤ more → xor_digits rounds a b ≡ xor_digits more a b
xor_digits_enough zero b zero zero h g = refl
xor_digits_enough zero b zero (suc more) h g = refl
xor_digits_enough zero b (suc rounds) zero h g = refl
xor_digits_enough zero b (suc rounds) (suc more) h g = refl
xor_digits_enough (suc a) b zero more h g = absurd (omega arith)
xor_digits_enough (suc a) b (suc rounds) zero h g = absurd (omega arith)
xor_digits_enough (suc a) b (suc rounds) (suc more) h g =
    omega (arith, xor_digits_enough (suc a / 2) (b / 2) rounds more (omega arith) (omega arith))

differ_bits : (a b : ℕ) → a < 2 → b < 2 → differ a b ≡ (a + b) % 2
differ_bits zero zero h k = refl
differ_bits zero (suc zero) h k = refl
differ_bits (suc zero) zero h k = refl
differ_bits (suc zero) (suc zero) h k = refl
differ_bits (suc (suc a)) b h k = absurd (omega arith)
differ_bits zero (suc (suc b)) h k = absurd (omega arith)
differ_bits (suc zero) (suc (suc b)) h k = absurd (omega arith)

-- The lowest digit of an exclusive or is 1 where the two digits differ.
pub bit_xor_step : (a b : ℕ) → bit_xor a b ≡ bit_xor (a / 2) (b / 2) * 2 + (a % 2 + b % 2) % 2
bit_xor_step zero b = simp bit_xor-bitwise (omega arith)
bit_xor_step (suc a) b = simp bit_xor-bitwise (
    omega (
      arith,
      xor_digits_enough (suc a / 2) (b / 2) a (suc a / 2) (omega arith) (le_refl _),
      differ_bits (suc a % 2) (b % 2) (omega arith) (omega arith),
    ))

-- The exclusive or of two numbers of k digits has k digits.
pub bit_xor-lt : (k a b : ℕ) → a < 2 ^ k → b < 2 ^ k → bit_xor a b < 2 ^ k
bit_xor-lt zero zero zero h g = omega arith
bit_xor-lt zero (suc a) b h g = absurd (omega arith)
bit_xor-lt zero zero (suc b) h g = absurd (omega arith)
bit_xor-lt (suc k) a b h g =
    let h' : a < 2 * 2 ^ k = omega (arith, pow-suc 2 k) in
    let g' : b < 2 * 2 ^ k = omega (arith, pow-suc 2 k) in
    omega (
      arith,
      pow-suc 2 k,
      bit_xor_step a b,
      bit_xor-lt k (a / 2) (b / 2) (omega arith) (omega arith),
    )

xor_half : (a b : ℕ) → bit_xor a b / 2 ≡ bit_xor (a / 2) (b / 2)
xor_half a b = omega (arith, bit_xor_step a b)

xor_cancel_fuel : (n c b : ℕ) → c ≤ n → b ≤ n → bit_xor c (bit_xor c b) ≡ b
xor_cancel_fuel zero zero zero h g = refl
xor_cancel_fuel zero (suc c) b h g = absurd (omega arith)
xor_cancel_fuel zero zero (suc b) h g = absurd (omega arith)
xor_cancel_fuel (suc n) c b h g = omega (
  arith,
  bit_xor_step c b,
  bit_xor_step c (bit_xor c b),
  ap (bit_xor (c / 2)) (xor_half c b),
  xor_cancel_fuel n (c / 2) (b / 2) (omega arith) (omega arith),
)

-- The same mask twice gives the number back.
pub bit_xor_cancel : (c b : ℕ) → bit_xor c (bit_xor c b) ≡ b
bit_xor_cancel c b = xor_cancel_fuel (c + b) c b (omega arith) (omega arith)

-- Masking is one-to-one in either argument.
pub bit_xor-injective : (c a b : ℕ) → bit_xor c a ≡ bit_xor c b → a ≡ b
bit_xor-injective c a b e = sym (bit_xor_cancel c a) ∙ ap (bit_xor c) e ∙ bit_xor_cancel c b

xor_comm_fuel : (n a b : ℕ) → a ≤ n → b ≤ n → bit_xor a b ≡ bit_xor b a
xor_comm_fuel zero zero zero h g = refl
xor_comm_fuel zero (suc a) b h g = absurd (omega arith)
xor_comm_fuel zero zero (suc b) h g = absurd (omega arith)
xor_comm_fuel (suc n) a b h g = omega (
  arith,
  bit_xor_step a b,
  bit_xor_step b a,
  xor_comm_fuel n (a / 2) (b / 2) (omega arith) (omega arith),
)

pub bit_xor_comm : (a b : ℕ) → bit_xor a b ≡ bit_xor b a
bit_xor_comm a b = xor_comm_fuel (a + b) a b (omega arith) (omega arith)

pub bit_xor-injective_left : (c a b : ℕ) → bit_xor a c ≡ bit_xor b c → a ≡ b
bit_xor-injective_left c a b e = bit_xor-injective c a b (bit_xor_comm c a ∙ e ∙ bit_xor_comm b c)

-- A mask with the top digit set puts that digit above a number of k digits.
pub bit_xor_top : (k a m : ℕ) → a < 2 ^ k → m < 2 ^ k → bit_xor a (2 ^ k + m) ≡ 2 ^ k + bit_xor a m
bit_xor_top zero zero zero h g = refl
bit_xor_top zero (suc a) m h g = absurd (omega arith)
bit_xor_top zero zero (suc m) h g = absurd (omega arith)
bit_xor_top (suc k) a m h g =
    let p : 2 ^ suc k ≡ 2 * 2 ^ k = omega (arith, pow-suc 2 k) in
    let e : (2 ^ suc k + m) / 2 ≡ 2 ^ k + m / 2 = omega arith in
    omega (
      arith,
      bit_xor_step a (2 ^ suc k + m),
      bit_xor_step a m,
      ap (bit_xor (a / 2)) e,
      bit_xor_top k (a / 2) (m / 2) (omega arith) (omega arith),
    )
