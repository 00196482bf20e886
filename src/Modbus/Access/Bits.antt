-- ===== src/Modbus/Access/Bits.antt =====
-- Reading coils and discrete inputs: which bit of the reply each value is, and what becomes of a
-- reply with too little data.
use rpinode.Modbus.Access.{
  Slave, ask, request, reply_data, in_range, max_bits, bit_at, bits_from, read_bits,
}
use rpinode.Modbus.Access.Registers.{Answers, ask-Answers}
use rpinode.Modbus.Error.{ok}
use rpinode.Modbus.Wire.{check_body}
use native.Mathlib.Nat.{zero-div}
use rpinode.Prelude.{
  ℕ, zero, suc, ◌+◌, ◌/◌, ◌%◌, ◌≤◌, ◌≡◌, refl, sym, ◌∙◌, ap, ◌⊎◌, Bool, true, false, ◌||◌, ◌==◌,
  List, [], ◌∷◌, ◌++◌, length, get_or, arith, take_all,
}

-- The eight bits of a byte, that of the lowest value first: the remainder by 2, then the bits of the
-- half.
abbrev pub halvings : ℕ → ℕ → List Bool
halvings zero b = []
halvings (suc k) b = (b % 2 == 1) ∷ halvings k (b / 2)

-- The bits of the bytes, one byte behind the other.
abbrev pub lsb_first : List ℕ → List Bool
lsb_first [] = []
lsb_first (b ∷ found) = halvings 8 b ++ lsb_first found

-- The first so many of these bits, with false for those that are missing.
abbrev pub padded : ℕ → List Bool → List Bool
padded zero bits = []
padded (suc n) [] = false ∷ padded n []
padded (suc n) (a ∷ bits) = a ∷ padded n bits

length-padded : (n : ℕ) (bits : List Bool) → length (padded n bits) ≡ n
length-padded zero bits = refl
length-padded (suc n) [] = ap suc (length-padded n [])
length-padded (suc n) (a ∷ bits) = ap suc (length-padded n bits)

bit_at-next : (b : ℕ) (found : List ℕ) (i : ℕ) → bit_at (b ∷ found) (8 + i) ≡ bit_at found i
bit_at-next b found i =
    let place : (8 + i) / 8 ≡ suc (i / 8) = omega arith in
    let shift : (8 + i) % 8 ≡ i % 8 = omega arith in rw (place, shift) refl

-- Bit i of the bytes is where the code looks for it.
get_or-lsb_first : (found : List ℕ) (i : ℕ) → get_or (lsb_first found) i false ≡ bit_at found i
get_or-lsb_first [] i = rw zero-div refl
get_or-lsb_first (b ∷ found) zero = ground arith
get_or-lsb_first (b ∷ found) (suc zero) = ground arith
get_or-lsb_first (b ∷ found) (suc (suc zero)) = ground arith
get_or-lsb_first (b ∷ found) (suc (suc (suc zero))) = ground arith
get_or-lsb_first (b ∷ found) (suc (suc (suc (suc zero)))) = ground arith
get_or-lsb_first (b ∷ found) (suc (suc (suc (suc (suc zero))))) = ground arith
get_or-lsb_first (b ∷ found) (suc (suc (suc (suc (suc (suc zero)))))) = ground arith
get_or-lsb_first (b ∷ found) (suc (suc (suc (suc (suc (suc (suc zero))))))) = ground arith
get_or-lsb_first (b ∷ found) (suc (suc (suc (suc (suc (suc (suc (suc i)))))))) =
    get_or-lsb_first found i
    ∙ sym (bit_at-next b found i)
    ∙ ap (bit_at (b ∷ found)) {x = 8 + i} (omega arith)

bits_from-padded :
    (found : List ℕ) (i n : ℕ) (bits : List Bool)
    → ((k : ℕ) → get_or bits k false ≡ bit_at found (i + k))
    → bits_from found i n ≡ padded n bits
unfolding bits_from
bits_from-padded found i zero bits h = refl
bits_from-padded found i (suc n) [] h =
    let first : bit_at found i ≡ false = ap (bit_at found) {y = i + 0} (omega arith) ∙ sym (h 0) in
    rw first (
      ap (◌∷◌ false)
        (bits_from-padded found (i + 1) n [] (λ k. h (suc k) ∙ ap (bit_at found) (omega arith))))
bits_from-padded found i (suc n) (a ∷ bits) h =
    let first : bit_at found i ≡ a = ap (bit_at found) {y = i + 0} (omega arith) ∙ sym (h 0) in
    rw first (
      ap (◌∷◌ a)
        (bits_from-padded found (i + 1) n bits (λ k. h (suc k) ∙ ap (bit_at found) (omega arith))))

-- What a read of bits makes of the bytes of its reply.
pub record IsRead (count : ℕ) (found : List ℕ) (bits : List Bool) : Type 0 where
  pub complete : length bits ≡ count
  pub placed : bits ≡ padded count (lsb_first found)

bits_from-IsRead : (found : List ℕ) (count : ℕ) → IsRead count found (bits_from found 0 count)
bits_from-IsRead found count =
    let same =
      bits_from-padded found 0 count (lsb_first found)
        (λ k. get_or-lsb_first found k ∙ ap (bit_at found) (omega arith)) in
    record { complete = ap length same ∙ length-padded count (lsb_first found); placed = same }

-- Of a slave behind TCP that answers the first attempt at a read of 1 to 2000 bits, by function 1 or
-- 2, with at most 250 bytes of data, however few, the call succeeds. It returns as many bits as were
-- asked for: the first bits of the bytes of the data, one byte behind the other and each byte from its
-- lowest bit, which is its remainder by 2, to its highest; past the data they are false.
pub read_bits-IsRead :
    (s : Slave) (function address count n : ℕ) (found : List ℕ)
    → (function ≡ 1) ⊎ (function ≡ 2)
    → 1 ≤ count
    → count ≤ 2000
    → length found ≡ n
    → n ≤ 250
    → Answers s (request function address count) (function ∷ n ∷ found)
    → (bits : List Bool) × (read_bits s function address count ≡ ok bits) × IsRead count found bits
unfolding read_bits reply_data check_body
read_bits-IsRead s function address count n found f few many sized short a =
    let plain : check_body (function ∷ n ∷ found) ≡ ok (function ∷ n ∷ found) = ground arith in
    let asked : ask s (request function address count) ≡ ok (function ∷ n ∷ found) =
      ask-Answers s _ _ a (omega arith) plain in
    let known : (function == 1 || function == 2) ≡ true = ground arith in
    let in_bounds : in_range count max_bits ≡ true = ground arith in
    (
      bits_from found 0 count,
      rw (known, in_bounds, asked, ← sized, take_all found),
      bits_from-IsRead found count,
    )
