-- ===== src/ModbusMgr/Reading/Values.antt =====
-- Which number a register or two stand for.
use mathlib.Core.Path.{subst}
use rpinode.Modbus.Access.{Slave, read_registers, request}
use rpinode.Modbus.Access.Registers.{Answers, registers_reply, read_registers-reply}
use rpinode.Modbus.Error.{ok}
use rpinode.ModbusMgr.{Float, or_text, or_one}
use rpinode.ModbusMgr.Reading.Decode.{
  World, signed, is_float, is_int32, is_int16, is_wide, narrow_value, wide_value, wire_reg,
  read_point_value,
}
use rpinode.Prelude.Int.{ℤ, pos, negsuc}
use rpinode.Prelude.{
  ℕ, ◌+◌, ◌-◌, ◌*◌, ◌/◌, ◌%◌, ◌≤◌, ◌<◌, ◌≡◌, refl, ap, ◌⊎◌, true, false, ◌||◌, some, List, [], ◌∷◌,
  length, ltb, ◌==◌, arith, if◌then◌else◌,
}
use rpinode.Text.{Text, codes, text_eq, lower}

-- An integer in two's complement of a width, of which `half` is the top bit.
abbrev pub in_complement : ℕ → ℤ → ℕ
in_complement half (pos n) = n
in_complement half (negsuc n) = half + half - 1 - n

-- The integer is one of the width.
abbrev pub Fits : ℕ → ℤ → Type 0
Fits half (pos n) = n < half
Fits half (negsuc n) = n < half

pub signed-in_complement : (half : ℕ) (z : ℤ) → Fits half z → signed half (in_complement half z) ≡ z
signed-in_complement half (pos n) h = ground arith
signed-in_complement half (negsuc n) h =
    let above : ltb (half + half - 1 - n) half ≡ false = ground arith in
    rw above (ap negsuc (omega arith))

pub in_complement-lt : (half : ℕ) (z : ℤ) → Fits half z → in_complement half z < half + half
in_complement-lt half (pos n) h = omega arith
in_complement-lt half (negsuc n) h = omega arith

-- The signed types: one register, or two with the high one first.
pub data IntType : Text → Type 0 where
  int16 : IntType (codes "int16")
  i16 : IntType (codes "i16")
  int32 : IntType (codes "int32")
  i32 : IntType (codes "i32")

abbrev pub half_of : {t : Text} → IntType t → ℕ
half_of int16 = 0x8000
half_of i16 = 0x8000
half_of int32 = 0x80000000
half_of i32 = 0x80000000

abbrev narrow_words : ℤ → List ℕ
narrow_words z = in_complement 0x8000 z ∷ []

abbrev wide_words : ℤ → List ℕ
wide_words z = in_complement 0x80000000 z / 65536 ∷ in_complement 0x80000000 z % 65536 ∷ []

-- The registers in which a slave keeps the integer.
abbrev pub words_of : {t : Text} → IntType t → ℤ → List ℕ
words_of int16 z = narrow_words z
words_of i16 z = narrow_words z
words_of int32 z = wide_words z
words_of i32 z = wide_words z

-- The place of a register on the wire: one less in base 1.
abbrev pub place : ℕ → ℕ → ℕ
place reg base = if base == 1 then reg - 1 else reg

request-place :
    (func reg base count : ℕ)
    → (1 ≤ reg) ⊎ (base ≡ 0)
    → request func (place reg base) count ≡ request func (wire_reg reg base) count
unfolding wire_reg
request-place func reg base count h =
    let same : place reg base % 65536 ≡ wire_reg reg base % 65536 = ground arith in rw same refl

module _ (w : World) (s : Slave) (func reg base : ℕ) (type_str : Text) (scale : Float) (z : ℤ)
    (registers : (func ≡ 3) ⊎ (func ≡ 4)) (on_wire : (1 ≤ reg) ⊎ (base ≡ 0)) where
  answered :
      (vs : List ℕ)
      → 1 ≤ length vs
      → length vs ≤ 125
      → Answers s (request func (place reg base) (length vs)) (registers_reply func vs)
      → read_registers s func (wire_reg reg base) (length vs) ≡ ok vs
  answered vs few many a = read_registers-reply s func (wire_reg reg base) vs registers few many (
      subst (λ r. Answers s r (registers_reply func vs))
        (request-place func reg base (length vs) on_wire) a)

  no_bits : (func == 1 || func == 2) ≡ false
  no_bits = ground arith

  narrow_read :
      is_wide (lower (or_text (some type_str) (codes "int16"))) ≡ false
      → is_int16 (lower (or_text (some type_str) (codes "int16"))) ≡ true
      → Fits 0x8000 z
      → read_registers s func (wire_reg reg base) 1 ≡ ok (narrow_words z)
      → read_point_value w s func reg type_str scale base
        ≡ ok (w.print_int z (or_one scale), w.print_int z (or_one scale))
  unfolding read_point_value narrow_value
  narrow_read narrow int fits got =
      rw (no_bits, narrow, got, int, signed-in_complement 0x8000 z fits) refl

  wide_read :
      is_wide (lower (or_text (some type_str) (codes "int16"))) ≡ true
      → is_float (lower (or_text (some type_str) (codes "int16"))) ≡ false
      → is_int32 (lower (or_text (some type_str) (codes "int16"))) ≡ true
      → Fits 0x80000000 z
      → read_registers s func (wire_reg reg base) 2 ≡ ok (wide_words z)
      → read_point_value w s func reg type_str scale base
        ≡ ok (w.print_int z (or_one scale), w.print_int z (or_one scale))
  unfolding read_point_value wide_value
  wide_read wide float int fits got =
      let c = in_complement 0x80000000 z in
      let whole : c / 65536 * 65536 + c % 65536 ≡ c = omega arith in
      rw (no_bits, wide, got, float, int, whole, signed-in_complement 0x80000000 z fits) refl

  signed_read :
      (u : Text)
      → lower (or_text (some type_str) (codes "int16")) ≡ u
      → (t : IntType u) → Fits (half_of t) z
      → Answers s
          (request func (place reg base) (length (words_of t z)))
          (registers_reply func (words_of t z))
      → read_point_value w s func reg type_str scale base
        ≡ ok (w.print_int z (or_one scale), w.print_int z (or_one scale))
  unfolding is_wide text_eq
  signed_read u e int16 fits a =
      narrow_read (ap is_wide e) (ap is_int16 e) fits (answered _ (omega arith) (omega arith) a)
  signed_read u e i16 fits a =
      narrow_read (ap is_wide e) (ap is_int16 e) fits (answered _ (omega arith) (omega arith) a)
  signed_read u e int32 fits a =
      wide_read (ap is_wide e) (ap is_float e) (ap is_int32 e) fits
        (answered _ (omega arith) (omega arith) a)
  signed_read u e i32 fits a =
      wide_read (ap is_wide e) (ap is_float e) (ap is_int32 e) fits
        (answered _ (omega arith) (omega arith) a)

  -- Reading a register of function 3 or 4 as a signed type, in base 0, or in base 1 from register 1
  -- on: a slave behind TCP that keeps an integer of the width in two's complement at that register,
  -- counted from 0 on the wire, in one register or in two with the high one first, and that answers
  -- the first attempt, gives that integer, printed with the scale.
  pub read_point_value-signed :
      (t : IntType (lower (or_text (some type_str) (codes "int16"))))
      → Fits (half_of t) z
      → Answers s
          (request func (place reg base) (length (words_of t z)))
          (registers_reply func (words_of t z))
      → read_point_value w s func reg type_str scale base
        ≡ ok (w.print_int z (or_one scale), w.print_int z (or_one scale))
  read_point_value-signed t fits a = signed_read _ refl t fits a
