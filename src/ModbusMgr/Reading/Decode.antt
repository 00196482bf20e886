-- ===== src/ModbusMgr/Reading/Decode.antt =====
-- `read_point_value` of src/services/modbus_mgr.py. The arithmetic and the printing of floating-point
-- numbers, `int` of a text, `str` of an exception, the clock and the slaves are arguments.
use rpinode.Dict.{code_eq}
use rpinode.Modbus.Access.{Slave, read_registers, read_bits}
use rpinode.Modbus.Error.{Exc, index_error, Result, ok, err}
use rpinode.ModbusMgr.{Float, or_text, or_one}
use rpinode.Prelude.Int.{ℤ, pos, negsuc}
use rpinode.Prelude.{
  ℕ, ◌+◌, ◌-◌, ◌*◌, Bool, true, false, ◌||◌, Option, some, List, [], ◌∷◌, ltb, ◌==◌, if◌then◌else◌,
}
use rpinode.Text.{Text, codes, text_eq, lower}

pub record World : Type 0 where
  -- The slave behind a protocol, an address, a port and a unit.
  pub slave : Text → Text → ℕ → ℕ → Slave
  -- `str` of `round(v * scale, 3)`, for an integer and for the 32 bits of a float.
  pub print_int : ℤ → Float → Text
  pub print_single : ℕ → Float → Text
  pub int_of : Text → Option ℕ
  pub error_text : Exc → Text
  pub now : ℕ

-- A number of 16 or 32 bits in two's complement, where `half` has the top bit alone.
abbrev pub signed : ℕ → ℕ → ℤ
signed half v = if ltb v half then pos v else negsuc (half + half - 1 - v)

abbrev pub is_float : Text → Bool
is_float t = text_eq t (codes "float32") || text_eq t (codes "f32")

abbrev pub is_int32 : Text → Bool
is_int32 t = text_eq t (codes "int32") || text_eq t (codes "i32")

-- The types of which a value takes two registers.
unfoldable pub is_wide : Text → Bool
is_wide t =
    is_float t
    || (is_int32 t
        || (text_eq t (codes "uint32")
            || (text_eq t (codes "u32")
                || (text_eq t (codes "u32s")
                    || (text_eq t (codes "f32s") || text_eq t (codes "i32s"))))))

abbrev pub is_int16 : Text → Bool
is_int16 t = text_eq t (codes "int16") || text_eq t (codes "i16")

-- The value of one register.
unfoldable pub narrow_value : World → Text → Float → List ℕ → Result Text
narrow_value w t scale (v ∷ rest) =
    ok (w.print_int (if is_int16 t then signed 0x8000 v else pos v) scale)
narrow_value w t scale [] = err index_error

-- The value of two registers, the high one first.
unfoldable pub wide_value : World → Text → Float → List ℕ → Result Text
wide_value w t scale (hi ∷ lo ∷ rest) =
    let v = hi * 65536 + lo in
    ok (
      if is_float t
      then w.print_single v scale
      else w.print_int (if is_int32 t then signed 0x80000000 v else pos v) scale)
wide_value w t scale _ = err index_error

-- The value of a coil and what is shown of it.
unfoldable pub bit_value : List Bool → Result (Text × Text)
bit_value [] = err index_error
bit_value (true ∷ bits) = ok (codes "1", codes "ON")
bit_value (false ∷ bits) = ok (codes "0", codes "OFF")

-- `int(reg) - 1` in base 1. A request has the address modulo 65536, so that 65535 stands for -1.
unfoldable pub wire_reg : ℕ → ℕ → ℕ
wire_reg reg base = if base == 1 then reg + 65535 else reg

abbrev twice : Result Text → Result (Text × Text)
twice (ok s) = ok (s, s)
twice (err e) = err e

abbrev pub and_then {ℓ κ} : {A : Type ℓ} {B : Type κ} → Result A → (A → Result B) → Result B
and_then (ok a) f = f a
and_then (err e) f = err e

unfoldable pub read_point_value : World → Slave → ℕ → ℕ → Text → Float → ℕ → Result (Text × Text)
read_point_value w s func reg type_str scale base =
    let t = lower (or_text (some type_str) (codes "int16")) in
    if func == 1 || func == 2
    then and_then (read_bits s func (wire_reg reg base) 1) bit_value
    else if is_wide t
    then and_then (read_registers s func (wire_reg reg base) 2)
        (λ vals. twice (wide_value w t (or_one scale) vals))
    else and_then (read_registers s func (wire_reg reg base) 1)
        (λ vals. twice (narrow_value w t (or_one scale) vals))
