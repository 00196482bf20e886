-- ===== src/Modbus/Access.antt =====
-- The reads and writes of src/services/modbus_tools.py, over the transaction.
pub mod Registers
pub mod Bits
mod Tests
use rpinode.Modbus.Error.{
  ModbusError, bad_register_function, bad_bit_function, bad_count, inconsistent_reply, modbus,
  index_error, struct_error, Result, ok, err, ◌>>=◌,
}
use rpinode.Modbus.Transaction.{Protocol, is_rtu, Gateway, Attempt, transaction}
use rpinode.Modbus.Wire.{be16, from_be16, mbap_request, rtu_request}
use rpinode.Text.{Text}
use rpinode.Prelude.{
  ℕ, zero, suc, ◌+◌, ◌-◌, ◌*◌, ◌/◌, ◌%◌, ◌^◌, Bool, true, false, ◌&&◌, ◌||◌, not, List, [], ◌∷◌,
  ◌++◌, map, length, take, drop, get_or, ltb, leb, ◌==◌, if◌then◌else◌,
}

abbrev pub max_registers : ℕ
max_registers = 125

abbrev pub max_bits : ℕ
max_bits = 2000

-- The slave that is asked, the printed time limit, and what the network does with the bytes that
-- each attempt sends.
pub record Slave : Type 0 where
  pub protocol : Protocol
  pub address : Text
  pub unit : ℕ
  pub limit : Text
  pub gateway : Gateway
  pub network : List ℕ → ℕ → Attempt

-- What an attempt sends: the transaction number is left at its default.
abbrev pub sent : Protocol → ℕ → List ℕ → List ℕ
sent protocol unit pdu = if is_rtu protocol then rtu_request unit pdu else mbap_request unit 1 pdu

-- `transaction(…)` with its two retries.
unfoldable pub ask : Slave → List ℕ → Result (List ℕ)
ask s pdu =
    (transaction s.protocol s.address s.limit 2 s.gateway
      (s.network (sent s.protocol s.unit pdu))).result

-- `struct.pack(">BHH", function, address & 0xFFFF, value)`
abbrev pub request : ℕ → ℕ → ℕ → List ℕ
request function address value = function ∷ be16 (address % 65536) ++ be16 value

-- `body[1]` and `body[2 : 2 + byte_count]`
unfoldable pub reply_data : List ℕ → Result (List ℕ)
reply_data [] = err index_error
reply_data (func ∷ []) = err index_error
reply_data (func ∷ byte_count ∷ rest) = ok (take byte_count rest)

-- `struct.unpack(">HH…", data)`: two bytes for each number.
unfoldable pub words : List ℕ → List ℕ
words [] = []
words (hi ∷ []) = []
words (hi ∷ lo ∷ rest) = from_be16 hi lo ∷ words rest

-- `1 <= count <= most`
abbrev pub in_range : ℕ → ℕ → Bool
in_range count most = leb 1 count && leb count most

unfoldable pub read_registers : Slave → ℕ → ℕ → ℕ → Result (List ℕ)
read_registers s function address count =
    if not (function == 3 || function == 4)
    then err (modbus bad_register_function)
    else if not (in_range count max_registers)
    then err (modbus (bad_count max_registers))
    else do
      body ← ask s (request function address count)
      found ← reply_data body
      if length found == count * 2 then ok (words found) else err (modbus inconsistent_reply)

-- `bool((byte >> (i % 8)) & 1)` of the byte `data[i // 8]`, and 0 past the end of the data.
abbrev pub bit_at : List ℕ → ℕ → Bool
bit_at found i = get_or found (i / 8) 0 / 2 ^ (i % 8) % 2 == 1

-- `for i in range(count)`, with the first place and how many are left.
unfoldable pub bits_from : List ℕ → ℕ → ℕ → List Bool
bits_from found i zero = []
bits_from found i (suc left) = bit_at found i ∷ bits_from found (i + 1) left

unfoldable pub read_bits : Slave → ℕ → ℕ → ℕ → Result (List Bool)
read_bits s function address count =
    if not (function == 1 || function == 2)
    then err (modbus bad_bit_function)
    else if not (in_range count max_bits)
    then err (modbus (bad_count max_bits))
    else do
      body ← ask s (request function address count)
      found ← reply_data body
      ok (bits_from found 0 count)

-- `struct.unpack(">BHH", body[:5])`
unfoldable pub echo : List ℕ → Result (ℕ × ℕ)
echo (f ∷ a ∷ b ∷ c ∷ d ∷ rest) = ok (from_be16 a b, from_be16 c d)
echo _ = err struct_error

unfoldable pub write_single_register : Slave → ℕ → ℕ → Result (ℕ × ℕ)
write_single_register s address value = ask s (request 6 address (value % 65536)) >>= echo

unfoldable pub write_single_coil : Slave → ℕ → Bool → Result (ℕ × ℕ)
write_single_coil s address on = ask s (request 5 address (if on then 0xff00 else 0x0000)) >>= echo
