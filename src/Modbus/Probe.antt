-- ===== src/Modbus/Probe.antt =====
-- `probe_range` of src/services/modbus_tools.py: a range of addresses is read block by block, on
-- each function asked for, with nothing known of the table of registers.
pub mod Coverage
mod Tests
use rpinode.Dict.{put, nat_eq}
use rpinode.Modbus.Access.{Slave, max_bits, max_registers, read_bits, read_registers}
use rpinode.Modbus.Error.{
  Exc, modbus, index_error, struct_error, Result, ok, err, message, Kind, illegal, timeout, other,
  classify_modbus_error,
}
use rpinode.Prelude.{
  ℕ, zero, suc, ◌+◌, ◌-◌, Bool, ◌||◌, Option, none, some, List, [], ◌∷◌, ◌++◌, min, max, ltb, ◌==◌,
  if◌then◌else◌,
}

pub data Values : Type 0 where
  bits : List Bool → Values
  registers : List ℕ → Values

-- The counters of one function, and the blocks that answered.
pub record Findings : Type 0 where
  pub found : List (ℕ × Values)
  pub illegal_count : ℕ
  pub other_count : ℕ
  pub timeouts : ℕ

abbrev pub no_findings : Findings
no_findings = record { found = []; illegal_count = 0; other_count = 0; timeouts = 0 }

abbrev pub is_bits : ℕ → Bool
is_bits func = func == 1 || func == 2

-- `max(1, min(block, maxc))`
unfoldable pub block_size : ℕ → ℕ → ℕ
block_size func block = max 1 (min block (if is_bits func then max_bits else max_registers))

abbrev map_result {ℓ κ} : {A : Type ℓ} {B : Type κ} → (A → B) → Result A → Result B
map_result f (ok a) = ok (f a)
map_result f (err e) = err e

unfoldable pub read_block : Slave → ℕ → ℕ → ℕ → Result Values
read_block s func addr c =
    if is_bits func
    then map_result bits (read_bits s func addr c)
    else map_result registers (read_registers s func addr c)

abbrev count_kind : Kind → Findings → Findings
count_kind illegal f = record f { illegal_count = f.illegal_count + 1 }
count_kind timeout f = record f { timeouts = f.timeouts + 1 }
count_kind other f = record f { other_count = f.other_count + 1 }

-- The `try` of one block: any exception but a `ModbusError` counts as another error.
unfoldable pub visit : Result Values → ℕ → Findings → Findings
visit (ok vals) addr f = record f { found = f.found ++ (addr, vals) ∷ [] }
visit (err (modbus e)) addr f = count_kind (classify_modbus_error (message e)) f
visit (err index_error) addr f = count_kind other f
visit (err struct_error) addr f = count_kind other f

module _ (read : ℕ → ℕ → Result Values) (count end : ℕ) where
  -- `while addr <= end`, with the rounds left; `none` means that they ran out.
  unfoldable pub scan : ℕ → ℕ → Findings → Option Findings
  scan zero addr f = none
  scan (suc fuel) addr f =
      let c = min count (end + 1 - addr) in
      let rest = scan fuel (addr + c) (visit (read addr c) addr f) in
      if ltb end addr then some f else rest

-- `for func in funcs: … results[func] = …`
unfoldable pub probe_range :
    Slave → List ℕ → ℕ → ℕ → ℕ → List (ℕ × Findings) → Option (List (ℕ × Findings))
probe_range s [] start end block results = some results
probe_range s (func ∷ funcs) start end block results =
    elim (scan (read_block s func) (block_size func block) end (end + 2 - start) start
      no_findings) [
        | none ↦ none
        | some f ↦ probe_range s funcs start end block (put func f results)
      ]
