-- ===== src/Checksum.antt =====
-- The shift register that the two checksums of the serial protocols share: the loops of
-- `_crc8_header` (src/services/bacnet_mstp.py) and of `crc16` (src/services/modbus_tools.py)
-- differ only in the polynomial and the start value.
pub mod Errors
use rpinode.Prelude.{ℕ, zero, suc, ◌/◌, ◌%◌, List, [], ◌∷◌, bit_xor, ◌==◌, if◌then◌else◌}

-- One round of the inner loop: `crc & 1`, `crc >> 1` and the mask by the polynomial.
unfoldable pub shift_bit : ℕ → ℕ → ℕ
shift_bit poly crc = if crc % 2 == 1 then bit_xor (crc / 2) poly else crc / 2

-- `for _ in range(8)`, with the number of rounds left.
unfoldable pub shift_bits : ℕ → ℕ → ℕ → ℕ
shift_bits poly zero crc = crc
shift_bits poly (suc rounds) crc = shift_bits poly rounds (shift_bit poly crc)

-- `for b in data: crc ^= b; …`
unfoldable pub crc_from : ℕ → ℕ → List ℕ → ℕ
unfolding shift_bits shift_bit
crc_from poly crc [] = crc
crc_from poly crc (b ∷ data_left) = crc_from poly (shift_bits poly 8 (bit_xor crc b)) data_left
