-- ===== src/Mstp/Crc.antt =====
-- `_crc8_header` of src/services/bacnet_mstp.py.
use rpinode.Checksum.{crc_from}
use rpinode.Prelude.{ℕ, ◌-◌, ◌%◌, List}

-- `(~crc) & 0xFF` is 255 less the low byte.
unfoldable pub crc8_header : List ℕ → ℕ
unfolding crc_from
crc8_header bytes = 255 - crc_from 0x81 0xff bytes % 256
