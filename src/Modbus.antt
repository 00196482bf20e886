-- ===== src/Modbus.antt =====
-- The Modbus client of src/services/modbus_tools.py: the errors and their messages, the socket,
-- the two framings, the retried transaction, the reads and writes, and the blind probe.
pub mod Error
pub mod Socket
pub mod Wire
pub mod Transaction
pub mod Access
pub mod Probe
