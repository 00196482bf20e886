-- ===== src/Mstp.antt =====
-- The MS/TP monitor of src/services/bacnet_mstp.py: the header checksum, the decoder of the raw
-- byte stream, the diagnosis of the bus, and the monitoring session.
pub mod Crc
pub mod Stream
pub mod Health
pub mod Iam
pub mod Session
pub mod Control
mod Tests
