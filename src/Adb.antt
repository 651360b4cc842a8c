-- ===== src/Adb.antt =====
-- app/src/adb: what the client asks of adb, and what it reads from its output.
pub mod Tunnel
pub mod Devices
pub mod Select
