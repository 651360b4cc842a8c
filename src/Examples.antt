-- ===== src/Examples.antt =====
-- Concrete inputs at which the theorems of the other modules apply.
mod Floats
mod Messages
mod Queues
mod Bytes
mod Devices
mod Gamepads
mod Packets
mod Reversed
mod Sizes
mod Keyboards
mod Wheels
mod Samples
mod Recordings
mod Demuxed
mod Tunnels
mod Listed
