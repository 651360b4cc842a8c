-- ===== src/Hid.antt =====
-- app/src/hid: the input devices that the client simulates.
pub mod Descriptor
pub mod Gamepad
pub mod Keyboard
pub mod Mouse
