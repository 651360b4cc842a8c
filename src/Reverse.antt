-- ===== src/Reverse.antt =====
-- The reverse display, in app/src/reverse_display.c and app/src/reverse_watchdog.h: the PC's desktop
-- is streamed to the device, which sends touches and commands back.
pub mod Geometry
pub mod H264
pub mod Touch
pub mod Watchdog
