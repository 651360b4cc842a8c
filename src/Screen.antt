-- ===== src/Screen.antt =====
-- The geometry of the video frames: app/src/options.c and options.h for the orientations, and
-- app/src/screen.c for the sizes of the window.
pub mod Orientation
pub mod Size
