-- ===== src/Modeset.antt =====
-- Mode setting: src/drmmode_display.c, and the buffers of src/dumb_bo.c that it shows.
pub mod Properties
pub mod Mode
pub mod Atomic
pub mod Crtc
pub mod Dpms
pub mod Major
