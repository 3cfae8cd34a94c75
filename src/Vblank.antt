-- ===== src/Vblank.antt =====
-- vblank.c: which CRTC shows a drawable, the 64-bit frame counter, the queue of events that the
-- kernel still owes, the requests for such events, and the wakeup on the DRM descriptor.
pub mod Box
pub mod Covering
pub mod Msc
pub mod Queue
pub mod Requests
pub mod Events
