-- ===== src/Lib.antt =====
-- Verification of the loongson video driver, an X.Org driver for kernel mode setting.
--
-- The driver's screens share one entity per device. A screen asks the kernel for events at frame
-- counts and for page flips; each request has an entry in one queue, whose callbacks run when the
-- kernel answers or when the request is aborted. Page flips, the Present extension and DRI2 are the
-- clients of that queue. The modules, and the code that each one models:
--
--   Base      tests, lists and signed integers over native numbers.
--   Entity    src/loongson_entity.c on a record EntRec, with ms_get_drm_master_fd and the descriptor
--             part of FreeRec (src/driver.c), and ms_vblank_screen_init and ms_vblank_close_screen
--             (src/vblank.c) on the entity and the queue of events. Entity/Sharing runs histories of
--             screens.
--   Formats   get_opaque_format and drmmode_is_format_supported of src/drmmode_display.c.
--             Formats/Modifiers: get_modifiers_set and get_drawable_modifiers.
--   Vblank    src/vblank.c. Box and Covering: which CRTC shows a drawable. Msc: 64-bit counts from
--             32-bit ones. Queue and Events: ms_drm_queue_alloc, ms_drm_sequence_handler and the
--             ms_drm_abort functions, with a log of the callbacks in place of the callbacks.
--             Events/Refinement: the queue as a map from numbers to entries.
--             Requests: ms_queue_vblank and the functions that read the current count.
--   Pageflip  src/pageflip.c, with the callbacks of src/present.c and src/dri2.c that it runs. The
--             queue is the one of Vblank/Queue, and here the callbacks act on a heap of flipdata;
--             a use of freed memory has the result none. Pageflip/Queueing: queue_flip_on_crtc and
--             ms_do_pageflip.
--   Present   src/present.c: the conditions for a flip, flips and unflips through do_pageflip, vblank
--             events through queue_vblank.
--   Dri2      src/dri2.c: frame events and their buffers in a store by address, their handler, and
--             what becomes of them when a client or a drawable goes. Dri2/Schedule:
--             ms_dri2_schedule_wait_msc and ms_dri2_schedule_swap, through queue_vblank.
--             Dri2/Creation: ms_dri2_create_buffer2.
--   Buffers   src/dumb_bo.c on a heap of objects, and the drmmode_bo functions of
--             src/drmmode_display.c. Resize: drmmode_xf86crtc_resize. Front: the first buffers, the
--             probe of the depth, the shadow of a rotated CRTC, the buffer of a slave.
--   Sprites   the software cursors of src/drmmode_display.c.
--   Outputs   the RandR properties of the outputs of src/drmmode_display.c. Outputs/Paths:
--             parse_path_blob and find_output.
--   Dirty     the tracking of damage in src/driver.c, up to the block handler.
--   Shadow    src/loongson_shadow.c: whether there are shadow buffers, their sizes, and the redrawing of
--             the tiles in which the two buffers differ, with the regions of the server as operations
--             under laws. A buffer is a function from offsets to bytes.
--   Exa       the private records of pixmaps in src/loongson_pixmap.c, src/loongson_buffer.c and
--             src/fake_exa.c, with the memory, the dumb objects of Buffers and the descriptors that
--             they own; a use of a freed record or object has the result none.
--   Sinks     flipping between two shared pixmaps on a slave screen: src/drmmode_display.c from
--             drmmode_SharedPixmapPresent to drmmode_DisableSharedPixmapFlipping, the targets of a
--             CRTC in system memory, and msSharedPixmapNotifyDamage of src/driver.c.
--   Modeset   src/drmmode_display.c. Properties: the tables of kernel properties, their update, lookup,
--             copies and release. Mode: the conversions of modes. Atomic, Crtc and Dpms: requests for
--             atomic mode setting, drmmode_crtc_set_mode, drmmode_set_dpms and the calls that turn
--             outputs and CRTCs off. Major: drmmode_set_mode_major and the end of a CRTC.
--   Examples  concrete runs, at which the theorems apply.
--
-- A C integer is a number with its wrap-around written out where the code can meet it: 32-bit and
-- 64-bit counts in Vblank/Msc, Vblank/Queue and Dri2, 16-bit coordinates in Vblank/Box. What calloc,
-- libdrm, gbm, glamor and the server answer is an argument of the definition that asks, a list where
-- the code asks again in a loop. Such a list is the only fuel: a loop that has used it up ends with
-- the result `waiting` (`stuck` in Dri2), and Vblank/Requests/Outcomes and
-- Pageflip/Queueing/Termination say which answers end the loops.
--
-- Not modelled: entries of other clients in the queues of Pageflip, which has flips and the
-- vblank events of Present, and of Sinks, which has the events of shared pixmaps; log messages;
-- the reading of descriptors; the registration of callbacks with the server; in src/dri2.c the
-- copy and the exchange of buffers, with can_flip and ms_dri2_schedule_flip as answers; in
-- src/drmmode_display.c the creation of CRTCs and outputs, what RandR is told of their
-- properties, leases, and the targets of a CRTC on a screen with reverse offload; the master's
-- side of shared pixmaps in src/driver.c, whose answers are arguments; in src/fake_exa.c the
-- fallbacks for drawing and the setup of EXA; the setup of screens (src/driver.c), src/dri3.c,
-- src/drmmode_uevent.c and the other loongson_*.c files, which pass on to libraries for the most
-- part.
pub mod Base
pub mod Entity
pub mod Formats
pub mod Vblank
pub mod Pageflip
pub mod Present
pub mod Dri2
pub mod Buffers
pub mod Modeset
pub mod Dirty
pub mod Sprites
pub mod Outputs
pub mod Shadow
pub mod Exa
pub mod Sinks
pub mod Examples
