-- ===== src/Pageflip.antt =====
-- pageflip.c with the callbacks of present.c and dri2.c that it runs: the reference count of
-- struct ms_flipdata, completion and abort of a flip, and ms_do_pageflip over all CRTCs.
-- The flipdata lives on a heap, and none stands for the use of a freed one. A struct
-- ms_crtc_pageflip is owned by its queue entry and is kept in it.
pub mod Queueing
pub mod Counting
pub mod Completion
use xserver_xorg_video_loong.Base.{
  ℕ, ◌+◌, ◌-◌, ◌*◌, ◌/◌, ◌%◌, ◌^◌, Bool, true, false, Option, none, some, List, [], ◌∷◌, ◌==◌,
  if◌then◌else◌, ltb, ◌>>=◌,
}
use xserver_xorg_video_loong.Vblank.Msc.{CrtcMsc, kernel_msc_to_crtc_msc}
use xserver_xorg_video_loong.Vblank.Queue.{Entry, DrmQueue, take_seq, take_match}
use xserver_xorg_video_loong.Vblank.Events.{set_crtc}

-- The event of the client that flips, with its event_handler and abort_handler: a struct
-- ms_present_vblank_event, or a struct ms_dri2_vblank_event with the answer of dixLookupDrawable.
pub data Client : Type 0 where
  present : (event_id : ℕ) → (unflip : Bool) → Client
  dri2 : (drawable : ℕ) → (found : Bool) → Client

-- struct ms_flipdata; flip_count is positive as long as it is allocated.
pub record FlipData : Type 0 where
  pub client : Client
  pub flip_count : ℕ
  pub fe_msc : ℕ
  pub fe_usec : ℕ
  pub old_fb_id : ℕ

-- What a queue entry carries: a flip on one CRTC, or a vblank event of the Present extension.
pub data Payload : Type 0 where
  crtc_flip : (on_reference_crtc : Bool) → (flipdata : ℕ) → Payload
  present_vblank : (event_id : ℕ) → Payload

pub data Effect : Type 0 where
  event_notify : (event_id usec msc : ℕ) → Effect
  swap_complete : (drawable frame tv_sec tv_usec : ℕ) → Effect
  rm_fb : ℕ → Effect
  calloc_event : Client → Effect
  free_event : Client → Effect
  destroy_bo : Effect
  set_mode_major : (crtc : ℕ) → Effect
  need_modeset : (crtc : ℕ) → Effect  -- the flag of the CRTC is set

pub record World : Type 0 where
  pub queue : DrmQueue Payload
  pub crtcs : ℕ → CrtcMsc
  pub flips : ℕ → Option FlipData
  pub fb_id : ℕ
  pub flip_bo_import_failed : Bool
  pub present_flipping : Bool
  pub dri2_flipping : Bool
  pub log : List Effect  -- newest first

abbrev pub set_flip : (ℕ → Option FlipData) → ℕ → Option FlipData → ℕ → Option FlipData
set_flip flips p fd q = if q == p then fd else flips q

-- ms_present_vblank_handler.
unfoldable pub present_vblank_handler : ℕ → ℕ → Client → ℕ → World → World
present_vblank_handler msc usec event event_id w = record w {
  log = free_event event ∷ event_notify event_id usec msc ∷ w.log;
}

-- ms_present_flip_handler and ms_dri2_flip_handler, which keeps the low 32 bits of the count.
unfoldable pub event_handler : Client → ℕ → ℕ → World → World
unfolding present_vblank_handler
event_handler (present event_id unflip) msc ust w =
    present_vblank_handler msc ust (present event_id unflip) event_id
      (record w { present_flipping = if unflip then false else w.present_flipping })
event_handler (dri2 drawable found) msc ust w =
    let told =
      if found
      then swap_complete drawable (msc % 2 ^ 32) (ust / 1000000 % 2 ^ 32) (ust % 1000000) ∷ w.log
      else w.log in
    record w { dri2_flipping = false; log = free_event (dri2 drawable found) ∷ told }

-- ms_present_flip_abort and ms_dri2_flip_abort.
unfoldable pub abort_handler : Client → World → World
abort_handler (present event_id unflip) w = record w {
  log = free_event (present event_id unflip) ∷ w.log;
}
abort_handler (dri2 drawable found) w = record w {
  dri2_flipping = false;
  log = free_event (dri2 drawable found) ∷ w.log;
}

-- ms_pageflip_free.
unfoldable pub pageflip_free : ℕ → World → Option World
pageflip_free p w = do
  fd ← w.flips p
  let n = fd.flip_count - 1
  some (record w {
    flips = set_flip w.flips p (if ltb 0 n then some (record fd { flip_count = n }) else none);
  })

unfoldable pub pageflip_handler :
    (on_reference_crtc : Bool) → ℕ → (msc ust : ℕ) → World → Option World
unfolding pageflip_free event_handler
pageflip_handler on_reference_crtc p msc ust w = do
  old ← w.flips p
  let fd = if on_reference_crtc then record old { fe_msc = msc; fe_usec = ust } else old
  let stored = record w { flips = set_flip w.flips p (some fd) }
  let told = event_handler fd.client fd.fe_msc fd.fe_usec stored
  let removed = record told { log = rm_fb fd.old_fb_id ∷ told.log }
  pageflip_free p (if fd.flip_count == 1 then removed else stored)

unfoldable pub pageflip_abort : ℕ → World → Option World
unfolding pageflip_free abort_handler
pageflip_abort p w = do
  fd ← w.flips p
  pageflip_free p (if fd.flip_count == 1 then abort_handler fd.client w else w)

-- The handler and the abort function of a queue entry.
unfoldable pub handle : Payload → (msc ust : ℕ) → World → Option World
unfolding pageflip_handler present_vblank_handler
handle (crtc_flip on_reference_crtc p) msc ust w = pageflip_handler on_reference_crtc p msc ust w
handle (present_vblank event_id) msc ust w =
    some (present_vblank_handler msc ust (present event_id false) event_id w)

-- ms_present_vblank_abort frees its event.
unfoldable pub abort : Payload → World → Option World
unfolding pageflip_abort
abort (crtc_flip on_reference_crtc p) w = pageflip_abort p w
abort (present_vblank event_id) w =
    some (record w { log = free_event (present event_id false) ∷ w.log })

abbrev pub unlink : World → List (Entry Payload) → World
unlink w rest = record w { queue = record (w.queue) { entries = rest } }

-- An event of the kernel, as ms_drm_sequence_handler takes it.
pub record KernelEvent : Type 0 where
  pub frame : ℕ
  pub ns : ℕ
  pub is64bit : Bool
  pub seq : ℕ

deliver : World → KernelEvent → Entry Payload → List (Entry Payload) → Option World
unfolding handle
deliver w e q rest =
    let (c, msc) = kernel_msc_to_crtc_msc (w.crtcs q.crtc) e.frame e.is64bit in
    handle q.payload msc (e.ns / 1000)
      (record (unlink w rest) { crtcs = set_crtc w.crtcs q.crtc c })

unfoldable pub sequence_handler : World → KernelEvent → Option World
unfolding deliver
sequence_handler w e = elim (take_seq e.seq w.queue.entries) [
  | none ↦ some w
  | some (q, rest) ↦ deliver w e q rest
]

abort_one : World → Option (Entry Payload × List (Entry Payload)) → Option World
unfolding abort
abort_one w none = some w
abort_one w (some (q, rest)) = abort q.payload (unlink w rest)

unfoldable pub abort_seq : World → ℕ → Option World
unfolding abort_one
abort_seq w seq = abort_one w (take_seq seq w.queue.entries)

unfoldable pub abort_match : World → (Payload → Bool) → Option World
unfolding abort_one
abort_match w match = abort_one w (take_match match w.queue.entries)

-- The events that one drmHandleEvent reads.
unfoldable pub handle_events : World → List KernelEvent → Option World
unfolding sequence_handler
handle_events w [] = some w
handle_events w (e ∷ es) = do w' ← sequence_handler w e; handle_events w' es
