-- ===== src/Present/Failures.antt =====
-- What goes wrong in present.c when a flip fails half-way, and in the match of an abort.
use xserver_xorg_video_loong.Base.{ℕ, ◌≡◌, refl, true, false, none, some, List, ◌∷◌, arith}
use xserver_xorg_video_loong.Vblank.Queue.{Entry, take_first, take_match}
use xserver_xorg_video_loong.Pageflip.{
  present, Payload, crtc_flip, calloc_event, destroy_bo, World, set_flip, unlink, abort,
  abort_match,
}
use xserver_xorg_video_loong.Pageflip.Queueing.{rejected, FlipRequest}
use xserver_xorg_video_loong.Present.{
  FlipState, check_flip, present_flip, event_match, abort_vblank,
}

-- If the import of the buffer fails, ms_present_flip returns FALSE with its event neither freed nor
-- reachable: the log has its allocation and the end of the buffer, the flipdata is freed, and the
-- queue is as it was.
pub present_flip_leaks :
    (w : World) (s : FlipState) (event_id : ℕ) (r : FlipRequest) (p : ℕ)
    → (check_flip s).0 ≡ true
    → r.has_gbm ≡ true
    → r.flipdata ≡ some p
    → r.imported ≡ none
    → (w' : World) × (present_flip w s true event_id r ≡ some (w', rejected))
      × (w'.log ≡ destroy_bo ∷ calloc_event (present event_id false) ∷ w.log)
      × (w'.flips p ≡ none)
      × (w'.queue ≡ w.queue)
unfolding present_flip
present_flip_leaks w s event_id r p ok bo got imp = (
  record w {
    flips =
        set_flip
          (set_flip w.flips p (
            some (record {
              client = present event_id false;
              flip_count = 1;
              fe_msc = 0;
              fe_usec = 0;
              old_fb_id = w.fb_id;
            })))
          p none;
    flip_bo_import_failed = true;
    log = destroy_bo ∷ calloc_event (present event_id false) ∷ w.log;
  },
  ground arith,
  refl,
  ground arith,
  refl,
)

-- An abort of the vblank event with the id 1 takes a queued flip on the reference CRTC for it: if
-- such a flip is the newest entry, it is the one that is aborted, whatever else is queued.
pub abort_vblank_hits_flip :
    (w : World) (e : Entry Payload) (es : List (Entry Payload)) (p : ℕ)
    → w.queue.entries ≡ e ∷ es
    → e.payload ≡ crtc_flip true p
    → abort_vblank w 1 ≡ abort (crtc_flip true p) (unlink w es)
unfolding abort_vblank take_match take_first event_match
abort_vblank_hits_flip w e es p h k =
    let hit : event_match 1 e.payload ≡ true = rw k (refl) in
    let found : take_match (event_match 1) w.queue.entries ≡ some (e, es) = rw h (rw hit refl) in
    rw (found, abort_match) (rw k refl)
