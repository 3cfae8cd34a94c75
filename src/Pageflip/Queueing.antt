-- ===== src/Pageflip/Queueing.antt =====
-- queue_flip_on_crtc and ms_do_pageflip of pageflip.c. What allocators and the kernel answer is in
-- the arguments, the events that a flush of the DRM descriptor handles in between included.
pub mod Safety
pub mod Partial
pub mod Termination
use xserver_xorg_video_loong.Base.{
  ℕ, ◌+◌, ◌-◌, Bool, true, false, ◌&&◌, Option, none, some, List, [], ◌∷◌, ◌==◌, if◌then◌else◌, ltb,
  ◌>>=◌,
}
use xserver_xorg_video_loong.Vblank.Queue.{alloc}
use xserver_xorg_video_loong.Pageflip.{
  Client, crtc_flip, rm_fb, destroy_bo, World, set_flip, KernelEvent, abort_seq, handle_events,
}

-- One try of drmmode_crtc_flip: it succeeds, or it fails and ms_flush_drm_events handles these
-- events, with a positive result or not.
pub data Attempt : Type 0 where
  flips : Attempt
  flushes : (handled : List KernelEvent) → (positive : Bool) → Attempt

-- TRUE, FALSE, or no more attempts given.
pub data Verdict : Type 0 where
  accepted rejected waiting : Verdict

-- One CRTC of the configuration: ms_crtc_on, its vblank_pipe, whether the two allocations succeed,
-- and the answers of the kernel.
pub record CrtcPlan : Type 0 where
  pub crtc : ℕ
  pub on : Bool
  pub vblank_pipe : ℕ
  pub got_flip : Bool
  pub got_queue : Bool
  pub attempts : List Attempt

-- The loop that submits the flip.
unfoldable pub submit : World → (seq : ℕ) → List Attempt → Option (World × Verdict)
submit w seq [] = some (w, waiting)
submit w seq (flips ∷ rest) = some (w, accepted)
submit w seq (flushes handled true ∷ rest) = do w' ← handle_events w handled; submit w' seq rest
submit w seq (flushes handled false ∷ rest) = do
  w' ← handle_events w handled
  w'' ← abort_seq w' seq
  some (w'', rejected)

-- flipdata->flip_count++.
unfoldable pub take_reference : ℕ → World → Option World
take_reference p w = do
  fd ← w.flips p
  some (record w {
    flips = set_flip w.flips p (some (record fd { flip_count = fd.flip_count + 1 }));
  })

-- A reference pipe of none is the -1 that no CRTC has.
abbrev is_reference : Option ℕ → ℕ → Bool
is_reference none pipe = false
is_reference (some ref) pipe = pipe == ref

-- The flip is queued and holds a reference.
start_flip : World → (p seq : ℕ) → List Attempt → Option (World × Verdict)
unfolding submit take_reference
start_flip w p seq attempts = do w' ← take_reference p w; submit w' seq attempts

unfoldable pub queue_flip_on_crtc :
    World → (scrn p : ℕ) → (ref_pipe : Option ℕ) → CrtcPlan → Option (World × Verdict)
unfolding start_flip
queue_flip_on_crtc w scrn p ref_pipe c =
    let flip = crtc_flip (is_reference ref_pipe c.vblank_pipe) p in
    let (q, seq) = alloc w.queue c.got_queue scrn c.crtc flip in
    if c.got_flip && c.got_queue
    then start_flip (record w { queue = q }) p seq c.attempts
    else some (w, rejected)

-- The loop over the CRTCs: `rejected` is the jump to error_undo.
unfoldable pub queue_flips :
    World → (scrn p : ℕ) → (ref_pipe : Option ℕ) → List CrtcPlan → Option (World × Verdict)
unfolding queue_flip_on_crtc
queue_flips w scrn p ref_pipe [] = some (w, accepted)
queue_flips w scrn p ref_pipe (c ∷ cs) = elim c.on [
  | false ↦ queue_flips w scrn p ref_pipe cs
  | true ↦ do
    (w', v) ← queue_flip_on_crtc w scrn p ref_pipe c
    elim v [ accepted ↦ queue_flips w' scrn p ref_pipe cs | other ↦ some (w', other) ]
]

-- The arguments of ms_do_pageflip and the answers of what it calls: `has_gbm` says that
-- gbm_bo_from_pixmap gives a buffer, `flipdata` is what calloc returns, `imported` the new
-- framebuffer id unless drmmode_bo_import fails.
pub record FlipRequest : Type 0 where
  pub scrn : ℕ
  pub client : Client
  pub ref_pipe : Option ℕ
  pub is_screen_pixmap : Bool
  pub has_gbm : Bool
  pub flipdata : Option ℕ
  pub imported : Option ℕ
  pub plans : List CrtcPlan

-- drmmode_bo_destroy of the local buffer, which is gone after the first call.
abbrev destroy : Bool → World → World
destroy true w = record w { log = destroy_bo ∷ w.log }
destroy false w = w

-- From error_out to the end.
error_out : Bool → ℕ → World → Option (World × Verdict)
error_out has_bo p w = do
  fd ← w.flips p
  let left =
      if fd.flip_count == 1 then none else some (record fd { flip_count = fd.flip_count - 1 })
  some (record (destroy has_bo w) { flips = set_flip w.flips p left }, rejected)

-- From error_undo: the framebuffer goes if only the local reference is left.
error_undo : Bool → ℕ → World → Option (World × Verdict)
unfolding error_out
error_undo has_bo p w = do
  fd ← w.flips p
  let undone = record w { fb_id = fd.old_fb_id; log = rm_fb w.fb_id ∷ w.log }
  error_out has_bo p (if fd.flip_count == 1 then undone else w)

-- After the loop over the CRTCs.
finish : ℕ → World → Verdict → Option (World × Verdict)
finish p w waiting = some (w, waiting)
finish p w rejected = error_undo true p w
finish p w accepted = do
  fd ← w.flips p
  let dropped = record (destroy true w) {
    flips = set_flip w.flips p (some (record fd { flip_count = fd.flip_count - 1 }));
  }
  let failed : Option (World × Verdict) = error_undo false p (destroy true w)
  if ltb 1 fd.flip_count then some (dropped, accepted) else failed

-- After the import.
abbrev with_fb : World → FlipRequest → ℕ → World
with_fb w r fb_id = record w {
  fb_id = fb_id;
  flip_bo_import_failed = w.flip_bo_import_failed && r.is_screen_pixmap;
}

start_flips : World → FlipRequest → ℕ → ℕ → Option (World × Verdict)
unfolding queue_flips finish
start_flips w r p fb_id = do
  (w', v) ← queue_flips (with_fb w r fb_id) r.scrn p r.ref_pipe r.plans
  finish p w' v

-- The flipdata as it is filled in, with the local reference.
abbrev new_flip : World → FlipRequest → ℕ → World
new_flip w r p = record w {
  flips = set_flip w.flips p (
      some (record {
        client = r.client;
        flip_count = 1;
        fe_msc = 0;
        fe_usec = 0;
        old_fb_id = w.fb_id;
      }));
}

with_flip : World → FlipRequest → ℕ → Option (World × Verdict)
unfolding start_flips error_out
with_flip w r p = elim r.imported [
  | none ↦ error_out true p (record (new_flip w r p) { flip_bo_import_failed = true })
  | some fb_id ↦ start_flips (new_flip w r p) r p fb_id
]

unfoldable pub do_pageflip : World → FlipRequest → Option (World × Verdict)
unfolding with_flip error_undo
do_pageflip w r = elim r.has_gbm [
  | false ↦ some (w, rejected)
  | true ↦ elim r.flipdata [ none ↦ some (destroy true w, rejected) | some p ↦ with_flip w r p ]
]
