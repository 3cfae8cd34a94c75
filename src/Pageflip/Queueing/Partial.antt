-- ===== src/Pageflip/Queueing/Partial.antt =====
-- ms_do_pageflip where one CRTC takes the flip and a later one cannot.
use xserver_xorg_video_loong.Base.{
  ℕ, ◌+◌, ◌≡◌, refl, ◌∙◌, true, false, Option, some, List, [], ◌∷◌, arith,
}
use xserver_xorg_video_loong.Vblank.Queue.{next_seq, alloc}
use xserver_xorg_video_loong.Pageflip.{FlipData, crtc_flip, destroy_bo, World, set_flip}
use xserver_xorg_video_loong.Pageflip.Queueing.{
  flips, accepted, rejected, CrtcPlan, is_reference, queue_flip_on_crtc, queue_flips, FlipRequest,
  error_out, error_undo, finish, with_fb, start_flips, new_flip, with_flip, do_pageflip,
}

-- The plan goes through at the first attempt.
pub record TakesFlip (c : CrtcPlan) : Type 0 where
  pub on : c.on ≡ true
  pub got_flip : c.got_flip ≡ true
  pub got_queue : c.got_queue ≡ true
  pub attempts : c.attempts ≡ flips ∷ []

-- The plan is of an active CRTC, for which no memory is left.
pub record LacksMemory (c : CrtcPlan) : Type 0 where
  pub on : c.on ≡ true
  pub got_flip : c.got_flip ≡ false

queued_world : World → ℕ → ℕ → Option ℕ → CrtcPlan → FlipData → World
queued_world w scrn p ref_pipe c fd = record w {
  queue = (alloc w.queue true scrn c.crtc (crtc_flip (is_reference ref_pipe c.vblank_pipe) p)).0;
  flips = set_flip w.flips p (some (record fd { flip_count = fd.flip_count + 1 }));
}

takes_flip :
    (w : World) (scrn p : ℕ) (ref_pipe : Option ℕ) (c : CrtcPlan) (fd : FlipData)
    → TakesFlip c
    → w.flips p ≡ some fd
    → queue_flip_on_crtc w scrn p ref_pipe c ≡ some (queued_world w scrn p ref_pipe c fd, accepted)
unfolding queue_flip_on_crtc queued_world
takes_flip w scrn p ref_pipe c fd t e = rw (t.got_flip, t.got_queue) (rw e (rw t.attempts refl))

lacks_memory :
    (w : World) (scrn p : ℕ) (ref_pipe : Option ℕ) (c : CrtcPlan)
    → LacksMemory c
    → queue_flip_on_crtc w scrn p ref_pipe c ≡ some (w, rejected)
unfolding queue_flip_on_crtc
lacks_memory w scrn p ref_pipe c l = rw l.got_flip refl

-- The loop stops at the second CRTC, with the flip of the first one queued.
queue_flips_partial :
    (w : World) (scrn p : ℕ) (ref_pipe : Option ℕ) (a b : CrtcPlan) (rest : List CrtcPlan)
    (fd : FlipData)
    → TakesFlip a
    → LacksMemory b
    → w.flips p ≡ some fd
    → queue_flips w scrn p ref_pipe (a ∷ b ∷ rest)
      ≡ some (queued_world w scrn p ref_pipe a fd, rejected)
unfolding queue_flips
queue_flips_partial w scrn p ref_pipe a b rest fd t l e = simp (
  t.on,
  l.on,
  takes_flip w scrn p ref_pipe a fd t e,
  lacks_memory (queued_world w scrn p ref_pipe a fd) scrn p ref_pipe b l,
)

do_pageflip_lem :
    (w : World) (r : FlipRequest) (p fb_id : ℕ)
    → r.has_gbm ≡ true
    → r.flipdata ≡ some p
    → r.imported ≡ some fb_id
    → do_pageflip w r ≡ start_flips (new_flip w r p) r p fb_id
unfolding do_pageflip with_flip
do_pageflip_lem w r p fb_id bo got imp = ground arith

error_undo_shared :
    (w : World) (p : ℕ) (fd : FlipData)
    → w.flips p ≡ some fd
    → fd.flip_count ≡ 2
    → error_undo true p w
      ≡ some (
        record w {
          flips = set_flip w.flips p (some (record fd { flip_count = 1 }));
          log = destroy_bo ∷ w.log;
        },
        rejected,
      )
unfolding error_undo error_out
error_undo_shared w p fd e two = ground arith

start_flips_rejected :
    (w v : World) (r : FlipRequest) (p fb_id : ℕ)
    → queue_flips (with_fb w r fb_id) r.scrn p r.ref_pipe r.plans ≡ some (v, rejected)
    → start_flips w r p fb_id ≡ error_undo true p v
unfolding start_flips finish
start_flips_rejected w v r p fb_id h = rw h

-- Where buffer, flipdata and framebuffer are there, one CRTC takes the flip and the next has no
-- memory for it, ms_do_pageflip returns FALSE; and yet the flip of the first CRTC stays queued, the
-- flipdata lives on with the event of the client, and the new framebuffer stays.
pub do_pageflip_partial :
    (w : World) (r : FlipRequest) (p fb_id : ℕ) (a b : CrtcPlan) (rest : List CrtcPlan)
    → r.has_gbm ≡ true
    → r.flipdata ≡ some p
    → r.imported ≡ some fb_id
    → r.plans ≡ a ∷ b ∷ rest
    → TakesFlip a
    → LacksMemory b
    → (w' : World) × (do_pageflip w r ≡ some (w', rejected))
      × (w'.queue.entries
          ≡ record {
            seq = next_seq w.queue.drm_seq;
            scrn = r.scrn;
            crtc = a.crtc;
            payload = crtc_flip (is_reference r.ref_pipe a.vblank_pipe) p;
          }
            ∷ w.queue.entries)
      × (w'.flips p
          ≡ some (record {
            client = r.client;
            flip_count = 1;
            fe_msc = 0;
            fe_usec = 0;
            old_fb_id = w.fb_id;
          }))
      × (w'.log ≡ destroy_bo ∷ w.log)
      × (w'.fb_id ≡ fb_id)
unfolding queued_world alloc
do_pageflip_partial w r p fb_id a b rest bo got imp plans t l =
    let w0 : World = new_flip w r p in
    let fd : FlipData = record {
      client = r.client;
      flip_count = 1;
      fe_msc = 0;
      fe_usec = 0;
      old_fb_id = w.fb_id;
    } in
    let here : w0.flips p ≡ some fd = ground arith in
    let looped =
      queue_flips_partial (with_fb w0 r fb_id) r.scrn p r.ref_pipe a b rest fd t l here in
    let w1 : World = queued_world (with_fb w0 r fb_id) r.scrn p r.ref_pipe a fd in
    let two : FlipData = record fd { flip_count = 2 } in
    let w' : World = record w1 {
      flips = set_flip w1.flips p (some (record two { flip_count = 1 }));
      log = destroy_bo ∷ w1.log;
    } in
    let started = start_flips_rejected w0 w1 r p fb_id (rw plans looped) in
    let undone = error_undo_shared w1 p two (ground arith) refl in
    (w', do_pageflip_lem w r p fb_id bo got imp ∙ started ∙ undone, refl, ground arith, refl, refl)
