-- ===== src/Pageflip/Queueing/Safety.antt =====
-- ms_do_pageflip keeps the reference counts right, whatever allocators and kernel answer.
use xserver_xorg_video_loong.Base.{
  ℕ, ◌≡◌, refl, ◌⊎◌, inl, inr, Bool, true, false, ◌&&◌, Option, none, some, List, [], ◌∷◌, arith,
  ◌==◌, if◌then◌else◌, ltb, Bool-cases, Option-cases,
}
use xserver_xorg_video_loong.Vblank.Queue.{alloc}
use xserver_xorg_video_loong.Pageflip.{crtc_flip, World}
use xserver_xorg_video_loong.Pageflip.Counting.{
  IsCounted, no_extra, one_more, live_of_extra, abort_seq-Ends, handle_events-Ends,
}
use xserver_xorg_video_loong.Pageflip.Queueing.{
  Attempt, flips, flushes, Verdict, accepted, rejected, waiting, CrtcPlan, submit, take_reference,
  start_flip, queue_flip_on_crtc, queue_flips, FlipRequest, destroy, error_out, error_undo, finish,
  with_fb, start_flips, new_flip, with_flip, do_pageflip,
}

-- A step that ends with a verdict: no fault, and the count is right.
abbrev pub Concludes : (ℕ → ℕ) → Option (World × Verdict) → Type 0
Concludes extra r = (w : World) × (v : Verdict) × (r ≡ some (w, v)) × IsCounted extra w

submit-Concludes :
    (extra : ℕ → ℕ) (w : World) (seq : ℕ) (attempts : List Attempt)
    → IsCounted extra w
    → Concludes extra (submit w seq attempts)
unfolding submit
submit-Concludes extra w seq [] c = (w, waiting, refl, c)
submit-Concludes extra w seq (flips ∷ rest) c = (w, accepted, refl, c)
submit-Concludes extra w seq (flushes handled true ∷ rest) c =
    let (w', h, c') = handle_events-Ends extra w handled c in
    rw h (submit-Concludes extra w' seq rest c')
submit-Concludes extra w seq (flushes handled false ∷ rest) c =
    let (w', h, c') = handle_events-Ends extra w handled c in
    let (w'', k, c'') = abort_seq-Ends extra w' seq c' in rw h (rw k (w'', rejected, refl, c''))

-- A new entry points to a live flipdata, whose count goes up.
start_flip-Concludes :
    (extra : ℕ → ℕ) (w : World) (p scrn crtc seq : ℕ) (on_reference_crtc : Bool)
    (attempts : List Attempt)
    → IsCounted (one_more p extra) w
    → Concludes (one_more p extra) (
        start_flip
          (record w { queue = (alloc w.queue true scrn crtc (crtc_flip on_reference_crtc p)).0 })
          p
          seq
          attempts)
unfolding start_flip take_reference alloc
start_flip-Concludes extra w p scrn crtc seq on_reference_crtc attempts c =
    let (fd, e, n) = live_of_extra extra w p c in
    rw e (submit-Concludes (one_more p extra) _ seq attempts (λ q. ground (arith, c q)))

queue_flip-Concludes :
    (extra : ℕ → ℕ) (w : World) (scrn p : ℕ) (ref_pipe : Option ℕ) (plan : CrtcPlan)
    → IsCounted (one_more p extra) w
    → Concludes (one_more p extra) (queue_flip_on_crtc w scrn p ref_pipe plan)
unfolding queue_flip_on_crtc
queue_flip-Concludes extra w scrn p ref_pipe plan c =
    elim (Bool-cases (plan.got_flip && plan.got_queue)) [
      | inl got ↦
          let granted : plan.got_queue ≡ true = ground arith in
          rw (got, granted) (start_flip-Concludes extra w p scrn plan.crtc _ _ plan.attempts c)
      | inr no_memory ↦ rw no_memory (w, rejected, refl, c)
    ]

queue_flips-Concludes :
    (extra : ℕ → ℕ) (w : World) (scrn p : ℕ) (ref_pipe : Option ℕ) (plans : List CrtcPlan)
    → IsCounted (one_more p extra) w
    → Concludes (one_more p extra) (queue_flips w scrn p ref_pipe plans)
unfolding queue_flips
queue_flips-Concludes extra w scrn p ref_pipe [] c = (w, accepted, refl, c)
queue_flips-Concludes extra w scrn p ref_pipe (plan ∷ plans) c = elim (Bool-cases plan.on) [
  | inl on ↦
      let (w', v, h, c') = queue_flip-Concludes extra w scrn p ref_pipe plan c in
      rw (on, queue_flips)
        (rw h (next w' v c' (queue_flips-Concludes extra w' scrn p ref_pipe plans c')))
  | inr off ↦ rw (off, queue_flips) (queue_flips-Concludes extra w scrn p ref_pipe plans c)
]
  where
    next :
        (w' : World) (v : Verdict)
        → IsCounted (one_more p extra) w'
        → Concludes (one_more p extra) (queue_flips w' scrn p ref_pipe plans)
        → Concludes
            (one_more p extra)
            (elim v [ accepted ↦ queue_flips w' scrn p ref_pipe plans | other ↦ some (w', other) ])
    next w' accepted c' r = r
    next w' rejected c' r = (w', rejected, refl, c')
    next w' waiting c' r = (w', waiting, refl, c')

-- The call is over with the count right, or it still waits for the kernel.
abbrev pub Completes : Option (World × Verdict) → Type 0
Completes r =
    (w : World) × (v : Verdict) × (r ≡ some (w, v)) × ((v ≡ waiting) ⊎ IsCounted no_extra w)

destroy_frame :
    (has_bo : Bool) (w : World)
    → ((destroy has_bo w).flips ≡ w.flips) × ((destroy has_bo w).queue ≡ w.queue)
destroy_frame true w = (refl, refl)
destroy_frame false w = (refl, refl)

error_out-Completes :
    (has_bo : Bool) (w : World) (p : ℕ)
    → IsCounted (one_more p no_extra) w
    → Completes (error_out has_bo p w)
unfolding error_out
error_out-Completes has_bo w p c =
    let (fd, e, n) = live_of_extra no_extra w p c in
    let (f, q) = destroy_frame has_bo w in
    rw e (_, rejected, refl, inr (λ a. rw q (ground (arith, c a))))

if-IsCounted :
    (extra : ℕ → ℕ) (b : Bool) (v w : World)
    → v.flips ≡ w.flips
    → v.queue ≡ w.queue
    → IsCounted extra w
    → IsCounted extra (if b then v else w)
if-IsCounted extra true v w f q c = λ p. rw (f, q) (c p)
if-IsCounted extra false v w f q c = c

error_undo-Completes :
    (has_bo : Bool) (w : World) (p : ℕ)
    → IsCounted (one_more p no_extra) w
    → Completes (error_undo has_bo p w)
unfolding error_undo
error_undo-Completes has_bo w p c =
    let (fd, e, n) = live_of_extra no_extra w p c in
    rw e (
      error_out-Completes has_bo _ p
        (if-IsCounted (one_more p no_extra) (fd.flip_count == 1) _ w refl refl c))

finish-Completes :
    (w : World) (p : ℕ) (v : Verdict) → IsCounted (one_more p no_extra) w → Completes (finish p w v)
unfolding finish
finish-Completes w p waiting c = (w, waiting, refl, inl refl)
finish-Completes w p rejected c = error_undo-Completes true w p c
finish-Completes w p accepted c =
    let (fd, e, n) = live_of_extra no_extra w p c in
    elim (Bool-cases (ltb 1 fd.flip_count)) [
      | inl shared ↦ rw e (rw shared (_, accepted, refl, inr (λ a. ground (arith, c a))))
      | inr alone ↦ rw e (rw alone (error_undo-Completes false (destroy true w) p c))
    ]

start_flips-Completes :
    (w : World) (r : FlipRequest) (p fb_id : ℕ)
    → IsCounted (one_more p no_extra) w
    → Completes (start_flips w r p fb_id)
unfolding start_flips
start_flips-Completes w r p fb_id c =
    let (w', v, h, c') =
      queue_flips-Concludes no_extra (with_fb w r fb_id) r.scrn p r.ref_pipe r.plans c in
    rw h (finish-Completes w' p v c')

new_flip-IsCounted :
    (w : World) (r : FlipRequest) (p : ℕ)
    → w.flips p ≡ none
    → IsCounted no_extra w
    → IsCounted (one_more p no_extra) (new_flip w r p)
new_flip-IsCounted w r p fresh c q = ground (arith, c q)

with_flip-Completes :
    (w : World) (r : FlipRequest) (p : ℕ)
    → w.flips p ≡ none
    → IsCounted no_extra w
    → Completes (with_flip w r p)
unfolding with_flip
with_flip-Completes w r p fresh c =
    let counted = new_flip-IsCounted w r p fresh c in
    let failed : World = record (new_flip w r p) { flip_bo_import_failed = true } in
    elim (Option-cases r.imported) [
      | inl e ↦ rw (e, with_flip) (error_out-Completes true failed p counted)
      | inr (fb_id, e) ↦
          rw (e, with_flip) (start_flips-Completes (new_flip w r p) r p fb_id counted)
    ]

-- From a state in which every flipdata counts the queued flips that point to it, where calloc
-- returns an address that is free, ms_do_pageflip uses no freed flipdata, on every path: whichever
-- allocations and submissions fail, however often a submission is tried again, and whatever events
-- the flushes in between complete. When it returns, TRUE or FALSE, the counts are right again.
pub do_pageflip-Completes :
    (w : World) (r : FlipRequest)
    → ((p : ℕ) → r.flipdata ≡ some p → w.flips p ≡ none)
    → IsCounted no_extra w
    → Completes (do_pageflip w r)
unfolding do_pageflip
do_pageflip-Completes w r fresh c = elim (Bool-cases r.has_gbm) [
  | inr no_bo ↦ rw (no_bo, do_pageflip) (w, rejected, refl, inr c)
  | inl bo ↦ elim (Option-cases r.flipdata) [
    | inl e ↦ rw (bo, e, do_pageflip) (destroy true w, rejected, refl, inr c)
    | inr (p, e) ↦ rw (bo, e, do_pageflip) (with_flip-Completes w r p (fresh p e) c)
  ]
]
