-- ===== src/Pageflip/Queueing/Termination.antt =====
-- The loop of queue_flip_on_crtc ends when the kernel takes the flip or a flush finds no event; then
-- ms_do_pageflip returns.
use mathlib.Core.Path.{subst}
use xserver_xorg_video_loong.Base.{
  ℕ, ◌≡◌, ◌≢◌, inl, inr, Bool, true, false, ◌&&◌, Option, none, some, List, [], ◌∷◌, arith, ◌==◌,
  if◌then◌else◌, ltb, All, Bool-cases, Option-cases, ◌>>=◌,
}
use xserver_xorg_video_loong.Vblank.Queue.{alloc}
use xserver_xorg_video_loong.Pageflip.{World, abort_seq, handle_events, crtc_flip, rm_fb}
use xserver_xorg_video_loong.Pageflip.Counting.{IsCounted, no_extra}
use xserver_xorg_video_loong.Pageflip.Queueing.{
  Attempt, flips, flushes, Verdict, accepted, rejected, waiting, CrtcPlan, submit, take_reference,
  is_reference, start_flip, queue_flip_on_crtc, queue_flips, FlipRequest, destroy, error_out,
  error_undo, finish, with_fb, start_flips, new_flip, with_flip, do_pageflip,
}
use xserver_xorg_video_loong.Pageflip.Queueing.Safety.{do_pageflip-Completes}

-- The flip is taken, or a flush finds no event, after any number of flushes that find some.
abbrev pub EndsTries : List Attempt → Type 0
EndsTries [] = ⊥
EndsTries (flips ∷ rest) = Unit {0}
EndsTries (flushes handled true ∷ rest) = EndsTries rest
EndsTries (flushes handled false ∷ rest) = Unit {0}

abbrev pub IsAnswered : CrtcPlan → Type 0
IsAnswered c = EndsTries c.attempts

-- If there is a result, it is TRUE or FALSE.
abbrev Decides : Option (World × Verdict) → Type 0
Decides none = Unit {0}
Decides (some (w, v)) = v ≢ waiting

bind-Decides :
    {A : Type 0} (o : Option A) (k : A → Option (World × Verdict))
    → ((a : A) → Decides (k a))
    → Decides (o >>= k)
bind-Decides none k h = tt
bind-Decides (some a) k h = h a

submit-Decides :
    (w : World) (seq : ℕ) (tries : List Attempt) → EndsTries tries → Decides (submit w seq tries)
unfolding submit
submit-Decides w seq [] h = elim h [ ]
submit-Decides w seq (flips ∷ rest) h = ground arith
submit-Decides w seq (flushes handled true ∷ rest) h =
    bind-Decides (handle_events w handled) _ (λ w'. submit-Decides w' seq rest h)
submit-Decides w seq (flushes handled false ∷ rest) h =
    bind-Decides (handle_events w handled) _
      (λ w'. bind-Decides (abort_seq w' seq) _ (λ w''. ground arith))

start_flip-Decides :
    (w : World) (p seq : ℕ) (tries : List Attempt)
    → EndsTries tries
    → Decides (start_flip w p seq tries)
unfolding start_flip
start_flip-Decides w p seq tries h =
    bind-Decides (take_reference p w) _ (λ w'. submit-Decides w' seq tries h)

queue_flip-Decides :
    (w : World) (scrn p : ℕ) (ref_pipe : Option ℕ) (c : CrtcPlan)
    → IsAnswered c
    → Decides (queue_flip_on_crtc w scrn p ref_pipe c)
unfolding queue_flip_on_crtc
queue_flip-Decides w scrn p ref_pipe c h =
    let flip = crtc_flip (is_reference ref_pipe c.vblank_pipe) p in
    let (q, seq) = alloc w.queue c.got_queue scrn c.crtc flip in
    elim (Bool-cases (c.got_flip && c.got_queue)) [
      | inl got ↦ rw got (start_flip-Decides (record w { queue = q }) p seq c.attempts h)
      | inr no_memory ↦ rw no_memory (ground arith)
    ]

next_crtc :
    (scrn p : ℕ) (ref_pipe : Option ℕ) (cs : List CrtcPlan) (o : Option (World × Verdict))
    → Decides o
    → ((w : World) → Decides (queue_flips w scrn p ref_pipe cs))
    → Decides (do
      (w, v) ← o
      elim v [ accepted ↦ queue_flips w scrn p ref_pipe cs | other ↦ some (w, other) ])
next_crtc scrn p ref_pipe cs none h k = tt
next_crtc scrn p ref_pipe cs (some (w, accepted)) h k = k w
next_crtc scrn p ref_pipe cs (some (w, rejected)) h k = h
next_crtc scrn p ref_pipe cs (some (w, waiting)) h k = h

queue_flips-Decides :
    (w : World) (scrn p : ℕ) (ref_pipe : Option ℕ) (cs : List CrtcPlan)
    → All IsAnswered cs
    → Decides (queue_flips w scrn p ref_pipe cs)
unfolding queue_flips
queue_flips-Decides w scrn p ref_pipe [] h = ground arith
queue_flips-Decides w scrn p ref_pipe (c ∷ cs) (h, hs) = elim (Bool-cases c.on) [
  | inr off ↦ rw off (queue_flips-Decides w scrn p ref_pipe cs hs)
  | inl on ↦ rw on (
      next_crtc scrn p ref_pipe cs (queue_flip_on_crtc w scrn p ref_pipe c)
        (queue_flip-Decides w scrn p ref_pipe c h)
        (λ w'. queue_flips-Decides w' scrn p ref_pipe cs hs))
]

error_out-Decides : (has_bo : Bool) (p : ℕ) (w : World) → Decides (error_out has_bo p w)
unfolding error_out
error_out-Decides has_bo p w = bind-Decides (w.flips p) _ (λ fd. ground arith)

error_undo-Decides : (has_bo : Bool) (p : ℕ) (w : World) → Decides (error_undo has_bo p w)
unfolding error_undo
error_undo-Decides has_bo p w = bind-Decides (w.flips p) _ (λ fd. error_out-Decides has_bo p (
    if fd.flip_count == 1
    then record w { fb_id = fd.old_fb_id; log = rm_fb w.fb_id ∷ w.log }
    else w))

finish-Decides : (p : ℕ) (w : World) (v : Verdict) → v ≢ waiting → Decides (finish p w v)
unfolding finish
finish-Decides p w waiting h = h
finish-Decides p w rejected h = error_undo-Decides true p w
finish-Decides p w accepted h = bind-Decides (w.flips p) _ (λ fd.
    elim (Bool-cases (ltb 1 fd.flip_count)) [
      | inl shared ↦ rw shared (ground arith)
      | inr alone ↦ rw alone (error_undo-Decides false p (destroy true w))
    ])

finish_all :
    (p : ℕ) (o : Option (World × Verdict)) → Decides o → Decides (do (w, v) ← o; finish p w v)
finish_all p none h = tt
finish_all p (some (w, v)) h = finish-Decides p w v h

start_flips-Decides :
    (w : World) (r : FlipRequest) (p fb_id : ℕ)
    → All IsAnswered r.plans
    → Decides (start_flips w r p fb_id)
unfolding start_flips
start_flips-Decides w r p fb_id h =
    finish_all p (queue_flips (with_fb w r fb_id) r.scrn p r.ref_pipe r.plans)
      (queue_flips-Decides (with_fb w r fb_id) r.scrn p r.ref_pipe r.plans h)

with_flip-Decides :
    (w : World) (r : FlipRequest) (p : ℕ) → All IsAnswered r.plans → Decides (with_flip w r p)
unfolding with_flip
with_flip-Decides w r p h = elim (Option-cases r.imported) [
  | inl e ↦
      rw (e, with_flip)
        (error_out-Decides true p (record (new_flip w r p) { flip_bo_import_failed = true }))
  | inr (fb_id, e) ↦ rw (e, with_flip) (start_flips-Decides (new_flip w r p) r p fb_id h)
]

do_pageflip-Decides :
    (w : World) (r : FlipRequest) → All IsAnswered r.plans → Decides (do_pageflip w r)
unfolding do_pageflip
do_pageflip-Decides w r h = elim (Bool-cases r.has_gbm) [
  | inr no_bo ↦ rw (no_bo, do_pageflip) (ground arith)
  | inl bo ↦ elim (Option-cases r.flipdata) [
    | inl e ↦ rw (bo, e, do_pageflip) (ground arith)
    | inr (p, e) ↦ rw (bo, e, do_pageflip) (with_flip-Decides w r p h)
  ]
]

-- The call has returned TRUE or FALSE, and every flipdata counts the queued flips that point to it.
abbrev pub Returns : Option (World × Verdict) → Type 0
Returns r = (w : World) × (v : Verdict) × (r ≡ some (w, v)) × (v ≢ waiting) × IsCounted no_extra w

-- Where for every CRTC the kernel takes the flip, or a flush finds no event, after any number of
-- flushes that find some, ms_do_pageflip returns, uses no freed flipdata, and leaves every flipdata
-- with the number of queued flips that point to it. Before the call the counts are right, and the
-- address that calloc returns is free.
pub do_pageflip-Returns :
    (w : World) (r : FlipRequest)
    → ((p : ℕ) → r.flipdata ≡ some p → w.flips p ≡ none)
    → IsCounted no_extra w
    → All IsAnswered r.plans
    → Returns (do_pageflip w r)
do_pageflip-Returns w r fresh c h =
    let (w', v, e, either) = do_pageflip-Completes w r fresh c in
    let decides : Decides (some (w', v)) = subst Decides e (do_pageflip-Decides w r h) in
    (w', v, e, decides, elim either [ inl waits ↦ absurd (decides waits) | inr counted ↦ counted ])
