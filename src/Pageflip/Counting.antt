-- ===== src/Pageflip/Counting.antt =====
-- The reference count of a flipdata is the number of queued flips that point to it, together with
-- the local reference of a running ms_do_pageflip; so no freed flipdata is ever used.
use xserver_xorg_video_loong.Base.{
  ℕ, suc, ◌+◌, ◌-◌, ◌<◌, ◌≡◌, refl, inl, inr, Bool, true, false, Option, none, some, List, [], ◌∷◌,
  arith, ◌==◌, if◌then◌else◌, ltb, Bool-cases, Option-cases,
}
use xserver_xorg_video_loong.Vblank.Queue.{Entry, take_first, take_seq, take_match}
use xserver_xorg_video_loong.Pageflip.{
  Client, present, dri2, FlipData, Payload, crtc_flip, present_vblank, World, set_flip,
  present_vblank_handler, event_handler, abort_handler, pageflip_free, pageflip_handler,
  pageflip_abort, handle, abort, KernelEvent, sequence_handler, abort_one, abort_seq, abort_match,
  handle_events,
}

-- How many entries point to `p`.
abbrev pub points : ℕ → Payload → ℕ
points p (crtc_flip on_reference_crtc q) = if p == q then 1 else 0
points p (present_vblank event_id) = 0

abbrev pub refs : ℕ → List (Entry Payload) → ℕ
refs p [] = 0
refs p (e ∷ es) = points p e.payload + refs p es

-- An allocated flipdata counts `n` references, which are not none; to a free address there is none.
abbrev pub Tally : Option FlipData → ℕ → Type 0
Tally none n = n ≡ 0
Tally (some fd) n = (fd.flip_count ≡ n) × (0 < n)

-- `extra p` references to `p` are held outside the queue.
abbrev pub IsCounted : (ℕ → ℕ) → World → Type 0
IsCounted extra w = (p : ℕ) → Tally (w.flips p) (refs p w.queue.entries + extra p)

abbrev pub no_extra : ℕ → ℕ
no_extra p = 0

abbrev pub one_more : ℕ → (ℕ → ℕ) → ℕ → ℕ
one_more p extra q = extra q + (if q == p then 1 else 0)

-- A step that ends: no fault, and the count is right.
abbrev pub Ends : (ℕ → ℕ) → Option World → Type 0
Ends extra r = (w : World) × (r ≡ some w) × IsCounted extra w

take_first-refs :
    (test : Entry Payload → Bool) (p : ℕ) (es : List (Entry Payload)) (e : Entry Payload)
    (rest : List (Entry Payload))
    → take_first test es ≡ some (e, rest)
    → refs p es ≡ refs p rest + points p e.payload
unfolding take_first
take_first-refs test p [] e rest h = cc
take_first-refs test p (x ∷ es) e rest h = elim (Bool-cases (test x)) [
  | inl hit ↦ ground arith
  | inr miss ↦ elim (Option-cases (take_first test es)) [
    | inl e0 ↦ ground arith
    | inr ((f, tail), e1) ↦ ground (arith, take_first-refs test p es f tail e1)
  ]
]

-- The live flipdata behind a reference.
pub live_of_extra :
    (extra : ℕ → ℕ) (w : World) (p : ℕ)
    → IsCounted (one_more p extra) w
    → (fd : FlipData) × (w.flips p ≡ some fd)
      × (fd.flip_count ≡ suc (refs p w.queue.entries + extra p))
live_of_extra extra w p c = elim (Option-cases (w.flips p)) [
  | inl e ↦ absurd (ground (arith, c p))
  | inr (fd, e) ↦ (fd, e, ground (arith, c p))
]

-- Dropping a reference frees the flipdata with the last one.
pageflip_free-Ends :
    (extra : ℕ → ℕ) (w : World) (p : ℕ)
    → IsCounted (one_more p extra) w
    → Ends extra (pageflip_free p w)
unfolding pageflip_free
pageflip_free-Ends extra w p c =
    let (fd, e, n) = live_of_extra extra w p c in
    (
      record w {
        flips = set_flip w.flips p (
            if ltb 0 (fd.flip_count - 1)
            then some (record fd { flip_count = fd.flip_count - 1 })
            else none);
      },
      rw e,
      λ q. ground (arith, c q),
    )

-- The callbacks of the client touch neither the queue nor the heap.
event_handler_frame :
    (c : Client) (msc ust : ℕ) (w : World)
    → ((event_handler c msc ust w).flips ≡ w.flips) × ((event_handler c msc ust w).queue ≡ w.queue)
unfolding event_handler present_vblank_handler
event_handler_frame (present event_id unflip) msc ust w = (refl, refl)
event_handler_frame (dri2 drawable found) msc ust w = (refl, refl)

abort_handler_frame :
    (c : Client) (w : World)
    → ((abort_handler c w).flips ≡ w.flips) × ((abort_handler c w).queue ≡ w.queue)
unfolding abort_handler
abort_handler_frame (present event_id unflip) w = (refl, refl)
abort_handler_frame (dri2 drawable found) w = (refl, refl)

IsCounted-frame :
    (extra : ℕ → ℕ) (w v : World)
    → v.flips ≡ w.flips
    → v.queue ≡ w.queue
    → IsCounted extra w
    → IsCounted extra v
IsCounted-frame extra w v f q c p = rw (f, q) (c p)

-- The callback runs or not, and the reference is dropped.
free_after :
    (extra : ℕ → ℕ) (p : ℕ) (last : Bool) (v w : World)
    → v.flips ≡ w.flips
    → v.queue ≡ w.queue
    → IsCounted (one_more p extra) w
    → Ends extra (pageflip_free p (if last then v else w))
free_after extra p true v w f q c = pageflip_free-Ends extra v p (IsCounted-frame _ w v f q c)
free_after extra p false v w f q c = pageflip_free-Ends extra w p c

module _ (extra : ℕ → ℕ) (w : World) (p : ℕ) (c : IsCounted (one_more p extra) w) where
  pageflip_handler-Ends :
      (on_reference_crtc : Bool) (msc ust : ℕ)
      → Ends extra (pageflip_handler on_reference_crtc p msc ust w)
  unfolding pageflip_handler
  pageflip_handler-Ends on_reference_crtc msc ust =
      let (old, e, n) = live_of_extra extra w p c in
      let fd : FlipData =
        if on_reference_crtc then record old { fe_msc = msc; fe_usec = ust } else old in
      let stored : World = record w { flips = set_flip w.flips p (some fd) } in
      let (f, q) = event_handler_frame fd.client fd.fe_msc fd.fe_usec stored in
      let same : fd.flip_count ≡ old.flip_count = ground arith in
      let counted : IsCounted (one_more p extra) stored = λ a. ground (arith, c a) in
      rw e (free_after extra p (fd.flip_count == 1) _ stored f q counted)

  pageflip_abort-Ends : Ends extra (pageflip_abort p w)
  unfolding pageflip_abort
  pageflip_abort-Ends =
      let (fd, e, n) = live_of_extra extra w p c in
      let (f, q) = abort_handler_frame fd.client w in
      rw e (free_after extra p (fd.flip_count == 1) _ w f q c)

-- An entry that leaves the queue hands its reference over.
unlinked :
    (extra : ℕ → ℕ) (w : World) (test : Entry Payload → Bool) (e : Entry Payload)
    (rest : List (Entry Payload))
    → IsCounted extra w
    → take_first test w.queue.entries ≡ some (e, rest)
    → (p : ℕ) → Tally (w.flips p) (refs p rest + points p e.payload + extra p)
unlinked extra w test e rest c h p = rw (← take_first-refs test p w.queue.entries e rest h) (c p)

handle-Ends :
    (extra : ℕ → ℕ) (payload : Payload) (msc ust : ℕ) (w : World)
    → ((p : ℕ) → Tally (w.flips p) (refs p w.queue.entries + points p payload + extra p))
    → Ends extra (handle payload msc ust w)
unfolding handle present_vblank_handler
handle-Ends extra (crtc_flip on_reference_crtc p) msc ust w c =
    pageflip_handler-Ends extra w p (λ q. ground (arith, c q)) on_reference_crtc msc ust
handle-Ends extra (present_vblank event_id) msc ust w c = (_, refl, λ q. ground (arith, c q))

abort-Ends :
    (extra : ℕ → ℕ) (payload : Payload) (w : World)
    → ((p : ℕ) → Tally (w.flips p) (refs p w.queue.entries + points p payload + extra p))
    → Ends extra (abort payload w)
unfolding abort
abort-Ends extra (crtc_flip on_reference_crtc p) w c =
    pageflip_abort-Ends extra w p (λ q. ground (arith, c q))
abort-Ends extra (present_vblank event_id) w c = (_, refl, λ q. ground (arith, c q))

pub sequence_handler-Ends :
    (extra : ℕ → ℕ) (w : World) (e : KernelEvent)
    → IsCounted extra w
    → Ends extra (sequence_handler w e)
unfolding sequence_handler take_seq
sequence_handler-Ends extra w e c = elim (Option-cases (take_seq e.seq w.queue.entries)) [
  | inl h ↦ rw (h, sequence_handler) (w, refl, c)
  | inr ((q, rest), h) ↦
      rw (h, sequence_handler) (handle-Ends extra q.payload _ _ _ (unlinked extra w _ q rest c h))
]

abort_one-Ends :
    (extra : ℕ → ℕ) (w : World) (test : Entry Payload → Bool)
    → IsCounted extra w
    → Ends extra (abort_one w (take_first test w.queue.entries))
unfolding abort_one
abort_one-Ends extra w test c = elim (Option-cases (take_first test w.queue.entries)) [
  | inl h ↦ rw (h, abort_one) (w, refl, c)
  | inr ((q, rest), h) ↦
      rw (h, abort_one) (abort-Ends extra q.payload _ (unlinked extra w test q rest c h))
]

pub abort_seq-Ends :
    (extra : ℕ → ℕ) (w : World) (seq : ℕ) → IsCounted extra w → Ends extra (abort_seq w seq)
unfolding abort_seq take_seq
abort_seq-Ends extra w seq c = abort_one-Ends extra w (λ e. e.seq == seq) c

pub abort_match-Ends :
    (extra : ℕ → ℕ) (w : World) (match : Payload → Bool)
    → IsCounted extra w
    → Ends extra (abort_match w match)
unfolding abort_match take_match
abort_match-Ends extra w match c = abort_one-Ends extra w (λ e. match e.payload) c

-- From a state in which every flipdata counts the queued flips that point to it and the references
-- held elsewhere, any sequence of kernel events ends without the use of a freed flipdata, and the
-- counts are right again.
pub handle_events-Ends :
    (extra : ℕ → ℕ) (w : World) (es : List KernelEvent)
    → IsCounted extra w
    → Ends extra (handle_events w es)
unfolding handle_events
handle_events-Ends extra w [] c = (w, refl, c)
handle_events-Ends extra w (e ∷ es) c =
    let (w', h, c') = sequence_handler-Ends extra w e c in rw h (handle_events-Ends extra w' es c')
