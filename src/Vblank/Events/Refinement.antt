-- ===== src/Vblank/Events/Refinement.antt =====
-- The queue of events of vblank.c as a map from numbers to entries: what each call means there.
use xserver_xorg_video_loong.Base.{
  ℕ, ◌+◌, ◌/◌, ◌^◌, ◌<◌, ◌≡◌, refl, sym, ◌⊎◌, Bool, true, false, none, some, List, [], ◌∷◌, arith,
  ◌==◌, if◌then◌else◌, inl, inr, Bool-cases, Option-cases, All, Ensures, ==_iff,
}
use mathlib.Core.Path.{subst}
use xserver_xorg_video_loong.Vblank.Msc.{kernel_msc_to_crtc_msc}
use xserver_xorg_video_loong.Vblank.Queue.{
  Entry, next_seq, alloc, take_first, take_seq, take_match, take_scrn,
}
use xserver_xorg_video_loong.Vblank.Events.{
  Outcome, handled, aborted, Events, Call, allocs, vblank, sequence, aborts, matches, closes,
  unlink, deliver, sequence_handler, sequence_handler_64bit, drm_handler, abort_one, abort_all,
  abort_seq, abort_match, abort_scrn, step, run,
}
use xserver_xorg_video_loong.Vblank.Events.Numbers.{Falls, IsNumbered, all_requests, run-IsNumbered}
use xserver_xorg_video_loong.Vblank.Events.Entries.{
  entry_at, entry_at_above, Unlinks, take_first-Unlinks, take_first-none, keep_scrn,
  take_scrn-entry_at, IsGone, take_scrn-IsGone,
}

module _ {D : Type 0} where
  -- The map before and after loses at most the entry of a number, and the log gains its callback.
  abbrev pub Takes : (End : Entry D → Outcome D → Type 0) → ℕ → (s t : Events D) → Type 0
  Takes End k s t =
      ((j : ℕ) → entry_at t.queue.entries j ≡ (if j == k then none else entry_at s.queue.entries j))
      × (((entry_at s.queue.entries k ≡ none) × (t.log ≡ s.log))
          ⊎ ((e : Entry D) × (o : Outcome D) × (entry_at s.queue.entries k ≡ some e)
              × End e o
              × (t.log ≡ o ∷ s.log)))

  abbrev pub IsHandled : Entry D → Outcome D → Type 0
  IsHandled e (handled f msc ust) = f ≡ e
  IsHandled e (aborted f) = ⊥

  abbrev pub IsAborted : Entry D → Outcome D → Type 0
  IsAborted e (handled f msc ust) = ⊥
  IsAborted e (aborted f) = f ≡ e

  -- What a call does to the map from numbers to entries, and to the log of the callbacks.
  abbrev pub Allows : Call D → (s t : Events D) → Type 0
  Allows (allocs false scrn crtc payload) s t =
      ((j : ℕ) → entry_at t.queue.entries j ≡ entry_at s.queue.entries j) × (t.log ≡ s.log)
  Allows (allocs true scrn crtc payload) s t =
      (e : Entry D) × (e.scrn ≡ scrn)
      × (e.crtc ≡ crtc)
      × (e.payload ≡ payload)
      × (entry_at s.queue.entries e.seq ≡ none)
      × ((j : ℕ)
          → entry_at t.queue.entries j
            ≡ (if j == e.seq then some e else entry_at s.queue.entries j))
      × (t.log ≡ s.log)
  Allows (vblank frame sec usec seq) s t = Takes IsHandled seq s t
  Allows (sequence frame ns seq) s t = Takes IsHandled seq s t
  Allows (aborts seq) s t = Takes IsAborted seq s t
  Allows (matches match) s t =
      ((t ≡ s)
        × ((k : ℕ) (e : Entry D) → entry_at s.queue.entries k ≡ some e → match e.payload ≡ false))
      ⊎ ((e : Entry D) × (match e.payload ≡ true)
          × (entry_at s.queue.entries e.seq ≡ some e)
          × Takes IsAborted e.seq s t)
  Allows (closes scrn) s t =
      ((j : ℕ) → entry_at t.queue.entries j ≡ keep_scrn scrn (entry_at s.queue.entries j))
      × (gone : List (Entry D)) × All (IsGone scrn s.queue.entries) gone
      × (t.log ≡ abort_all gone s.log)

  take_seq-Unlinks :
      (seq n : ℕ) (es : List (Entry D)) (e : Entry D) (rest : List (Entry D))
      → take_seq seq es ≡ some (e, rest)
      → Falls n es
      → (entry_at es seq ≡ some e)
        × ((j : ℕ) → entry_at rest j ≡ (if j == seq then none else entry_at es j))
  unfolding take_seq
  take_seq-Unlinks seq n es e rest h f =
      let (hit, at, others) =
        subst (Ensures (Unlinks (λ x. x.seq == seq) es)) h
          (take_first-Unlinks (λ x. x.seq == seq) n es f) in
      let same : e.seq ≡ seq = (==_iff e.seq seq).0 hit in
      (
        subst (λ k. entry_at es k ≡ some e) same at,
        subst (λ k. (j : ℕ) → entry_at rest j ≡ (if j == k then none else entry_at es j)) same
            others,
      )

  take_seq-none : (seq : ℕ) (es : List (Entry D)) → take_seq seq es ≡ none → entry_at es seq ≡ none
  unfolding take_seq take_first
  take_seq-none seq [] h = refl
  take_seq-none seq (x ∷ es) h = elim (Bool-cases (x.seq == seq)) [
    | inl hit ↦ absurd (ground (arith, h, hit))
    | inr miss ↦ elim (Option-cases (take_seq seq es)) [
      | inl rest ↦ ground (arith, miss, take_seq-none seq es rest)
      | inr (r, e1) ↦ absurd (ground (arith, h, miss, e1))
    ]
  ]

  none-Takes :
      (End : Entry D → Outcome D → Type 0) (seq : ℕ) (s : Events D)
      → take_seq seq s.queue.entries ≡ none
      → Takes End seq s s
  none-Takes End seq s h =
      let at = take_seq-none seq s.queue.entries h in (λ j. ground (arith, at), inl (at, refl))

  sequence_handler-none :
      (s : Events D) (frame ns : ℕ) (is64bit : Bool) (seq : ℕ)
      → take_seq seq s.queue.entries ≡ none
      → sequence_handler s frame ns is64bit seq ≡ s
  unfolding sequence_handler
  sequence_handler-none s frame ns is64bit seq e = rw (e, sequence_handler)

  sequence_handler-some :
      (s : Events D) (frame ns : ℕ) (is64bit : Bool) (seq : ℕ) (e : Entry D) (rest : List (Entry D))
      → take_seq seq s.queue.entries ≡ some (e, rest)
      → sequence_handler s frame ns is64bit seq ≡ deliver s e rest frame ns is64bit
  unfolding sequence_handler
  sequence_handler-some s frame ns is64bit seq e rest h = rw (h, sequence_handler)

  sequence_handler-Takes :
      (s : Events D) (frame ns : ℕ) (is64bit : Bool) (seq : ℕ)
      → IsNumbered s.queue
      → Takes IsHandled seq s (sequence_handler s frame ns is64bit seq)
  unfolding deliver unlink
  sequence_handler-Takes s frame ns is64bit seq f =
      elim (Option-cases (take_seq seq s.queue.entries)) [
        | inl e ↦
            subst (Takes IsHandled seq s) (sym (sequence_handler-none s frame ns is64bit seq e))
              (none-Takes IsHandled seq s e)
        | inr ((e, rest), found) ↦
            let (at, others) = take_seq-Unlinks seq _ s.queue.entries e rest found f in
            let made = (kernel_msc_to_crtc_msc (s.crtcs e.crtc) frame is64bit).1 in
            subst (Takes IsHandled seq s)
              (sym (sequence_handler-some s frame ns is64bit seq e rest found))
              (others, inr (e, handled e made (ns / 1000), at, refl, refl))
      ]

  abort_seq-Takes :
      (s : Events D) (seq : ℕ) → IsNumbered s.queue → Takes IsAborted seq s (abort_seq s seq)
  unfolding abort_seq abort_one unlink
  abort_seq-Takes s seq f = elim (Option-cases (take_seq seq s.queue.entries)) [
    | inl e ↦
        subst (λ t. Takes IsAborted seq s (abort_one s t)) (sym e) (none-Takes IsAborted seq s e)
    | inr ((e, rest), found) ↦
        let (at, others) = take_seq-Unlinks seq _ s.queue.entries e rest found f in
        subst (λ t. Takes IsAborted seq s (abort_one s t)) (sym found)
          (others, inr (e, aborted e, at, refl, refl))
  ]

  abort_match-Allows :
      (s : Events D) (match : D → Bool)
      → IsNumbered s.queue
      → Allows (matches match) s (abort_match s match)
  unfolding abort_match abort_one unlink take_match
  abort_match-Allows s match f =
      let test : Entry D → Bool = λ e. match e.payload in
      elim (Option-cases (take_first test s.queue.entries)) [
        | inl e ↦
            subst (λ t. Allows (matches match) s (abort_one s t)) (sym e)
              (inl (refl, λ k x at. take_first-none test s.queue.entries k x e at))
        | inr ((e, rest), found) ↦
            let (hit, at, others) =
              subst (Ensures (Unlinks test s.queue.entries)) found
                (take_first-Unlinks test _ s.queue.entries f) in
            subst (λ t. Allows (matches match) s (abort_one s t)) (sym found)
              (inr (e, hit, at, (others, inr (e, aborted e, at, refl, refl))))
      ]

  step-Allows : (s : Events D) (c : Call D) → IsNumbered s.queue → Allows c s (step s c)
  unfolding step alloc drm_handler sequence_handler_64bit abort_scrn
  step-Allows s (allocs false scrn crtc payload) f = (λ j. refl, refl)
  step-Allows s (allocs true scrn crtc payload) f =
      let seq = next_seq s.queue.drm_seq in
      (
        record { seq = seq; scrn = scrn; crtc = crtc; payload = payload },
        refl,
        refl,
        refl,
        entry_at_above seq seq s.queue.entries f (omega arith),
        λ j. ground arith,
        refl,
      )
  step-Allows s (vblank frame sec usec seq) f = sequence_handler-Takes s frame _ false seq f
  step-Allows s (sequence frame ns seq) f = sequence_handler-Takes s frame ns true seq f
  step-Allows s (aborts seq) f = abort_seq-Takes s seq f
  step-Allows s (matches match) f = abort_match-Allows s match f
  step-Allows s (closes scrn) f = (
    λ j. take_scrn-entry_at scrn _ s.queue.entries j f,
    (take_scrn scrn s.queue.entries).0,
    take_scrn-IsGone scrn _ s.queue.entries f,
    refl,
  )

  -- From a queue whose numbers fall along the list, and while the counter cannot wrap, every call after
  -- any history of calls does what it means for a map from numbers to entries: an allocation adds an
  -- entry under a number that was free; a kernel event or an abort takes the entry of its number and
  -- runs the handler or the abort function of that entry, or does nothing if there is none; an abort by
  -- payload takes one entry that matches, or does nothing if none does; a close takes the entries of
  -- its screen and aborts entries of that screen alone.
  pub run-Allows :
      (s : Events D) (cs : List (Call D)) (c : Call D)
      → next_seq s.queue.drm_seq + all_requests cs < 2 ^ 32
      → IsNumbered s.queue
      → Allows c (run s cs) (step (run s cs) c)
  run-Allows s cs c small f = step-Allows (run s cs) c (run-IsNumbered s cs small f)
