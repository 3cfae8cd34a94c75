-- ===== src/Sinks/Endless.antt =====
-- Kernel events and damage on a CRTC that flips between two shared pixmaps, in
-- src/drmmode_display.c and src/driver.c, while there is memory and the kernel takes the requests for a
-- frame.
use mathlib.Core.Path.{subst}
use xserver_xorg_video_loong.Base.{
  ℕ, ap, ◌≡◌, ◌≢◌, refl, sym, ◌∙◌, Bool, true, false, none, some, List, [], ◌∷◌, arith, ◌==◌, inl,
  inr, Bool-cases, All, if_either, ==_iff, Yields, Yields->>=,
}
use xserver_xorg_video_loong.Vblank.Queue.{take_seq}
use xserver_xorg_video_loong.Sinks.{
  Sink, set_crtc, set_pixmap, present_on_vblank, Master, wait_for, event_handler, sequence_handler,
  present_damaged, notify_damage,
}
use xserver_xorg_video_loong.Sinks.Presents.{
  entries, waits, Calm, Shows, present_on_vblank-Shows, shared_pixmap_present-Shows, take_seq_only,
  wait_for-Calm,
}
use xserver_xorg_video_loong.Sinks.Turns.{
  IsFlipping, set_crtc-crtcs, Shows-IsFlipping, take_seq_nil, take_seq_other, args_of, unlinked,
  sequence_handler-none,
}
use xserver_xorg_video_loong.Sinks.Stops.{present_damaged_one}
use xserver_xorg_video_loong.Sinks.Progress.{
  granted, Serves, vblank-HasEvent, shared_pixmap_present-Goes,
}
use xserver_xorg_video_loong.Sinks.Histories.{SinkOp, event, damage, start, stop, step, run}

some-injective : {a b : ℕ} → some a ≡ some b → a ≡ b
some-injective e = cc

module _ (i : ℕ) where
  -- The CRTC flips between two pixmaps, and the next move is on its way: an event is queued, or the
  -- next pixmap waits for damage.
  pub record IsGoing (s : Sink) : Type 0 where
    pub flipping : IsFlipping i s
    pub active : (s.crtcs i).flipping_active ≡ true
    pub moves :
        (front back : ℕ)
        → (s.crtcs i).prime_pixmap ≡ some front
        → (s.crtcs i).prime_pixmap_back ≡ some back
        → (front ≢ back) × (entries s ≡ [] → waits s back ≡ true)

  presented-IsGoing :
      (s : Sink) (front back : ℕ)
      → (s.crtcs i).prime_pixmap ≡ some front
      → (s.crtcs i).prime_pixmap_back ≡ some back
      → (s.crtcs i).flipping_active ≡ true
      → front ≢ back
      → (r : Sink × Bool) → Shows i back s r
      → (entries r.0 ≡ [] → waits r.0 back ≡ true)
      → IsGoing r.0
  presented-IsGoing s front back shown next active apart r shows goes = record {
    flipping = Shows-IsFlipping i front back s shown next r.0 r.1 active shows;
    active = ap (λ f. (f i).flipping_active) shows.0 ∙ active;
    moves = λ front' back' shown' next'.
        let at = ap (λ f. f i) shows.0 in
        let same : front' ≡ front =
          some-injective (sym shown' ∙ ap (λ c. c.prime_pixmap) at ∙ shown) in
        let same_back : back' ≡ back =
          some-injective (sym next' ∙ ap (λ c. c.prime_pixmap_back) at ∙ next) in
        (
          λ e. apart (sym same ∙ e ∙ same_back),
          subst (λ b. entries r.0 ≡ [] → waits r.0 b ≡ true) (sym same_back) goes,
        );
  }

  module _ (s : Sink) (calm : Calm s) (front back : ℕ) (apart : front ≢ back)
      (shown : (s.crtcs i).prime_pixmap ≡ some front)
      (next : (s.crtcs i).prime_pixmap_back ≡ some back)
      (active : (s.crtcs i).flipping_active ≡ true) (m : Master) (served : Serves m) where
    handled-IsGoing :
        (flip : Bool)
        → Yields IsGoing (
            event_handler
              (unlinked s)
              (record { front_target = back; back_target = some front; crtc = i; flip = flip })
              m)
    unfolding event_handler set_crtc
    handled-IsGoing true =
        let s = unlinked s in
        let c = record (s.crtcs i) { prime_pixmap = some back; prime_pixmap_back = some front } in
        let t = set_crtc s i c in
        let at = set_crtc-crtcs s i c in
        let shown = ap (λ c. c.prime_pixmap) at in
        let next = ap (λ c. c.prime_pixmap_back) at in
        let swapped : back ≢ front = λ e. apart (sym e) in
        presented-IsGoing t back front shown next (ap (λ c. c.flipping_active) at ∙ active) swapped
          _ (shared_pixmap_present-Shows t front i m refl calm)
          (shared_pixmap_present-Goes i back front swapped t shown next m refl calm served)
    handled-IsGoing false =
        let s = unlinked s in
        presented-IsGoing s front back shown next active apart _
          (shared_pixmap_present-Shows s back i m refl calm)
          (shared_pixmap_present-Goes i front back apart s shown next m refl calm served)

  module _ (s : Sink) (h : IsGoing s) where
    missed :
        (seq : ℕ) (m : Master)
        → take_seq seq (entries s) ≡ none
        → Yields IsGoing (sequence_handler s seq m)
    missed seq m none_there =
        subst (Yields IsGoing) (sym (sequence_handler-none s seq m none_there)) h

    event-IsGoing : (seq : ℕ) (m : Master) → Serves m → Yields IsGoing (sequence_handler s seq m)
    unfolding sequence_handler
    event-IsGoing seq m served = elim h.flipping.turn [
      | inl (idle, w) ↦ missed seq m (take_seq_nil (entries s) seq idle)
      | inr (calm, on, e, q) ↦ elim (Bool-cases (e.seq == seq)) [
        | inl hit ↦
            rw
              (take_seq_only (entries s) e seq q.alone ((==_iff e.seq seq).0 hit), sequence_handler)
              (subst (λ a. Yields IsGoing (event_handler (unlinked s) a m))
                (sym (
                  args_of e.payload h.flipping.back i (some h.flipping.front) q.front q.back
                    q.crtc))
                (handled-IsGoing s calm h.flipping.front h.flipping.back
                  (h.moves h.flipping.front h.flipping.back h.flipping.shown h.flipping.next).0
                  h.flipping.shown h.flipping.next h.active m served e.payload.flip))
        | inr miss ↦ missed seq m (take_seq_other (entries s) e seq q.alone miss)
      ]
    ]

    damaged-IsGoing :
        (p : ℕ)
        → entries s ≡ []
        → ((q : ℕ) → waits s q ≡ true → q ≡ h.flipping.back)
        → waits s p ≡ true
        → IsGoing (present_damaged (wait_for s p false) p ((i, granted) ∷ [])).0
    unfolding wait_for set_pixmap
    damaged-IsGoing p idle only w =
        let t = wait_for s p false in
        let calm = wait_for-Calm s p h.flipping.back only w in
        let apart = (h.moves h.flipping.front h.flipping.back h.flipping.shown h.flipping.next).0 in
        subst IsGoing
          (sym (present_damaged_one i s h.flipping t p granted h.flipping.shown h.flipping.next))
          (subst (λ b. IsGoing (present_on_vblank t b i granted).0) (sym (only p w))
            (presented-IsGoing t h.flipping.front h.flipping.back h.flipping.shown h.flipping.next
              h.active apart (present_on_vblank t h.flipping.back i granted)
              (present_on_vblank-Shows t h.flipping.back i t granted (refl, idle, calm))
              (λ empty. absurd (
                vblank-HasEvent i h.flipping.front h.flipping.back apart t h.flipping.shown
                  h.flipping.next empty))))

    damage-IsGoing : (p : ℕ) → IsGoing (notify_damage s p ((i, granted) ∷ [])).0
    unfolding notify_damage
    damage-IsGoing p =
        if_either (λ (r : Sink × Bool). IsGoing r.0) (waits s p)
          (present_damaged (wait_for s p false) p ((i, granted) ∷ [])) (s, false)
          (λ w. elim h.flipping.turn [
            | inl (idle, only) ↦ damaged-IsGoing p idle only w
            | inr (calm, on, e, q) ↦ absurd (ground (arith, calm p, w))
          ])
          (λ w. h)

  -- Kernel events with a master that serves, and damage with memory and a kernel that takes requests.
  abbrev pub IsServed : SinkOp → Type 0
  IsServed (event seq m) = Serves m
  IsServed (damage p k) = k ≡ granted
  IsServed (start m) = ⊥
  IsServed stop = ⊥

  -- A CRTC flips between two pixmaps and its next move is on its way. Then after any history of kernel
  -- events and damage, in which there is memory for the entries and the kernel takes the requests for
  -- a frame, but may refuse any flip, its next move is on its way: an event for the next pixmap is
  -- queued, or that pixmap waits for damage.
  pub run-IsGoing :
      (s : Sink) (ops : List SinkOp) → IsGoing s → All IsServed ops → Yields IsGoing (run i s ops)
  unfolding run step
  run-IsGoing s [] h served = h
  run-IsGoing s (event seq m ∷ ops) h (ok, served) =
      Yields->>= IsGoing IsGoing (sequence_handler s seq m) _ (event-IsGoing s h seq m ok)
        (λ t going. run-IsGoing t ops going served)
  run-IsGoing s (damage p k ∷ ops) h (ok, served) =
      run-IsGoing _ ops
        (subst (λ k. IsGoing (notify_damage s p ((i, k) ∷ [])).0) (sym ok) (damage-IsGoing s h p))
        served
  run-IsGoing s (start m ∷ ops) h (ok, served) = elim ok [ ]
  run-IsGoing s (stop ∷ ops) h (ok, served) = elim ok [ ]
