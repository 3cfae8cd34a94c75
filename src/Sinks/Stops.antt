-- ===== src/Sinks/Stops.antt =====
-- The start and the stop of the flipping of shared pixmaps in src/drmmode_display.c, and damage to
-- the master screen in src/driver.c.
use mathlib.Core.Path.{subst}
use xserver_xorg_video_loong.Base.{
  ℕ, ap, ◌≡◌, refl, sym, ◌∙◌, ◌⊎◌, Bool, true, false, not, Option, none, some, [], ◌∷◌, arith, inl,
  inr, if_either, ==_refl, Yields, Yields-at, Yields->>=,
}
use xserver_xorg_video_loong.Vblank.Queue.{Entry}
use xserver_xorg_video_loong.Sinks.{
  EventArgs, Sink, set_crtc, Answer, present_on_vblank, Master, wait_for, set_pixmap,
  shared_pixmap_present, init_flipping, abort_flip, fini_flipping, disable_flipping,
  present_damaged, notify_damage, set_target_scanout_pixmap, release_target,
}
use xserver_xorg_video_loong.Sinks.Presents.{
  entries, waits, Calm, IsQueued, Shows, IsIdle, present_on_vblank-Shows,
  shared_pixmap_present-Shows, wait_for-Calm,
}
use xserver_xorg_video_loong.Sinks.Turns.{
  IsFlipping, set_crtc-crtcs, Shows-IsFlipping, Shows-started, abort_flip-idle, abort_flip-own,
  abort_flip_either,
}

abbrev pub IsStopped : ℕ → Sink → Type 0
IsStopped i t = IsFlipping i t × (entries t ≡ [])

module _ (i : ℕ) (s : Sink) (h : IsFlipping i s) where
  abbrev stopping : Sink
  stopping = set_crtc s i (record (s.crtcs i) { flipping_active = false })

  abbrev aborted : Sink
  aborted = abort_flip (abort_flip stopping h.front) h.back

  idle-IsStopped :
      (t : Sink)
      → t.crtcs ≡ stopping.crtcs
      → entries t ≡ []
      → ((p : ℕ) → waits t p ≡ true → p ≡ h.back)
      → IsStopped i t
  idle-IsStopped t same idle w =
      let at : t.crtcs i ≡ record (s.crtcs i) { flipping_active = false } =
        ap (λ f. f i) same ∙ set_crtc-crtcs s i _ in
      (
        record {
          front = h.front;
          back = h.back;
          shown = ap (λ c. c.prime_pixmap) at ∙ h.shown;
          next = ap (λ c. c.prime_pixmap_back) at ∙ h.next;
          turn = inl (idle, w);
        },
        idle,
      )

  queued-IsIdle :
      (e : Entry EventArgs)
      → Calm s
      → IsQueued i h.back (some h.front) s e
      → IsIdle stopping aborted
  unfolding set_crtc
  queued-IsIdle e calm q = elim (abort_flip_either stopping e calm q.alone h.front) [
    | inl same ↦
        subst (λ t. IsIdle stopping (abort_flip t h.back)) (sym same)
          (abort_flip-own stopping e calm q.alone h.back q.seq q.numbered)
    | inr (same, idle, still) ↦
        subst (IsIdle stopping) (sym (abort_flip-idle (abort_flip stopping h.front) h.back idle))
          (same, idle, still)
  ]

  aborted-IsStopped : IsStopped i aborted
  unfolding set_crtc
  aborted-IsStopped = elim h.turn [
    | inl (idle, w) ↦
        subst (IsStopped i)
          (sym (
            ap (λ t. abort_flip t h.back) (abort_flip-idle stopping h.front idle)
            ∙ abort_flip-idle stopping h.back idle))
          (idle-IsStopped stopping refl idle w)
    | inr (calm, active, e, q) ↦
        let (same, idle, still) = queued-IsIdle e calm q in
        idle-IsStopped aborted same idle (λ p w. absurd (ground (arith, still p)))
  ]

  pub fini_flipping-IsStopped : Yields (IsStopped i) (fini_flipping s i)
  unfolding fini_flipping
  fini_flipping-IsStopped =
      if_either (Yields (IsStopped i)) (not (s.crtcs i).flipping_active) (some s) _
        (λ e. elim h.turn [
          | inl (idle, w) ↦ (h, idle)
          | inr (calm, active, e', q) ↦ absurd (ground (arith, e, active))
        ])
        (λ e.
          Yields-at (IsStopped i) h.front _ h.shown
            (Yields-at (IsStopped i) h.back _ h.next aborted-IsStopped))

  -- A start while no pixmap waits, or while the CRTC flips.
  pub init_flipping-IsFlipping :
      (m : Master)
      → ((s.crtcs i).flipping_active ≡ true) ⊎ Calm s
      → Yields (λ (r : Sink × Bool). IsFlipping i r.0) (init_flipping s i m)
  unfolding init_flipping
  init_flipping-IsFlipping m allowed =
      let P = λ (r : Sink × Bool). IsFlipping i r.0 in
      let c = s.crtcs i in
      if_either (Yields P) (not c.enable_flipping) (some (s, false)) _ (λ e. h)
        (λ e.
          if_either (Yields P) c.flipping_active (some (s, true)) _ (λ e. h)
            (λ off. Yields-at P h.back _ h.next (elim h.turn [
              | inl (idle, w) ↦ elim allowed [
                | inl on ↦ absurd (ground (arith, on, off))
                | inr calm ↦
                    let r = shared_pixmap_present s h.back i m in
                    Shows-started i h.front h.back s h.shown h.next r.0 r.1
                      (shared_pixmap_present-Shows s h.back i m idle calm)
              ]
              | inr (calm, on, e', q) ↦ absurd (ground (arith, on, off))
            ])))

  pub present_damaged_one :
      (t : Sink) (p : ℕ) (k : Answer)
      → (t.crtcs i).prime_pixmap ≡ some h.front
      → (t.crtcs i).prime_pixmap_back ≡ some h.back
      → (present_damaged t p ((i, k) ∷ [])).0 ≡ (present_on_vblank t p i k).0
  unfolding present_damaged
  present_damaged_one t p k shown next = rw (shown, next) refl

  damaged-IsFlipping :
      (p : ℕ) (k : Answer)
      → entries s ≡ []
      → ((q : ℕ) → waits s q ≡ true → q ≡ h.back)
      → (s.crtcs i).flipping_active ≡ true
      → waits s p ≡ true
      → IsFlipping i (present_damaged (wait_for s p false) p ((i, k) ∷ [])).0
  unfolding wait_for set_pixmap
  damaged-IsFlipping p k idle only on w =
      let t = wait_for s p false in
      let calm = wait_for-Calm s p h.back only w in
      let r = present_on_vblank t p i k in
      subst (IsFlipping i) (sym (present_damaged_one t p k h.shown h.next)) (
        Shows-IsFlipping i h.front h.back t h.shown h.next r.0 r.1 on (
          subst (λ b. Shows i b t r) (only p w)
            (present_on_vblank-Shows t p i t k (refl, idle, calm))))

  -- Damage while the CRTC flips, or to a pixmap that does not wait.
  pub notify_damage-IsFlipping :
      (p : ℕ) (k : Answer)
      → ((s.crtcs i).flipping_active ≡ true) ⊎ (waits s p ≡ false)
      → IsFlipping i (notify_damage s p ((i, k) ∷ [])).0
  unfolding notify_damage
  notify_damage-IsFlipping p k allowed =
      if_either (λ (r : Sink × Bool). IsFlipping i r.0) (waits s p)
        (present_damaged (wait_for s p false) p ((i, k) ∷ [])) (s, false)
        (λ w. elim h.turn [
          | inl (idle, only) ↦ elim allowed [
            | inl on ↦ damaged-IsFlipping p k idle only on w
            | inr still ↦ absurd (ground (arith, still, w))
          ]
          | inr (calm, on, e', q) ↦ absurd (ground (arith, calm p, w))
        ])
        (λ w. h)

-- The release of the targets leaves the queue alone.
release_target-entries :
    (s : Sink) (target : Option ℕ) → entries (release_target s target) ≡ entries s
unfolding release_target set_pixmap
release_target-entries s none = refl
release_target-entries s (some p) = refl

abbrev pub IsReleased : ℕ → Sink → Type 0
IsReleased i t =
    (entries t ≡ []) × ((t.crtcs i).prime_pixmap ≡ none) × ((t.crtcs i).prime_pixmap_back ≡ none)

-- The end of the flipping leaves no event, and the CRTC no pixmap.
pub disable_flipping-IsReleased :
    (i : ℕ) (s : Sink) → IsFlipping i s → Yields (IsReleased i) (disable_flipping s i)
unfolding disable_flipping set_target_scanout_pixmap set_crtc
disable_flipping-IsReleased i s h =
    let c = record (s.crtcs i) { enable_flipping = false } in
    let t = set_crtc s i c in
    let at = set_crtc-crtcs s i c in
    let flipping : IsFlipping i t = record {
      front = h.front;
      back = h.back;
      shown = ap (λ c. c.prime_pixmap) at ∙ h.shown;
      next = ap (λ c. c.prime_pixmap_back) at ∙ h.next;
      turn = elim h.turn [
        | inl idle ↦ inl idle
        | inr (calm, on, e, q) ↦ inr (
          calm,
          ap (λ c. c.flipping_active) at ∙ on,
          e,
          record {
            alone = q.alone;
            front = q.front;
            back = q.back;
            crtc = q.crtc;
            seq = q.seq;
            numbered = q.numbered;
          },
        )
      ];
    } in
    Yields->>= (IsStopped i) (IsReleased i) (fini_flipping t i) _
      (fini_flipping-IsStopped i t flipping)
      (λ u (stopped, idle). (
        release_target-entries _ (u.crtcs i).prime_pixmap_back
            ∙ release_target-entries u (u.crtcs i).prime_pixmap
            ∙ idle,
        rw (==_refl i) refl,
        rw (==_refl i) refl,
      ))
