-- ===== src/Sinks/Histories.antt =====
-- Histories of the flipping of shared pixmaps on one CRTC, in src/drmmode_display.c and src/driver.c.
use mathlib.Core.Path.{subst}
use xserver_xorg_video_loong.Base.{
  ℕ, ◌≡◌, sym, ◌⊎◌, Bool, true, false, Option, some, List, [], ◌∷◌, inl, inr, Option-cases, Ensures,
  Yields, Yields-at, Yields->>=, Yields-map, ◌>>=◌,
}
use xserver_xorg_video_loong.Sinks.{
  Sink, Answer, Master, sequence_handler, init_flipping, fini_flipping, disable_flipping,
  notify_damage,
}
use xserver_xorg_video_loong.Sinks.Presents.{entries, waits, Calm}
use xserver_xorg_video_loong.Sinks.Turns.{
  IsFlipping, take_seq_nil, sequence_handler-none, event-IsFlipping,
}
use xserver_xorg_video_loong.Sinks.Stops.{
  fini_flipping-IsStopped, init_flipping-IsFlipping, notify_damage-IsFlipping, IsReleased,
  disable_flipping-IsReleased,
}

-- What happens to the CRTC: a kernel event, damage to the master screen, the CRTC goes on or off.
pub data SinkOp : Type 0 where
  event : (seq : ℕ) → Master → SinkOp
  damage : (ppix : ℕ) → Answer → SinkOp
  start : Master → SinkOp
  stop : SinkOp

module _ (i : ℕ) where
  unfoldable pub step : Sink → SinkOp → Option Sink
  unfolding sequence_handler notify_damage init_flipping fini_flipping
  step s (event seq m) = sequence_handler s seq m
  step s (damage p k) = some (notify_damage s p ((i, k) ∷ [])).0
  step s (start m) = init_flipping s i m >>= λ r. some r.0
  step s stop = fini_flipping s i

  unfoldable pub run : Sink → List SinkOp → Option Sink
  unfolding step
  run s [] = some s
  run s (op ∷ ops) = step s op >>= λ t. run t ops

  -- While the CRTC is off, a pixmap that waits for damage gets none, and the CRTC goes on only if none
  -- waits.
  abbrev pub Allowed : Sink → SinkOp → Type 0
  Allowed s (event seq m) = Unit {0}
  Allowed s (damage p k) = ((s.crtcs i).flipping_active ≡ true) ⊎ (waits s p ≡ false)
  Allowed s (start m) = ((s.crtcs i).flipping_active ≡ true) ⊎ Calm s
  Allowed s stop = Unit {0}

  abbrev pub AllAllowed : Sink → List SinkOp → Type 0
  AllAllowed s [] = Unit {0}
  AllAllowed s (op ∷ ops) = Allowed s op × Ensures (λ t. AllAllowed t ops) (step s op)

  handler-IsFlipping :
      (s : Sink) (seq : ℕ) (m : Master)
      → IsFlipping i s
      → Yields (IsFlipping i) (sequence_handler s seq m)
  handler-IsFlipping s seq m h = elim h.turn [
    | inl (idle, w) ↦
        subst (Yields (IsFlipping i))
          (sym (sequence_handler-none s seq m (take_seq_nil (entries s) seq idle))) h
    | inr (calm, on, e, q) ↦ event-IsFlipping i s e h.front h.back h.shown h.next on calm q seq m
  ]

  step-IsFlipping :
      (s : Sink) (op : SinkOp) → IsFlipping i s → Allowed s op → Yields (IsFlipping i) (step s op)
  unfolding step
  step-IsFlipping s (event seq m) h ok = handler-IsFlipping s seq m h
  step-IsFlipping s (damage p k) h ok = notify_damage-IsFlipping i s h p k ok
  step-IsFlipping s (start m) h ok =
      Yields->>= (λ (r : Sink × Bool). IsFlipping i r.0) (IsFlipping i) (init_flipping s i m) _
        (init_flipping-IsFlipping i s h m ok) (λ r f. f)
  step-IsFlipping s stop h ok =
      Yields-map (λ t (f, idle). f) (fini_flipping s i) (fini_flipping-IsStopped i s h)

  -- The end of the flipping is possible, and leaves nothing behind.
  abbrev pub Ends : Sink → Type 0
  Ends t = IsFlipping i t × Yields (IsReleased i) (disable_flipping t i)

  -- The queue holds events of this CRTC alone, and the CRTC shows one of two pixmaps, with no event
  -- but one for the next pixmap while it flips. Consider a history of kernel events, damage, starts and
  -- stops in which damage to a pixmap that waits for it comes only while the CRTC flips, and a start
  -- while the CRTC is off only if no pixmap waits. It runs to its end in such a state, and the end of the
  -- flipping leaves no event in the queue and no pixmap on the CRTC.
  pub run-IsFlipping :
      (s : Sink) (ops : List SinkOp) → IsFlipping i s → AllAllowed s ops → Yields Ends (run s ops)
  unfolding run
  run-IsFlipping s [] h ok = (h, disable_flipping-IsReleased i s h)
  run-IsFlipping s (op ∷ ops) h (ok, later) =
      let stepped = step-IsFlipping s op h ok in
      elim (Option-cases (step s op)) [
        | inl e ↦ absurd (subst (Yields (IsFlipping i)) e stepped)
        | inr (t, e) ↦ Yields-at Ends t _ e (
            run-IsFlipping t ops (subst (Yields (IsFlipping i)) e stepped)
              (subst (Ensures (λ u. AllAllowed u ops)) e later))
      ]
