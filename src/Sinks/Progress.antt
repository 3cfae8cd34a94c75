-- ===== src/Sinks/Progress.antt =====
-- The flipping of shared pixmaps in src/drmmode_display.c goes on: while there is memory and the kernel
-- takes the requests for a frame, an event is queued or the next pixmap waits for damage.
use mathlib.Core.Path.{subst}
use xserver_xorg_video_loong.Base.{
  ℕ, ap, ◌≡◌, ◌≢◌, refl, sym, ◌∙◌, Bool, true, false, not, Option, none, some, [], arith,
  if◌then◌else◌, if_either, ==_iff, ==_refl,
}
use xserver_xorg_video_loong.Vblank.Queue.{alloc}
use xserver_xorg_video_loong.Sinks.{
  EventArgs, Sink, is_target, set_pixmap, settle, Answer, queue_event, present_on_vblank,
  shared_pixmap_flip, Master, flip_or_retry, wait_for, wait_or_retry, shared_pixmap_present,
}
use xserver_xorg_video_loong.Sinks.Presents.{entries, waits, Calm, queue_event-Shows}

abbrev pub granted : Answer
granted = record { got_args = true; got_entry = true; accepted = true }

-- There is memory for an entry, and the kernel takes the request for the next frame; the flip may be
-- refused.
abbrev pub Serves : Master → Type 0
Serves m = (m.flip.got_entry ≡ true) × (m.vblank ≡ granted)

abbrev pub HasEvent : Sink × Bool → Type 0
HasEvent r = entries r.0 ≢ []

module _ (i front ppix : ℕ) (apart : front ≢ ppix) where
  pub vblank-HasEvent :
      (s : Sink)
      → (s.crtcs i).prime_pixmap ≡ some front
      → (s.crtcs i).prime_pixmap_back ≡ some ppix
      → HasEvent (present_on_vblank s ppix i granted)
  unfolding present_on_vblank queue_event alloc settle set_pixmap
  vblank-HasEvent s shown next =
      let c = s.crtcs i in
      if_either HasEvent (is_target c.prime_pixmap ppix) (s, false) _
        (λ e. absurd (apart ((==_iff front ppix).0 (subst (λ o. is_target o ppix ≡ true) shown e))))
        (λ e.
          if_either HasEvent (not (is_target c.prime_pixmap_back ppix)) (s, false) _
            (λ e.
              absurd
                (ground (arith, ==_refl ppix, subst (λ o. not (is_target o ppix) ≡ true) next e)))
            (λ e empty. absurd cc))

  flipped-HasEvent :
      (s : Sink) (a : EventArgs) (got_args accepted : Bool)
      → let r =
          queue_event s a (record { got_args = got_args; got_entry = true; accepted = accepted }) in
        r.1 ≡ true → HasEvent r
  unfolding queue_event alloc settle set_pixmap
  flipped-HasEvent s a false accepted ok empty = absurd cc
  flipped-HasEvent s a true true ok empty = absurd cc
  flipped-HasEvent s a true false ok empty = absurd cc

  module _ (s : Sink) (shown : (s.crtcs i).prime_pixmap ≡ some front)
      (next : (s.crtcs i).prime_pixmap_back ≡ some ppix) where
    abbrev pub Goes : Sink × Bool → Type 0
    Goes r = entries r.0 ≡ [] → waits r.0 ppix ≡ true

    flip-HasEvent :
        (f : Answer)
        → f.got_entry ≡ true
        → (shared_pixmap_flip s ppix i f).1 ≡ true
        → HasEvent (shared_pixmap_flip s ppix i f)
    unfolding shared_pixmap_flip
    flip-HasEvent f kept =
        let a : EventArgs = record {
          front_target = ppix;
          back_target = (s.crtcs i).prime_pixmap;
          crtc = i;
          flip = true;
        } in
        subst
          (λ b.
            (queue_event s a (record f { got_entry = b })).1 ≡ true
            → HasEvent (queue_event s a (record f { got_entry = b })))
          (sym kept) (flipped-HasEvent s a f.got_args f.accepted)

    flip_or_retry-HasEvent :
        (m : Master) → entries s ≡ [] → Calm s → Serves m → HasEvent (flip_or_retry s ppix i m)
    unfolding flip_or_retry shared_pixmap_flip
    flip_or_retry-HasEvent m idle calm (kept, taken) =
        let r = shared_pixmap_flip s ppix i m.flip in
        let same = (queue_event-Shows s ppix i s true m.flip (refl, idle, calm)).0.0 in
        let at = ap (λ f. f i) same in
        if_either HasEvent r.1 (r.0, true) (present_on_vblank r.0 ppix i m.vblank)
          (flip-HasEvent m.flip kept)
          (λ e.
            subst (λ k. HasEvent (present_on_vblank r.0 ppix i k)) (sym taken)
              (vblank-HasEvent r.0 (ap (λ c. c.prime_pixmap) at ∙ shown)
                (ap (λ c. c.prime_pixmap_back) at ∙ next)))

    waited-Goes :
        (presents : Bool) (requests : Option Bool) (f : Answer)
        → Goes (
            wait_or_retry s ppix i
              (record { presents = presents; requests = requests; flip = f; vblank = granted }))
    unfolding wait_or_retry wait_for set_pixmap
    waited-Goes presents none f empty = absurd (vblank-HasEvent s shown next empty)
    waited-Goes presents (some true) f empty =
        ap
          (λ b.
            (if b
              then record (s.pixmaps ppix) { wait_for_damage = true }
              else s.pixmaps ppix).wait_for_damage)
          (==_refl ppix)
    waited-Goes presents (some false) f empty =
        absurd (vblank-HasEvent (wait_for (wait_for s ppix true) ppix false) shown next empty)

    pub shared_pixmap_present-Goes :
        (m : Master) → entries s ≡ [] → Calm s → Serves m → Goes (shared_pixmap_present s ppix i m)
    unfolding shared_pixmap_present
    shared_pixmap_present-Goes m idle calm served =
        if_either Goes m.presents (flip_or_retry s ppix i m) _
          (λ e empty. absurd (flip_or_retry-HasEvent m idle calm served empty))
          (λ e.
            subst
              (λ k. Goes (
                wait_or_retry s ppix i (record {
                  presents = m.presents;
                  requests = m.requests;
                  flip = m.flip;
                  vblank = k;
                })))
              (sym served.1) (waited-Goes m.presents m.requests m.flip))
