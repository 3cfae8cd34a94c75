-- ===== src/Sinks/Turns.antt =====
-- The turns of two shared pixmaps on a CRTC, in src/drmmode_display.c and src/driver.c: kernel
-- events, damage, and the start and the stop of the flipping, in any order. The queue holds no event
-- but those of the CRTC.
use mathlib.Core.Path.{subst}
use xserver_xorg_video_loong.Base.{
  ℕ, ap, ◌≡◌, ◌≢◌, refl, sym, ◌∙◌, ◌⊎◌, Bool, true, false, Option, none, some, List, [], ◌∷◌, arith,
  ◌==◌, inl, inr, Bool-cases, if_either, ==_iff, ==_refl, Yields,
}
use xserver_xorg_video_loong.Vblank.Queue.{Entry, take_seq, take_first}
use xserver_xorg_video_loong.Sinks.{
  PrimeCrtc, EventArgs, Sink, set_crtc, abort_seq, Master, event_handler, sequence_handler,
  abort_flip,
}
use xserver_xorg_video_loong.Sinks.Presents.{
  entries, waits, Calm, IsQueued, Shows, IsIdle, abort_seq-found, take_seq_only,
  shared_pixmap_present-Shows,
}

-- The CRTC shows one pixmap, and the other is next. Either no event is queued, and no pixmap waits for
-- damage but the next one; or the CRTC flips, its one event is for the next pixmap, and no pixmap waits.
pub record IsFlipping (i : ℕ) (s : Sink) : Type 0 where
  pub front : ℕ
  pub back : ℕ
  pub shown : (s.crtcs i).prime_pixmap ≡ some front
  pub next : (s.crtcs i).prime_pixmap_back ≡ some back
  pub turn :
      ((entries s ≡ []) × ((p : ℕ) → waits s p ≡ true → p ≡ back))
      ⊎ (Calm s
          × ((s.crtcs i).flipping_active ≡ true)
          × (e : Entry EventArgs) × IsQueued i back (some front) s e)

pub set_crtc-crtcs : (s : Sink) (i : ℕ) (c : PrimeCrtc) → (set_crtc s i c).crtcs i ≡ c
unfolding set_crtc
set_crtc-crtcs s i c = rw (==_refl i) refl

module _ (i front back : ℕ) (s : Sink) (shown : (s.crtcs i).prime_pixmap ≡ some front)
    (next : (s.crtcs i).prime_pixmap_back ≡ some back) where
  -- A presentation of the next pixmap.
  pub Shows-IsFlipping :
      (t : Sink) (ok : Bool)
      → (s.crtcs i).flipping_active ≡ true
      → Shows i back s (t, ok)
      → IsFlipping i t
  Shows-IsFlipping t ok active (same, turn) =
      let at : t.crtcs i ≡ s.crtcs i = ap (λ f. f i) same in
      record {
        front = front;
        back = back;
        shown = ap (λ c. c.prime_pixmap) at ∙ shown;
        next = ap (λ c. c.prime_pixmap_back) at ∙ next;
        turn = elim turn [
          | inl idle ↦ inl idle
          | inr (calm, k, e, queued) ↦ inr (
            calm,
            ap (λ c. c.flipping_active) at ∙ active,
            e,
            subst (λ target. IsQueued i back target t e) shown queued,
          )
        ];
      }

  pub Shows-started :
      (t : Sink) (ok : Bool)
      → Shows i back s (t, ok)
      → IsFlipping i (set_crtc t i (record (t.crtcs i) { flipping_active = ok }))
  unfolding set_crtc
  Shows-started t ok (same, turn) =
      let at : t.crtcs i ≡ s.crtcs i = ap (λ f. f i) same in
      record {
        front = front;
        back = back;
        shown = rw (==_refl i) (ap (λ c. c.prime_pixmap) at ∙ shown);
        next = rw (==_refl i) (ap (λ c. c.prime_pixmap_back) at ∙ next);
        turn = elim turn [
          | inl idle ↦ inl idle
          | inr (calm, k, e, queued) ↦ inr (
            calm,
            rw (==_refl i) k,
            e,
            record {
              alone = queued.alone;
              front = queued.front;
              back = queued.back ∙ shown;
              crtc = queued.crtc;
              seq = queued.seq;
              numbered = queued.numbered;
            },
          )
        ];
      }

abbrev pub unlinked : Sink → Sink
unlinked s = record s { queue = record s.queue { entries = [] } }

-- The search for an entry that is not there.
pub take_seq_other :
    (es : List (Entry EventArgs)) (e : Entry EventArgs) (seq : ℕ)
    → es ≡ e ∷ []
    → (e.seq == seq) ≡ false
    → take_seq seq es ≡ none
unfolding take_seq take_first
take_seq_other es e seq only differ = rw only (ground (arith, differ))

pub take_seq_nil : (es : List (Entry EventArgs)) (seq : ℕ) → es ≡ [] → take_seq seq es ≡ none
unfolding take_seq take_first
take_seq_nil es seq idle = rw idle refl

pub sequence_handler-none :
    (s : Sink) (seq : ℕ) (m : Master)
    → take_seq seq (entries s) ≡ none
    → sequence_handler s seq m ≡ some s
unfolding sequence_handler
sequence_handler-none s seq m h = rw (h, sequence_handler) refl

abort_seq-none : (s : Sink) (seq : ℕ) → take_seq seq (entries s) ≡ none → abort_seq s seq ≡ s
unfolding abort_seq
abort_seq-none s seq h = rw (h, abort_seq) refl

pub args_of :
    (a : EventArgs) (front crtc : ℕ) (back : Option ℕ)
    → a.front_target ≡ front
    → a.back_target ≡ back
    → a.crtc ≡ crtc
    → a ≡ record { front_target = front; back_target = back; crtc = crtc; flip = a.flip }
args_of a front crtc back p q r = rw (sym p, sym q, sym r) refl

-- The handler of the event of the CRTC.
module _ (i : ℕ) (s : Sink) (e : Entry EventArgs) (front back : ℕ)
    (shown : (s.crtcs i).prime_pixmap ≡ some front)
    (next : (s.crtcs i).prime_pixmap_back ≡ some back) (active : (s.crtcs i).flipping_active ≡ true)
    (calm : Calm s) (queued : IsQueued i back (some front) s e) where
  handled-IsFlipping :
      (m : Master) (flip : Bool)
      → Yields (IsFlipping i) (
          event_handler
            (unlinked s)
            (record { front_target = back; back_target = some front; crtc = i; flip = flip })
            m)
  unfolding event_handler set_crtc
  handled-IsFlipping m true =
      let s = unlinked s in
      let c = record (s.crtcs i) { prime_pixmap = some back; prime_pixmap_back = some front } in
      let t = set_crtc s i c in
      let at = set_crtc-crtcs s i c in
      Shows-IsFlipping i back front t (ap (λ c. c.prime_pixmap) at)
        (ap (λ c. c.prime_pixmap_back) at) _ _ (ap (λ c. c.flipping_active) at ∙ active)
        (shared_pixmap_present-Shows t front i m refl calm)
  handled-IsFlipping m false =
      let s = unlinked s in
      Shows-IsFlipping i front back s shown next _ _ active
        (shared_pixmap_present-Shows s back i m refl calm)

  pub event-IsFlipping : (seq : ℕ) (m : Master) → Yields (IsFlipping i) (sequence_handler s seq m)
  unfolding sequence_handler
  event-IsFlipping seq m = elim (Bool-cases (e.seq == seq)) [
    | inl hit ↦
        rw
          (
            take_seq_only (entries s) e seq queued.alone ((==_iff e.seq seq).0 hit),
            sequence_handler,
          )
          (subst (λ a. Yields (IsFlipping i) (event_handler (unlinked s) a m))
            (sym (args_of e.payload back i (some front) queued.front queued.back queued.crtc))
            (handled-IsFlipping m e.payload.flip))
    | inr miss ↦
        subst (Yields (IsFlipping i))
          (sym (sequence_handler-none s seq m (take_seq_other (entries s) e seq queued.alone miss)))
          (record {
            front = front;
            back = back;
            shown = shown;
            next = next;
            turn = inr (calm, active, e, queued);
          })
  ]

-- The stop.
pub abort_flip-idle : (s : Sink) (p : ℕ) → entries s ≡ [] → abort_flip s p ≡ s
unfolding abort_flip
abort_flip-idle s p idle =
    let seq = (s.pixmaps p).flip_seq in
    if_either (λ t. t ≡ s) (seq == 0) s (abort_seq s seq) (λ e. refl)
      (λ e. abort_seq-none s seq (take_seq_nil (entries s) seq idle))

module _ (s : Sink) (e : Entry EventArgs) (calm : Calm s) (only : entries s ≡ e ∷ []) where
  pub abort_flip-own :
      (p : ℕ) → e.seq ≡ (s.pixmaps p).flip_seq → e.seq ≢ 0 → IsIdle s (abort_flip s p)
  unfolding abort_flip
  abort_flip-own p same numbered =
      if_either (IsIdle s) ((s.pixmaps p).flip_seq == 0) s (abort_seq s (s.pixmaps p).flip_seq)
        (λ zero. absurd (numbered (same ∙ (==_iff _ 0).0 zero)))
        (λ some. abort_seq-found s e (s.pixmaps p).flip_seq calm only same)

  pub abort_flip_either : (p : ℕ) → (abort_flip s p ≡ s) ⊎ IsIdle s (abort_flip s p)
  unfolding abort_flip
  abort_flip_either p =
      let seq = (s.pixmaps p).flip_seq in
      if_either (λ t. (t ≡ s) ⊎ IsIdle s t) (seq == 0) s (abort_seq s seq) (λ z. inl refl)
        (λ z. elim (Bool-cases (e.seq == seq)) [
          | inl hit ↦ inr (abort_seq-found s e seq calm only ((==_iff e.seq seq).0 hit))
          | inr miss ↦ inl (abort_seq-none s seq (take_seq_other (entries s) e seq only miss))
        ])
