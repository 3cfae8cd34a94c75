-- ===== src/Sinks/Presents.antt =====
-- The presentations of shared pixmaps in src/drmmode_display.c, from a screen that has no event
-- queued: at most one event is queued, or the pixmap waits for damage.
use xserver_xorg_video_loong.Base.{
  Bool-cases, ℕ, ap, ◌≡◌, ◌≢◌, refl, ◌∙◌, ◌⊎◌, Bool, true, false, Option, none, some, List, [], ◌∷◌,
  arith, ◌==◌, not, inl, inr, if_either, ==_refl,
}
use mathlib.Core.Path.{subst}
use xserver_xorg_video_loong.Vblank.Queue.{Entry, next_seq, alloc, take_seq, take_first}
use xserver_xorg_video_loong.Sinks.{
  PixmapPriv, EventArgs, Sink, is_target, set_pixmap, event_abort, abort_seq, Answer, settle,
  queue_event, present_on_vblank, shared_pixmap_flip, Master, flip_or_retry, wait_for,
  wait_or_retry, shared_pixmap_present,
}

abbrev pub entries : Sink → List (Entry EventArgs)
entries s = s.queue.entries

abbrev pub waits : Sink → ℕ → Bool
waits s p = (s.pixmaps p).wait_for_damage

abbrev pub Calm : Sink → Type 0
Calm s = (p : ℕ) → waits s p ≡ false

-- An event for `ppix` alone is queued, and the pixmap keeps its number.
pub record IsQueued (crtc_id ppix : ℕ) (target : Option ℕ) (s : Sink) (e : Entry EventArgs)
    : Type 0 where
  pub alone : entries s ≡ e ∷ []
  pub front : e.payload.front_target ≡ ppix
  pub back : e.payload.back_target ≡ target
  pub crtc : e.payload.crtc ≡ crtc_id
  pub seq : e.seq ≡ (s.pixmaps ppix).flip_seq
  pub numbered : e.seq ≢ 0

-- After a request that answers `ok`: nothing is queued, and no pixmap waits but `ppix`; or the event
-- is queued, and no pixmap waits.
abbrev pub Shows : (crtc ppix : ℕ) → (s : Sink) → Sink × Bool → Type 0
Shows crtc ppix s (t, ok) =
    (t.crtcs ≡ s.crtcs)
    × (((entries t ≡ []) × ((p : ℕ) → waits t p ≡ true → p ≡ ppix))
        ⊎ (Calm t
            × (ok ≡ true)
            × (e : Entry EventArgs) × IsQueued crtc ppix (s.crtcs crtc).prime_pixmap t e))

-- Requests that fail leave a screen that is calm and has no event.
abbrev pub IsIdle : (s t : Sink) → Type 0
IsIdle s t = (t.crtcs ≡ s.crtcs) × (entries t ≡ []) × Calm t

set_pixmap-Calm :
    (s : Sink) (p : ℕ) (v : PixmapPriv)
    → v.wait_for_damage ≡ false
    → Calm s
    → Calm (set_pixmap s p v)
unfolding set_pixmap
set_pixmap-Calm s p v h calm q =
    if_either (λ (w : PixmapPriv). w.wait_for_damage ≡ false) (q == p) _ _ (λ e. h) (λ e. calm q)

-- The one pixmap that waits does not wait any more.
pub wait_for-Calm :
    (s : Sink) (p back : ℕ)
    → ((q : ℕ) → waits s q ≡ true → q ≡ back)
    → waits s p ≡ true
    → Calm (wait_for s p false)
unfolding wait_for set_pixmap
wait_for-Calm s p back only w q = elim (Bool-cases (waits s q)) [
  | inl waiting ↦ ground (arith, only p, only q, w)
  | inr still ↦ ground (arith, still)
]

abort_seq-IsIdle : (s : Sink) (seq : ℕ) → Calm s → entries s ≡ [] → IsIdle s (abort_seq s seq)
unfolding abort_seq take_seq take_first
abort_seq-IsIdle s seq calm idle = rw idle (refl, refl, calm)

pub take_seq_only :
    (es : List (Entry EventArgs)) (e : Entry EventArgs) (seq : ℕ)
    → es ≡ e ∷ []
    → e.seq ≡ seq
    → take_seq seq es ≡ some (e, [])
unfolding take_seq take_first
take_seq_only es e seq only same = rw only (ground (arith, same))

pub abort_seq-found :
    (s : Sink) (e : Entry EventArgs) (seq : ℕ)
    → Calm s
    → entries s ≡ e ∷ []
    → e.seq ≡ seq
    → IsIdle s (abort_seq s seq)
unfolding abort_seq event_abort set_pixmap
abort_seq-found s e seq calm only same =
    rw (take_seq_only (entries s) e seq only same, abort_seq)
      (refl, refl, set_pixmap-Calm s e.payload.front_target _ (calm e.payload.front_target) calm)

module _ (s : Sink) (a : EventArgs) (idle : entries s ≡ []) (calm : Calm s) where
  abbrev Asked : Sink × Bool → Type 0
  Asked (t, ok) =
      IsIdle s t
      ⊎ ((t.crtcs ≡ s.crtcs)
          × Calm t
          × (ok ≡ true)
          × (e : Entry EventArgs) × (entries t ≡ e ∷ [])
          × (e.payload ≡ a)
          × (e.seq ≡ (t.pixmaps a.front_target).flip_seq)
          × (e.seq ≢ 0))

  abbrev newest : Entry EventArgs
  newest = record { seq = next_seq s.queue.drm_seq; scrn = 0; crtc = a.crtc; payload = a }

  next_seq-ne : next_seq s.queue.drm_seq ≢ 0
  next_seq-ne = ground arith

  asked :
      (got_args got_entry accepted : Bool)
      → Asked (
          queue_event s a
            (record { got_args = got_args; got_entry = got_entry; accepted = accepted }))
  unfolding queue_event alloc settle set_pixmap
  asked false _ _ = inl (refl, idle, calm)
  asked true false true =
      inl (refl, idle, set_pixmap-Calm s a.front_target _ (calm a.front_target) calm)
  asked true false false =
      inl
        (abort_seq-IsIdle _ 0 (set_pixmap-Calm s a.front_target _ (calm a.front_target) calm) idle)
  asked true true true = inr (
    refl,
    set_pixmap-Calm s a.front_target _ (calm a.front_target) calm,
    refl,
    newest,
    ap (λ es. newest ∷ es) idle,
    refl,
    rw (==_refl a.front_target) refl,
    next_seq-ne,
  )
  asked true true false = inl (
      abort_seq-found _ newest _ (set_pixmap-Calm s a.front_target _ (calm a.front_target) calm)
        (ap (λ es. newest ∷ es) idle) refl)

  pub queue_event-Asked : (k : Answer) → Asked (queue_event s a k)
  queue_event-Asked k = asked k.got_args k.got_entry k.accepted

module _ (s : Sink) (ppix crtc : ℕ) where
  pub queue_event-Shows :
      (t : Sink) (flip : Bool) (k : Answer)
      → IsIdle s t
      → let a : EventArgs = record {
        front_target = ppix;
        back_target = (t.crtcs crtc).prime_pixmap;
        crtc = crtc;
        flip = flip;
      } in
        Shows crtc ppix s (queue_event t a k)
        × ((queue_event t a k).1 ≡ false → IsIdle s (queue_event t a k).0)
  queue_event-Shows t flip k (same, idle, calm) =
      let a : EventArgs = record {
        front_target = ppix;
        back_target = (t.crtcs crtc).prime_pixmap;
        crtc = crtc;
        flip = flip;
      } in
      elim (queue_event-Asked t a idle calm k) [
        | inl (alike, none_left, still) ↦ (
          (alike ∙ same, inl (none_left, λ p w. absurd (ground (arith, still p)))),
          λ e. (alike ∙ same, none_left, still),
        )
        | inr (alike, still, ok, e, only, payload, seq, numbered) ↦ (
          (
            alike ∙ same,
            inr (
              still,
              ok,
              e,
              record {
                alone = only;
                front = ap (λ b. b.front_target) payload;
                back = ap (λ b. b.back_target) payload ∙ ap (λ f. (f crtc).prime_pixmap) same;
                crtc = ap (λ b. b.crtc) payload;
                seq = seq;
                numbered = numbered;
              },
            ),
          ),
          λ no. absurd (ground (arith, ok)),
        )
      ]

  idle-Shows : (t : Sink) (ok : Bool) → IsIdle s t → Shows crtc ppix s (t, ok)
  idle-Shows t ok (same, idle, calm) = (same, inl (idle, λ p w. absurd (ground (arith, calm p))))

  pub present_on_vblank-Shows :
      (t : Sink) (k : Answer) → IsIdle s t → Shows crtc ppix s (present_on_vblank t ppix crtc k)
  unfolding present_on_vblank
  present_on_vblank-Shows t k h =
      let c = t.crtcs crtc in
      if_either (Shows crtc ppix s) (is_target c.prime_pixmap ppix) (t, false) _
        (λ e. idle-Shows t false h)
        (λ e.
          if_either (Shows crtc ppix s) (not (is_target c.prime_pixmap_back ppix)) (t, false) _
            (λ e. idle-Shows t false h) (λ e. (queue_event-Shows t false k h).0))

  flip_or_retry-Shows : (m : Master) → IsIdle s s → Shows crtc ppix s (flip_or_retry s ppix crtc m)
  unfolding flip_or_retry shared_pixmap_flip
  flip_or_retry-Shows m h =
      let r = shared_pixmap_flip s ppix crtc m.flip in
      let (shows, failed) = queue_event-Shows s true m.flip h in
      if_either (Shows crtc ppix s) r.1 (r.0, true) (present_on_vblank r.0 ppix crtc m.vblank)
        (λ e. subst (λ ok. Shows crtc ppix s (r.0, ok)) e shows)
        (λ e. present_on_vblank-Shows r.0 m.vblank (failed e))

  waited-Shows :
      (presents : Bool) (requests : Option Bool) (f k : Answer)
      → IsIdle s s
      → Shows crtc ppix s (
          wait_or_retry s ppix crtc
            (record { presents = presents; requests = requests; flip = f; vblank = k }))
  unfolding wait_or_retry wait_for set_pixmap
  waited-Shows presents none f k h = present_on_vblank-Shows s k h
  waited-Shows presents (some true) f k (same, idle, calm) =
      (refl, inl (idle, λ p w. ground (arith, calm p)))
  waited-Shows presents (some false) f k (same, idle, calm) =
      present_on_vblank-Shows _ k (refl, idle, λ p. ground (arith, calm p))

  -- A presentation from a screen that is calm and has no event.
  pub shared_pixmap_present-Shows :
      (m : Master)
      → entries s ≡ []
      → Calm s
      → Shows crtc ppix s (shared_pixmap_present s ppix crtc m)
  unfolding shared_pixmap_present
  shared_pixmap_present-Shows m idle calm =
      if_either (Shows crtc ppix s) m.presents _ _ (λ e. flip_or_retry-Shows m (refl, idle, calm))
        (λ e. waited-Shows m.presents m.requests m.flip m.vblank (refl, idle, calm))
