-- ===== src/Dri2/Release.antt =====
-- What becomes of a frame event whose vblank has come, and who is told of it.
use xserver_xorg_video_loong.Base.{
  ℕ, ◌-◌, ◌≡◌, ◌≢◌, refl, Bool, false, Option, none, some, ◌∷◌, arith, inl, inr, ◌==◌,
  if◌then◌else◌, All, Bool-cases, Option-cases, ◌>>=◌, ==_refl,
}
use xserver_xorg_video_loong.Dri2.{
  FrameEvent, Buffer, Effect, swap_complete, wait_msc_complete, block_client, destroy_pixmap, Store,
  set_at, destroy_buffer, del_frame_event, free_frame, blit_now, wake, frame_effect,
  frame_event_handler, client_gone, forget_client, names,
}

-- A buffer with one reference less.
abbrev pub less : Buffer → Option Buffer
less b = if b.refcnt == 1 then none else some (record b { refcnt = b.refcnt - 1 })

destroy_buffer-less :
    (s : Store) (b : ℕ) (m : Buffer)
    → s.buffers b ≡ some m
    → (t : Store) × (destroy_buffer s (some b) ≡ some t)
      × (t.frames ≡ s.frames)
      × (t.buffers ≡ set_at s.buffers b (less m))
unfolding destroy_buffer
destroy_buffer-less s b m h = elim (Bool-cases (m.refcnt == 1)) [
  | inl e ↦ (
    record s { buffers = set_at s.buffers b none; log = destroy_pixmap m.pixmap ∷ s.log },
    rw (h, e, destroy_buffer) refl,
    refl,
    rw e refl,
  )
  | inr e ↦ (
    record s { buffers = set_at s.buffers b (some (record m { refcnt = m.refcnt - 1 })) },
    rw (h, e, destroy_buffer) refl,
    refl,
    rw e refl,
  )
]

-- The frame event `a` is gone, and so is one reference to each of its buffers `b` and `c`.
abbrev pub IsFreed : Option Store → (a b c : ℕ) → (m n : Buffer) → Type 0
IsFreed none a b c m n = ⊥
IsFreed (some s) a b c m n = (s.frames a ≡ none) × (s.buffers b ≡ less m) × (s.buffers c ≡ less n)

-- A frame event for a swap holds its two buffers.
pub record Holds (s : Store) (a b c : ℕ) (m n : Buffer) : Type 0 where
  pub event : FrameEvent
  pub placed : s.frames a ≡ some event
  pub front : event.front ≡ some b
  pub back : event.back ≡ some c
  pub apart : (c == b) ≡ false
  pub front_there : s.buffers b ≡ some m
  pub back_there : s.buffers c ≡ some n

swapped : (b c : ℕ) → (b == c) ≡ false → (c == b) ≡ false
swapped b c h = ground arith

del_frame_event-IsFreed :
    (s : Store) (a b c : ℕ) (m n : Buffer)
    → Holds s a b c m n
    → IsFreed (del_frame_event s a) a b c m n
unfolding del_frame_event free_frame
del_frame_event-IsFreed s a b c m n h =
    let (t, first, frames, buffers) = destroy_buffer-less s b m h.front_there in
    let there : t.buffers c ≡ some n = rw (buffers, h.apart) h.back_there in
    let (u, second, frames', buffers') = destroy_buffer-less t c n there in
    rw (h.placed, del_frame_event)
      (rw (h.front, h.back)
        (rw first (
          rw second (
            rw (==_refl a) refl,
            rw (buffers', swapped c b h.apart, buffers, ==_refl b) refl,
            rw (buffers', ==_refl c) refl,
          ))))

frame_effect_frames :
    (s : Store) (f : FrameEvent) (drawable msc usec : ℕ) (flips : Bool)
    → ((frame_effect s f drawable msc usec flips).frames ≡ s.frames)
      × ((frame_effect s f drawable msc usec flips).buffers ≡ s.buffers)
unfolding frame_effect blit_now wake
frame_effect_frames s f drawable msc usec flips = ground arith

-- The handler of a frame event for a swap, whatever its kind and whether or not its client and its
-- drawable are still there, frees the event and gives back its reference to each of its two
-- buffers, if they differ.
pub frame_event_handler-IsFreed :
    (s : Store) (a b c : ℕ) (m n : Buffer) (msc usec : ℕ) (flips : Bool)
    → Holds s a b c m n
    → IsFreed (frame_event_handler s a msc usec flips) a b c m n
unfolding frame_event_handler
frame_event_handler-IsFreed s a b c m n msc usec flips h = elim (Option-cases h.event.drawable) [
  | inl e ↦ rw (h.placed, frame_event_handler) (rw e (del_frame_event-IsFreed s a b c m n h))
  | inr (drawable, e) ↦
      let t = frame_effect s h.event drawable msc usec flips in
      let (frames, buffers) = frame_effect_frames s h.event drawable msc usec flips in
      let h' : Holds t a b c m n = record {
        event = h.event;
        placed = rw frames h.placed;
        front = h.front;
        back = h.back;
        apart = h.apart;
        front_there = rw buffers h.front_there;
        back_there = rw buffers h.back_there;
      } in
      rw (h.placed, frame_event_handler) (rw e (del_frame_event-IsFreed t a b c m n h'))
]

-- A message that does not go to the client `i`.
abbrev pub Spares : ℕ → Effect → Type 0
Spares i (swap_complete (some client) drawable frame tv_sec tv_usec) = client ≢ i
Spares i (wait_msc_complete client drawable frame tv_sec tv_usec) = client ≢ i
Spares i (block_client client drawable) = client ≢ i
Spares i _ = Unit {0}

-- The messages of a step, which may fault, all spare the client.
abbrev pub LogSpares : ℕ → Option Store → Type 0
LogSpares i none = Unit {0}
LogSpares i (some s) = All (Spares i) s.log

destroy_buffer-Spares :
    (i : ℕ) (s : Store) (b : Option ℕ) → All (Spares i) s.log → LogSpares i (destroy_buffer s b)
unfolding destroy_buffer
destroy_buffer-Spares i s none h = h
destroy_buffer-Spares i s (some b) h = ground (arith, h)

bind-Spares :
    (i : ℕ) (o : Option Store) (k : Store → Option Store)
    → LogSpares i o
    → ((s : Store) → All (Spares i) s.log → LogSpares i (k s))
    → LogSpares i (o >>= k)
bind-Spares i none k h f = tt
bind-Spares i (some s) k h f = f s h

del_frame_event-Spares :
    (i : ℕ) (s : Store) (a : ℕ) → All (Spares i) s.log → LogSpares i (del_frame_event s a)
unfolding del_frame_event free_frame
del_frame_event-Spares i s a h = elim (Option-cases (s.frames a)) [
  | inl e ↦ rw (e, del_frame_event) tt
  | inr (f, e) ↦
      rw (e, del_frame_event)
        (bind-Spares i _ _
          (bind-Spares i _ _ (destroy_buffer-Spares i s f.front h)
            (λ s' h'. destroy_buffer-Spares i s' f.back h'))
          (λ s' h'. h'))
]

frame_effect-Spares :
    (i : ℕ) (s : Store) (f : FrameEvent) (drawable msc usec : ℕ) (flips : Bool)
    → names f.client i ≡ false
    → All (Spares i) s.log
    → All (Spares i) (frame_effect s f drawable msc usec flips).log
unfolding frame_effect blit_now wake
frame_effect-Spares i s f drawable msc usec flips e h = ground (arith, e, h)

forget_client-names : (i : ℕ) (f : FrameEvent) → names (forget_client i f).client i ≡ false
unfolding forget_client
forget_client-names i f = ground arith

forgotten :
    (i : ℕ) (s : Store) (a : ℕ) (f : FrameEvent)
    → (client_gone s i).frames a ≡ some f
    → names f.client i ≡ false
unfolding client_gone
forgotten i s a f h = elim (Option-cases (s.frames a)) [
  | inl e ↦ ground (arith, e, h)
  | inr (g, e) ↦ ground (arith, e, h, forget_client-names i g)
]

handler-Spares :
    (i : ℕ) (s : Store) (a msc usec : ℕ) (flips : Bool)
    → ((f : FrameEvent) → s.frames a ≡ some f → names f.client i ≡ false)
    → All (Spares i) s.log
    → LogSpares i (frame_event_handler s a msc usec flips)
unfolding frame_event_handler
handler-Spares i s a msc usec flips g h = elim (Option-cases (s.frames a)) [
  | inl e ↦ rw (e, frame_event_handler) tt
  | inr (f, e) ↦ elim (Option-cases f.drawable) [
    | inl d ↦ rw (e, frame_event_handler) (rw d (del_frame_event-Spares i s a h))
    | inr (drawable, d) ↦
        rw (e, frame_event_handler)
          (rw d (
            del_frame_event-Spares i (frame_effect s f drawable msc usec flips) a
              (frame_effect-Spares i s f drawable msc usec flips (g f e) h)))
  ]
]

client_gone_log : (s : Store) (i : ℕ) → (client_gone s i).log ≡ s.log
unfolding client_gone
client_gone_log s i = refl

-- After ms_dri2_frame_event_client_gone, no handler of a frame event, whichever it is, sends the
-- client a message: if it sent none before, it sends none.
pub client_gone-handler :
    (i : ℕ) (s : Store) (a msc usec : ℕ) (flips : Bool)
    → All (Spares i) s.log
    → LogSpares i (frame_event_handler (client_gone s i) a msc usec flips)
client_gone-handler i s a msc usec flips h =
    handler-Spares i (client_gone s i) a msc usec flips (forgotten i s a)
      (rw (client_gone_log s i) h)
