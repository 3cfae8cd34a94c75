-- ===== src/Dri2.antt =====
-- dri2.c: what DRI2 keeps while a client waits for a frame or for a swap. Frame events and buffers
-- stand in a store by address; a step that reads freed memory has no result.
pub mod Counts
pub mod Schedule
pub mod Release
pub mod Creation
use xserver_xorg_video_loong.Base.{
  ℕ, suc, ◌+◌, ◌-◌, ◌/◌, ◌%◌, ◌^◌, Bool, true, false, Option, none, some, List, ◌∷◌, ◌==◌,
  if◌then◌else◌, ◌>>=◌,
}
use xserver_xorg_video_loong.Vblank.Requests.{Driver}

-- enum ms_dri2_frame_event_type.
pub data FrameKind : Type 0 where
  queue_swap queue_flip wait_msc : FrameKind

-- ms_dri2_frame_event_rec. The client and the drawable are null once they are gone.
pub record FrameEvent : Type 0 where
  pub kind : FrameKind
  pub client : Option ℕ
  pub drawable : Option ℕ
  pub front : Option ℕ
  pub back : Option ℕ
  pub frame : ℕ

-- ms_dri2_buffer_private_rec.
pub record Buffer : Type 0 where
  pub refcnt : ℕ
  pub pixmap : ℕ

-- The calls of the server and the copies, newest first in the log.
pub data Effect : Type 0 where
  blit : (drawable : ℕ) → (dst src : Option ℕ) → Effect
  exchange : (drawable : ℕ) → (front back : Option ℕ) → Effect
  swap_complete : (client : Option ℕ) → (drawable frame tv_sec tv_usec : ℕ) → Effect
  wait_msc_complete : (client drawable frame tv_sec tv_usec : ℕ) → Effect
  block_client : (client drawable : ℕ) → Effect
  destroy_pixmap : ℕ → Effect

-- The driver's queue holds the addresses of frame events.
pub record Store : Type 0 where
  pub frames : ℕ → Option FrameEvent
  pub buffers : ℕ → Option Buffer
  pub driver : Driver ℕ
  pub log : List Effect

abbrev pub set_at : {A : Type 0} → (ℕ → A) → ℕ → A → ℕ → A
set_at f i x j = if j == i then x else f j

abbrev pub say : Store → Effect → Store
say s e = record s { log = e ∷ s.log }

-- ms_dri2_reference_buffer.
unfoldable pub reference_buffer : Store → Option ℕ → Option Store
reference_buffer s none = some s
reference_buffer s (some b) = elim (s.buffers b) [
  | none ↦ none
  | some buffer ↦ some (record s {
    buffers = set_at s.buffers b (some (record buffer { refcnt = buffer.refcnt + 1 }));
  })
]

-- ms_dri2_destroy_buffer2: the last reference takes the pixmap and the buffer along. No buffer
-- stands in the store with a null driverPrivate.
unfoldable pub destroy_buffer : Store → Option ℕ → Option Store
destroy_buffer s none = some s
destroy_buffer s (some b) = elim (s.buffers b) [
  | none ↦ none
  | some buffer ↦
      if buffer.refcnt == 1
      then some (record s {
        buffers = set_at s.buffers b none;
        log = destroy_pixmap buffer.pixmap ∷ s.log;
      })
      else some (record s {
        buffers = set_at s.buffers b (some (record buffer { refcnt = buffer.refcnt - 1 }));
      })
]

free_frame : ℕ → Store → Option Store
free_frame a s = some (record s { frames = set_at s.frames a none })

-- ms_dri2_del_frame_event. Its resource lists are those of the client and the drawable that it
-- names, so that it leaves them when its memory is freed.
unfoldable pub del_frame_event : Store → ℕ → Option Store
unfolding destroy_buffer free_frame
del_frame_event s a = elim (s.frames a) [
  | none ↦ none
  | some f ↦ destroy_buffer s f.front >>= (λ s'. destroy_buffer s' f.back) >>= free_frame a
]

blit_now : Store → FrameEvent → (drawable msc usec : ℕ) → Store
blit_now s f drawable msc usec =
    say (say s (blit drawable f.front f.back))
      (swap_complete f.client drawable (msc % 2 ^ 32) (usec / 1000000 % 2 ^ 32) (usec % 1000000))

wake : Store → FrameEvent → (drawable msc usec : ℕ) → Store
wake s f drawable msc usec = elim f.client [
  | none ↦ s
  | some client ↦
      say s (
        wait_msc_complete client drawable (msc % 2 ^ 32) (usec / 1000000 % 2 ^ 32) (usec % 1000000))
]

-- The switch of the handler; `flips` says whether can_flip and ms_dri2_schedule_flip succeed.
frame_effect : Store → FrameEvent → (drawable msc usec : ℕ) → (flips : Bool) → Store
unfolding blit_now wake
frame_effect s f drawable msc usec flips = elim f.kind [
  | queue_flip ↦
      if flips then say s (exchange drawable f.front f.back) else blit_now s f drawable msc usec
  | queue_swap ↦ blit_now s f drawable msc usec
  | wait_msc ↦ wake s f drawable msc usec
]

-- ms_dri2_frame_event_handler.
unfoldable pub frame_event_handler : Store → ℕ → (msc usec : ℕ) → (flips : Bool) → Option Store
unfolding del_frame_event frame_effect
frame_event_handler s a msc usec flips = elim (s.frames a) [
  | none ↦ none
  | some f ↦ elim f.drawable [
    | none ↦ del_frame_event s a
    | some drawable ↦ del_frame_event (frame_effect s f drawable msc usec flips) a
  ]
]

-- ms_dri2_frame_event_abort.
unfoldable pub frame_event_abort : Store → ℕ → Option Store
unfolding del_frame_event
frame_event_abort s a = del_frame_event s a

abbrev names : Option ℕ → ℕ → Bool
names none i = false
names (some j) i = j == i

forget_client : ℕ → FrameEvent → FrameEvent
forget_client i f = if names f.client i then record f { client = none } else f

forget_drawable : ℕ → FrameEvent → FrameEvent
forget_drawable i f = if names f.drawable i then record f { drawable = none } else f

-- ms_dri2_frame_event_client_gone: the list of the resource has the frame events of the client.
unfoldable pub client_gone : Store → (client : ℕ) → Store
unfolding forget_client
client_gone s i = record s {
  frames = λ a. elim (s.frames a) [ none ↦ none | some f ↦ some (forget_client i f) ];
}

-- ms_dri2_frame_event_drawable_gone.
unfoldable pub drawable_gone : Store → (drawable : ℕ) → Store
unfolding forget_drawable
drawable_gone s i = record s {
  frames = λ a. elim (s.frames a) [ none ↦ none | some f ↦ some (forget_drawable i f) ];
}
