-- ===== src/Dri2/Schedule.antt =====
-- ms_dri2_schedule_wait_msc and ms_dri2_schedule_swap. What calloc, the resource table, can_flip and
-- the kernel answer comes with the call. Callbacks that run while a request is made, among them
-- the abort of the request's own entry, are applied after the request, oldest first.
pub mod Refusal
pub mod Timing
use xserver_xorg_video_loong.Base.{
  ℕ, ◌+◌, ◌-◌, ◌%◌, ◌^◌, Bool, true, false, not, ◌&&◌, ◌||◌, Option, none, some, List, [], ◌∷◌,
  ◌==◌, if◌then◌else◌, ltb, leb, ◌>>=◌,
}
use xserver_xorg_video_loong.Vblank.Queue.{alloc}
use xserver_xorg_video_loong.Vblank.Events.{Events, Outcome, handled, aborted, set_crtc}
use xserver_xorg_video_loong.Vblank.Requests.{
  Reply, Driver, QueueFlag, Target, Round, Result, queued, refused, queue_vblank, get_crtc_ust_msc,
}
use xserver_xorg_video_loong.Vblank.Requests
use xserver_xorg_video_loong.Dri2.{
  FrameKind, queue_swap, queue_flip, wait_msc, FrameEvent, blit, swap_complete, wait_msc_complete,
  block_client, Store, set_at, say, reference_buffer, del_frame_event, frame_event_handler,
  frame_event_abort,
}
use xserver_xorg_video_loong.Dri2.Counts.{wait_count, swap_count}

-- The arguments that both functions take, and the covering CRTC, if there is one, with its pipe.
pub record Ask : Type 0 where
  pub client : ℕ
  pub drawable : ℕ
  pub scrn : ℕ
  pub crtc : ℕ
  pub pipe : ℕ
  pub target_msc : ℕ
  pub divisor : ℕ
  pub remainder : ℕ

-- `place` is the address that calloc gives, none for NULL; `resources` says whether
-- ms_dri2_add_frame_event succeeds; `garbage` is what an unset local variable holds; `flips` says
-- what can_flip answers, and `later` whether a frame event handled meanwhile can be flipped.
pub record Answers : Type 0 where
  pub place : Option ℕ
  pub resources : Bool
  pub sequence_reply : Reply (ℕ × ℕ)
  pub vblank_reply : Reply (ℕ × ℕ × ℕ)
  pub garbage : ℕ
  pub flips : Bool
  pub got_queue : Bool
  pub rounds : List (Round ℕ)
  pub later : ℕ → Bool

-- The callbacks of the log's entries.
settle : Store → (ℕ → Bool) → List (Outcome ℕ) → Option Store
settle s later [] = some s
settle s later (handled e msc ust ∷ os) =
    settle s later os >>= (λ s'. frame_event_handler s' e.payload msc ust (later e.payload))
settle s later (aborted e ∷ os) = settle s later os >>= (λ s'. frame_event_abort s' e.payload)

-- The driver with no callback to apply.
abbrev unlogged : Driver ℕ → Driver ℕ
unlogged d = record d { events = record (d.events) { log = [] } }

settled : Store → (ℕ → Bool) → Driver ℕ × Result → Option (Store × Result)
unfolding settle
settled s later (d, result) =
    settle (record s { driver = unlogged d }) later d.events.log >>= (λ s'. some (s', result))

target_of : Ask → QueueFlag → (msc seq : ℕ) → Target
target_of x flags msc seq = record {
  crtc = x.crtc;
  pipe = x.pipe;
  flags = flags;
  msc = msc;
  seq = seq;
  wants_msc = true;
}

-- ms_drm_queue_alloc and ms_queue_vblank for the frame event `a`; without memory for the entry the
-- request is not made.
unfoldable pub request :
    Store → Ask → Answers → (a : ℕ) → QueueFlag → (msc : ℕ) → Option (Store × Result)
unfolding settled target_of
request s x w a flags msc =
    let d = unlogged s.driver in
    let (q, seq) = alloc d.events.queue w.got_queue x.scrn x.crtc a in
    let asked = record d { events = record (d.events) { queue = q } } in
    if w.got_queue
    then settled s w.later (queue_vblank asked (target_of x flags msc seq) w.rounds)
    else some (s, refused)

-- ms_get_crtc_ust_msc in the store: the count, if there is one.
read_msc : Store → Ask → Answers → Store × Option ℕ
read_msc s x w =
    let d = s.driver in
    let (caps, crtc, r) =
      get_crtc_ust_msc d.caps (d.events.crtcs x.crtc) w.sequence_reply w.vblank_reply in
    let events = record (d.events) { crtcs = set_crtc d.events.crtcs x.crtc crtc } in
    (
      record s { driver = record d { caps = caps; events = events } },
      elim r [ none ↦ none | some (ust, msc) ↦ some msc ],
    )

-- In the source the count is cut to an `int`, which nothing reads.
set_frame : Store → (a frame : ℕ) → Option Store
set_frame s a frame = elim (s.frames a) [
  | none ↦ none
  | some f ↦ some (record s { frames = set_at s.frames a (some (record f { frame = frame })) })
]

-- Answered once for all, answered later, or no answer yet of the kernel.
pub data Reached : Type 0 where
  completed pending stuck : Reached

-- The wait for the count `msc`.
wait_complete : Store → Ask → (target_msc : ℕ) → Store
wait_complete s x target_msc =
    say s (wait_msc_complete x.client x.drawable (target_msc % 2 ^ 32) 0 0)

-- The label out_free.
wait_free : Store → Ask → (a target_msc : ℕ) → Option (Store × Reached)
unfolding wait_complete
wait_free s x a target_msc =
    del_frame_event s a >>= (λ s'. some (wait_complete s' x target_msc, completed))

wait_result : Ask → (a target_msc : ℕ) → Store × Result → Option (Store × Reached)
unfolding wait_free set_frame
wait_result x a target_msc (s, queued none) = none
wait_result x a target_msc (s, queued (some msc)) =
    set_frame s a msc >>= (λ s'. some (say s' (block_client x.client x.drawable), pending))
wait_result x a target_msc (s, refused) = wait_free s x a target_msc
wait_result x a target_msc (s, Result.waiting) = some (s, stuck)

-- The target is still to come: it is raised to the current count, but not where memory for the
-- entry is missing.
wait_for : Store → Ask → Answers → (a current_msc : ℕ) → Option (Store × Reached)
unfolding wait_result
wait_for s x w a current_msc =
    let flags : QueueFlag = record { relative = false; next_on_miss = false } in
    let target = if ltb current_msc x.target_msc then x.target_msc else current_msc in
    let msc =
      if x.divisor == 0 || ltb current_msc x.target_msc
      then target
      else wait_count current_msc x.divisor x.remainder in
    let told =
      if (x.divisor == 0 || ltb current_msc x.target_msc) && w.got_queue
      then target
      else x.target_msc in
    request s x w a flags msc >>= wait_result x a told

wait_frame : Ask → FrameEvent
wait_frame x = record {
  kind = wait_msc;
  client = some x.client;
  drawable = some x.drawable;
  front = none;
  back = none;
  frame = 0;
}

-- The result of ms_get_crtc_ust_msc is not looked at.
wait_at : Store → Ask → Answers → (a : ℕ) → Option (Store × Reached)
unfolding read_msc wait_for wait_frame
wait_at s x w a =
    let s' = record s { frames = set_at s.frames a (some (wait_frame x)) } in
    let (s'', count) = read_msc s' x w in
    wait_for s'' x w a (elim count [ none ↦ w.garbage | some msc ↦ msc ])

unfoldable pub schedule_wait_msc :
    Store → (visible : Bool) → Ask → Answers → Option (Store × Reached)
unfolding wait_at wait_complete
schedule_wait_msc s visible x w =
    let out = some (wait_complete s x x.target_msc, completed) in
    elim w.place [ none ↦ out | some a ↦ if visible && w.resources then wait_at s x w a else out ]

-- The label blit_fallback, with the address of the frame event, if there is one. The results have
-- the target count that the caller reads back.
blit_fallback : Store → Ask → (front back : ℕ) → Option ℕ → Option (Store × ℕ × Reached)
blit_fallback s x front back frame_info =
    let s' =
      say (say s (blit x.drawable (some front) (some back)))
        (swap_complete (some x.client) x.drawable 0 0 0) in
    elim frame_info [
      | none ↦ some (s', 0, completed)
      | some a ↦ del_frame_event s' a >>= (λ t. some (t, 0, completed))
    ]

abbrev pub flip_delay : Bool → ℕ
flip_delay flip = if flip then 1 else 0

swap_result :
    Ask
    → (front back : ℕ) → (flip : Bool) → (a target_msc : ℕ) → Store × Result
    → Option (Store × ℕ × Reached)
unfolding blit_fallback set_frame
swap_result x front back flip a target_msc (s, queued none) = none
swap_result x front back flip a target_msc (s, queued (some msc)) =
    let target = (msc + flip_delay flip) % 2 ^ 64 in
    set_frame s a target >>= (λ s'. some (s', target, pending))
swap_result x front back flip a target_msc (s, refused) = blit_fallback s x front back (some a)
swap_result x front back flip a target_msc (s, Result.waiting) = some (s, target_msc, stuck)

-- The count that a swap asks for; a flip is submitted one frame before.
unfoldable pub swap_request : Ask → (flip : Bool) → (current_msc : ℕ) → ℕ
swap_request x flip current_msc =
    let target = if ltb 0 x.target_msc then x.target_msc - flip_delay flip else x.target_msc in
    if x.divisor == 0 || ltb current_msc target
    then if ltb current_msc target then target else current_msc
    else (swap_count current_msc x.divisor x.remainder + 2 ^ 64 - flip_delay flip) % 2 ^ 64

swap_for : Store → Ask → Answers → (front back a current_msc : ℕ) → Option (Store × ℕ × Reached)
unfolding swap_request swap_result
swap_for s x w front back a current_msc =
    let flags : QueueFlag = record { relative = false; next_on_miss = not w.flips } in
    request s x w a flags (swap_request x w.flips current_msc)
    >>= swap_result x front back w.flips a x.target_msc

-- The frame event, whose kind can_flip may change.
swap_frame : Ask → (front back : ℕ) → FrameKind → FrameEvent
swap_frame x front back kind = record {
  kind = kind;
  client = some x.client;
  drawable = some x.drawable;
  front = some front;
  back = some back;
  frame = 0;
}

place_swap : Store → Ask → (front back a : ℕ) → FrameKind → Store
unfolding swap_frame
place_swap s x front back a kind = record s {
  frames = set_at s.frames a (some (swap_frame x front back kind));
}

swap_read : Ask → Answers → (front back a : ℕ) → Store × Option ℕ → Option (Store × ℕ × Reached)
unfolding swap_for place_swap blit_fallback
swap_read x w front back a (s, none) = blit_fallback s x front back (some a)
swap_read x w front back a (s, some current_msc) =
    let s' = if w.flips then place_swap s x front back a queue_flip else s in
    swap_for s' x w front back a current_msc

swap_at : Store → Ask → Answers → (front back a : ℕ) → Option (Store × ℕ × Reached)
unfolding swap_read read_msc
swap_at s x w front back a =
    reference_buffer (place_swap s x front back a queue_swap) (some front)
    >>= (λ s'. reference_buffer s' (some back))
    >>= (λ s'. swap_read x w front back a (read_msc s' x w))

unfoldable pub schedule_swap :
    Store → (visible : Bool) → Ask → (front back : ℕ) → Answers → Option (Store × ℕ × Reached)
unfolding swap_at blit_fallback
schedule_swap s visible x front back w =
    let out = blit_fallback s x front back none in
    elim w.place [
      | none ↦ out
      | some a ↦ if visible && w.resources then swap_at s x w front back a else out
    ]
