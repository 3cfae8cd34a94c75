-- ===== src/Examples/Frames.antt =====
-- Runs of dri2.c.
use xserver_xorg_video_loong.Base.{
  Option, ap, ◌-◌, inr, ℕ, ◌≡◌, refl, true, false, none, some, [], ◌∷◌, ◌==◌, if◌then◌else◌, arith,
}
use xserver_xorg_video_loong.Vblank.Requests.{other, done, fails, Driver}
use xserver_xorg_video_loong.Dri2.{
  set_at, FrameEvent, queue_swap, Buffer, Store, frame_event_handler, client_gone,
}
use xserver_xorg_video_loong.Dri2.Counts.{
  wait_count, swap_count, IsNextCount, wait_count-IsNextCount,
}
use xserver_xorg_video_loong.Dri2.Release.{
  IsFreed, LogSpares, frame_event_handler-IsFreed, client_gone-handler,
}
use xserver_xorg_video_loong.Dri2.Creation.{
  back_left, Refs, CreateAnswers, PixmapServer, IsCounting, create_buffer2, IsBalancedBy,
  create_buffer2-IsBalancedBy,
}
use xserver_xorg_video_loong.Dri2.Schedule.{Ask, Answers, flip_delay, swap_request, schedule_swap}
use xserver_xorg_video_loong.Dri2.Schedule.Timing.{IsOnTime, swap_request-IsOnTime}
use xserver_xorg_video_loong.Dri2.Schedule.Refusal.{schedule_swap_refused}

wait_count-IsNextCount_example :
    IsNextCount 1003 4 1 (wait_count 1003 4 1) × (swap_count 1003 4 1 ≡ wait_count 1003 4 1)
wait_count-IsNextCount_example = wait_count-IsNextCount 1003 4 1 (omega arith) (omega arith)

abbrev driver : Driver ℕ
driver = record {
  caps = record { has_queue_sequence = true; tried_queue_sequence = true };
  events = record {
    queue = record { entries = []; drm_seq = 1 };
    crtcs = λ i. record { msc_prev = 0; msc_high = 0 };
    log = [];
  };
  issued = [];
}

abbrev buffer : ℕ → Buffer
buffer pixmap = record { refcnt = 1; pixmap = pixmap }

abbrev swap_event : FrameEvent
swap_event = record {
  kind = queue_swap;
  client = some 6;
  drawable = some 70;
  front = some 1;
  back = some 2;
  frame = 0;
}

-- A swap waits, and holds the last reference to each buffer.
abbrev waiting_swap : Store
waiting_swap = record {
  frames = λ a. if a == 5 then some swap_event else none;
  buffers = λ b. if b == 1 then some (buffer 11) else if b == 2 then some (buffer 12) else none;
  driver = driver;
  log = [];
}

frame_event_handler-IsFreed_example :
    IsFreed (frame_event_handler waiting_swap 5 9 1000 false) 5 1 2 (buffer 11) (buffer 12)
frame_event_handler-IsFreed_example =
    frame_event_handler-IsFreed waiting_swap 5 1 2 (buffer 11) (buffer 12) 9 1000 false (record {
      event = swap_event;
      placed = refl;
      front = refl;
      back = refl;
      apart = refl;
      front_there = refl;
      back_there = refl;
    })

client_gone-handler_example :
    LogSpares 6 (frame_event_handler (client_gone waiting_swap 6) 5 9 1000 false)
client_gone-handler_example = client_gone-handler 6 waiting_swap 5 9 1000 false tt

-- No frame event is there yet.
abbrev calm : Store
calm = record waiting_swap { frames = λ a. none }

abbrev ask : Ask
ask = record {
  client = 6;
  drawable = 70;
  scrn = 0;
  crtc = 1;
  pipe = 1;
  target_msc = 0;
  divisor = 4;
  remainder = 1;
}

swap_request-IsOnTime_example : IsOnTime ask 1003 (flip_delay true) (swap_request ask true 1003)
swap_request-IsOnTime_example =
    swap_request-IsOnTime ask true 1003 (inr (omega arith)) (omega arith)

-- The kernel refuses the request.
abbrev refusal : Answers
refusal = record {
  place = some 5;
  resources = true;
  sequence_reply = done (1003, 1000);
  vblank_reply = done (1003, 0, 1);
  garbage = 0;
  flips = false;
  got_queue = true;
  rounds =
      record { sequence_reply = fails true other; vblank_reply = fails true other; flushed = [] }
      ∷ [];
  later = λ a. false;
}

schedule_swap_refused_example : schedule_swap calm true ask 1 2 refusal ≡ none
schedule_swap_refused_example =
    schedule_swap_refused calm ask refusal 1 2 5 (refl, refl, refl, (refl, refl)) refl refl

-- A server with room for one new pixmap, which is 5.
abbrev server : PixmapServer
server = record {
  create_pixmap = λ r. if r 5 == 0 then some (set_at r 5 1, 5) else none;
  destroy_pixmap = λ r p. set_at r p (r p - 1);
}

abbrev at_pixmap : ℕ → Option (Refs × ℕ) → ℕ
at_pixmap q none = 0
at_pixmap q (some (r, p)) = r q

server-IsCounting : IsCounting server
server-IsCounting = record {
  created = λ r r' p q h. ground (arith, h, ap (λ o. at_pixmap q o) h);
  destroyed = λ r p q. refl;
}

-- A back buffer is asked for, and its pixmap gets no name.
abbrev nameless : CreateAnswers
nameless = record {
  got_buffer = true;
  got_private = true;
  drawable_pixmap = some 4;
  bits_per_pixel = 32;
  named = none;
}

abbrev one_window : Refs
one_window p = if p == 4 then 1 else 0

create_buffer2-IsBalancedBy_example :
    IsBalancedBy server one_window (create_buffer2 server one_window back_left 0 nameless)
create_buffer2-IsBalancedBy_example =
    create_buffer2-IsBalancedBy server one_window back_left 0 nameless server-IsCounting
