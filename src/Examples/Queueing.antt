-- ===== src/Examples/Queueing.antt =====
-- Runs of vblank.c: counts of frames, the queue of events, and requests to the kernel.
use mathlib.Core.List.{Perm}
use xserver_xorg_video_loong.Base.{
  ℕ, ◌/◌, ◌≡◌, ◌≢◌, refl, Bool, true, false, none, List, [], ◌∷◌, ◌++◌, arith,
}
use xserver_xorg_video_loong.Vblank.Msc.{
  CrtcMsc, kernel_msc_to_crtc_msc, run_reports, run_reports-counts,
}
use xserver_xorg_video_loong.Vblank.Queue.{Entry, take_seq}
use xserver_xorg_video_loong.Vblank.Events.{
  handled, Events, Call, allocs, sequence, aborts, sequence_handler, set_crtc, step, run,
}
use xserver_xorg_video_loong.Vblank.Events.Conservation.{held, payloads, all_allocated, run-perm}
use xserver_xorg_video_loong.Vblank.Events.Delivery.{sequence_handler_mem}
use xserver_xorg_video_loong.Vblank.Events.Refinement.{Allows, run-Allows}
use xserver_xorg_video_loong.Vblank.Requests.{
  other, ebusy, einval, done, fails, Driver, Target, Round, refused, waiting, queue_vblank,
}
use xserver_xorg_video_loong.Vblank.Requests.Outcomes.{queue_vblank_ends, queue_vblank_refused}

-- A count just below 2^32.
abbrev near_wrap : CrtcMsc
near_wrap = record { msc_prev = 0xffff_fff0; msc_high = 0 }

-- Three 32-bit reports and one of 64 bits, over a wrap and back.
abbrev reports : List (ℕ × Bool)
reports =
    (0xffff_ffff, false)
    ∷ (0x1_0000_0002, false)
    ∷ (0xffff_fffe, false)
    ∷ (0x1_0000_0005, true)
    ∷ []

run_reports-counts_example :
    run_reports near_wrap reports ≡ 0xffff_ffff ∷ 0x1_0000_0002 ∷ 0xffff_fffe ∷ 0x1_0000_0005 ∷ []
run_reports-counts_example =
    run_reports-counts near_wrap 0xffff_fff0 reports (omega arith) (refl, refl) (ground arith)

abbrev entry : ℕ → ℕ → Entry ℕ
entry seq payload = record { seq = seq; scrn = 0; crtc = 1; payload = payload }

-- Two events are queued.
abbrev two_events : Events ℕ
two_events = record {
  queue = record { entries = entry 2 20 ∷ entry 1 10 ∷ []; drm_seq = 3 };
  crtcs = λ i. near_wrap;
  log = [];
}

-- One more comes, one is handled, one is aborted, and a number is not there.
abbrev calls : List (Call ℕ)
calls = allocs true 0 1 30 ∷ sequence 7 1000 1 ∷ aborts 3 ∷ aborts 9 ∷ []

run-perm_example :
    Perm
      (payloads (held (run two_events calls)))
      (all_allocated calls ++ payloads (held two_events))
run-perm_example = run-perm two_events calls

run-Allows_example :
    Allows
      (sequence 7 1000 2)
      (run two_events calls)
      (step (run two_events calls) (sequence 7 1000 2))
run-Allows_example = run-Allows two_events calls (sequence 7 1000 2) (omega arith) (ground arith)

sequence_handler_mem_example : sequence_handler two_events 5 2000 true 1 ≡ record {
  queue = record { entries = entry 2 20 ∷ []; drm_seq = 3 };
  crtcs = set_crtc (λ i. near_wrap) 1 (kernel_msc_to_crtc_msc near_wrap 5 true).0;
  log = handled (entry 1 10) (kernel_msc_to_crtc_msc near_wrap 5 true).1 (2000 / 1000) ∷ [];
}
sequence_handler_mem_example =
    sequence_handler_mem two_events (entry 2 20 ∷ []) (entry 1 10) [] 5 2000 true (ground arith)
      refl

abbrev driver : Driver ℕ
driver = record {
  caps = record { has_queue_sequence = false; tried_queue_sequence = true };
  events = two_events;
  issued = [];
}

abbrev target : Target
target = record {
  crtc = 1;
  pipe = 0;
  flags = record { relative = false; next_on_miss = true };
  msc = 100;
  seq = 2;
  wants_msc = true;
}

-- The kernel is busy once, and an event is handled meanwhile.
abbrev busy_round : Round ℕ
busy_round = record {
  sequence_reply = fails true ebusy;
  vblank_reply = fails true ebusy;
  flushed = sequence 7 1000 1 ∷ [];
}

abbrev good_round : Round ℕ
good_round = record { sequence_reply = fails true einval; vblank_reply = done 100; flushed = [] }

abbrev bad_round : Round ℕ
bad_round = record {
  sequence_reply = fails true einval;
  vblank_reply = fails true other;
  flushed = [];
}

queue_vblank_ends_example : (queue_vblank driver target (busy_round ∷ good_round ∷ [])).1 ≢ waiting
queue_vblank_ends_example = queue_vblank_ends driver target (busy_round ∷ []) good_round refl refl

bad_round_refused : (queue_vblank driver target (busy_round ∷ bad_round ∷ [])).1 ≡ refused
unfolding queue_vblank
bad_round_refused = refl

queue_vblank_refused_example :
    take_seq 2 (queue_vblank driver target (busy_round ∷ bad_round ∷ [])).0.events.queue.entries
    ≡ none
queue_vblank_refused_example =
    queue_vblank_refused driver target (busy_round ∷ bad_round ∷ []) (omega arith) (ground arith)
      bad_round_refused
