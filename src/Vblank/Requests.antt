-- ===== src/Vblank/Requests.antt =====
-- Requests to the kernel in vblank.c: ms_get_kernel_ust_msc, ms_queue_vblank and
-- ms_get_crtc_ust_msc. What an ioctl answers is an argument, and the requests made are listed.
pub mod Outcomes
use xserver_xorg_video_loong.Base.{
  ℕ, ◌+◌, ◌*◌, ◌/◌, ◌%◌, ◌^◌, Bool, true, false, not, ◌&&◌, ◌||◌, Option, none, some, List, [], ◌∷◌,
  if◌then◌else◌,
}
use xserver_xorg_video_loong.Vblank.Msc.{CrtcMsc, kernel_msc_to_crtc_msc}
use xserver_xorg_video_loong.Vblank.Events.{Events, Call, abort_seq, set_crtc, run}

pub data Errno : Type 0 where
  enotty einval ebusy other : Errno

-- 0 with a value, or a failure with the return value -1 or another, and errno.
pub data Reply (A : Type 0) : Type 0 where
  done : A → Reply A
  fails : (minus_one : Bool) → Errno → Reply A

-- ENOTTY or EINVAL.
abbrev is_unknown : Errno → Bool
is_unknown enotty = true
is_unknown einval = true
is_unknown _ = false

abbrev is_busy : Errno → Bool
is_busy ebusy = true
is_busy _ = false

-- has_queue_sequence and tried_queue_sequence of modesettingRec.
pub record Caps : Type 0 where
  pub has_queue_sequence : Bool
  pub tried_queue_sequence : Bool

abbrev pub may_use_sequence : Caps → Bool
may_use_sequence c = c.has_queue_sequence || not c.tried_queue_sequence

-- The two bits of ms_queue_flag.
pub record QueueFlag : Type 0 where
  pub relative : Bool
  pub next_on_miss : Bool

-- drmCrtcQueueSequence and drmWaitVBlank, whose field `sequence` is an unsigned int.
pub data Request : Type 0 where
  queue_sequence : QueueFlag → (msc seq : ℕ) → Request
  wait_vblank : (pipe : ℕ) → QueueFlag → (sequence seq : ℕ) → Request

pub record Driver (D : Type 0) : Type 0 where
  pub caps : Caps
  pub events : Events D
  pub issued : List Request

-- The arguments of the call; the last says that msc_queued is no null pointer.
pub record Target : Type 0 where
  pub crtc : ℕ
  pub pipe : ℕ
  pub flags : QueueFlag
  pub msc : ℕ
  pub seq : ℕ
  pub wants_msc : Bool

-- One round of the loop: what the two ioctls answer if they are called, and what runs while
-- ms_flush_drm_events handles the events that have come.
pub record Round (D : Type 0) : Type 0 where
  pub sequence_reply : Reply ℕ
  pub vblank_reply : Reply ℕ
  pub flushed : List (Call D)

-- `waiting` says that the given rounds are used up.
pub data Result : Type 0 where
  queued : Option ℕ → Result
  refused waiting : Result

-- What becomes of one ioctl: an event is queued, the loop goes to `check`, or it goes on to the
-- other ioctl.
pub data Attempt : Type 0 where
  succeeds : Option ℕ → Attempt
  checks : Errno → Attempt
  goes_on : Attempt

module _ {D : Type 0} where
  -- The count of the queued event, if the caller wants it.
  convert : Driver D → Target → ℕ → Bool → Driver D × Attempt
  convert d t value is64bit =
      let (c, msc) = kernel_msc_to_crtc_msc (d.events.crtcs t.crtc) value is64bit in
      let es = record (d.events) { crtcs = set_crtc d.events.crtcs t.crtc c } in
      if t.wants_msc then (record d { events = es }, succeeds (some msc)) else (d, succeeds none)

  after_sequence : Driver D → Target → Reply ℕ → Driver D × Attempt
  unfolding convert
  after_sequence d t (done kernel_queued) =
      let d' = record d {
        caps = record { has_queue_sequence = true; tried_queue_sequence = true };
      } in
      convert d' t kernel_queued true
  after_sequence d t (fails minus_one e) =
      if not minus_one || not (is_unknown e)
      then (
        record d { caps = record { has_queue_sequence = true; tried_queue_sequence = true } },
        checks e,
      )
      else (d, goes_on)

  -- The first half of a round.
  try_sequence : Driver D → Target → Reply ℕ → Driver D × Attempt
  unfolding after_sequence
  try_sequence d t reply =
      let d' = record d {
        caps = record (d.caps) { tried_queue_sequence = true };
        issued = queue_sequence t.flags t.msc t.seq ∷ d.issued;
      } in
      if may_use_sequence d.caps then after_sequence d' t reply else (d, goes_on)

  after_vblank : Driver D → Target → Reply ℕ → Driver D × Attempt
  unfolding convert
  after_vblank d t (done sequence) = convert d t sequence false
  after_vblank d t (fails minus_one e) = (d, checks e)

  -- The second half, which the first half may skip.
  try_vblank : Target → Reply ℕ → Driver D × Attempt → Driver D × Attempt
  unfolding after_vblank
  try_vblank t reply (d, succeeds msc) = (d, succeeds msc)
  try_vblank t reply (d, checks e) = (d, checks e)
  try_vblank t reply (d, goes_on) =
      after_vblank
        (record d { issued = wait_vblank t.pipe t.flags (t.msc % 2 ^ 32) t.seq ∷ d.issued }) t reply

  attempt : Driver D → Target → Round D → Driver D × Attempt
  unfolding try_sequence try_vblank
  attempt d t r = try_vblank t r.vblank_reply (try_sequence d t r.sequence_reply)

  give_up : Driver D → ℕ → Driver D × Result
  give_up d seq = (record d { events = abort_seq d.events seq }, refused)

  -- What ms_flush_drm_events leaves for the next round.
  after_round : Driver D → Target → Round D → Driver D
  unfolding attempt
  after_round d t r = record ((attempt d t r).0) { events = run (attempt d t r).0.events r.flushed }

  unfoldable pub queue_vblank : Driver D → Target → List (Round D) → Driver D × Result
  unfolding attempt give_up after_round
  queue_vblank d t [] = (d, waiting)
  queue_vblank d t (r ∷ rs) =
      let again = queue_vblank (after_round d t r) t rs in
      elim ((attempt d t r).1) [
        | succeeds msc ↦ ((attempt d t r).0, queued msc)
        | checks e ↦ if is_busy e then again else give_up (attempt d t r).0 t.seq
        | goes_on ↦ ((attempt d t r).0, waiting)
      ]

-- The answer of drmCrtcGetSequence has a count and nanoseconds; that of drmWaitVBlank has a count,
-- seconds and microseconds.
unfoldable pub get_kernel_ust_msc : Caps → Reply (ℕ × ℕ) → Reply (ℕ × ℕ × ℕ) → Caps × Option (ℕ × ℕ)
get_kernel_ust_msc c sequence_reply vblank_reply =
    let tried = record c { tried_queue_sequence = true } in
    let known : Caps = record { has_queue_sequence = true; tried_queue_sequence = true } in
    let after : Caps = if may_use_sequence c then tried else c in
    let classic : Caps × Option (ℕ × ℕ) = elim vblank_reply [
      | done (count, sec, usec) ↦ (after, some (count, sec * 1000000 + usec))
      | fails minus_one e ↦ (after, none)
    ] in
    let sequence : Caps × Option (ℕ × ℕ) = elim sequence_reply [
      | done (count, ns) ↦ (known, some (count, ns / 1000))
      | fails minus_one e ↦ if not minus_one || not (is_unknown e) then (known, none) else classic
    ] in
    if may_use_sequence c then sequence else classic

-- None stands for BadMatch; otherwise the result has ust and msc.
unfoldable pub get_crtc_ust_msc :
    Caps → CrtcMsc → Reply (ℕ × ℕ) → Reply (ℕ × ℕ × ℕ) → Caps × CrtcMsc × Option (ℕ × ℕ)
unfolding get_kernel_ust_msc
get_crtc_ust_msc caps crtc sequence_reply vblank_reply =
    let (caps', r) = get_kernel_ust_msc caps sequence_reply vblank_reply in
    elim r [
      | none ↦ (caps', crtc, none)
      | some (kernel_msc, ust) ↦
          let (crtc', msc) = kernel_msc_to_crtc_msc crtc kernel_msc caps'.has_queue_sequence in
          (caps', crtc', some (ust, msc))
    ]
