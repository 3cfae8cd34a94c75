-- ===== src/Present.antt =====
-- present.c: the conditions for a flip, ms_present_flip and ms_present_unflip, vblank events of the
-- Present extension and their abort. The handlers of its events are in Pageflip.
pub mod Conditions
pub mod Failures
use xserver_xorg_video_loong.Base.{
  ℕ, zero, suc, ◌+◌, ◌<◌, Bool, true, false, not, ◌&&◌, ◌||◌, Option, none, some, List, [], ◌∷◌,
  ◌==◌, if◌then◌else◌, ltb, ◌>>=◌,
}
use xserver_xorg_video_loong.Vblank.Queue.{alloc}
use xserver_xorg_video_loong.Vblank.Msc.{CrtcMsc}
use xserver_xorg_video_loong.Vblank.Covering.{Screen, Drawable, randr_crtc_covering_drawable}
use xserver_xorg_video_loong.Vblank.Box.{RandrCrtc}
use xserver_xorg_video_loong.Vblank.Requests.{
  Reply, Caps, Driver, Target, Round, Result, queued, refused, queue_vblank, get_crtc_ust_msc,
}
use xserver_xorg_video_loong.Vblank.Requests
use xserver_xorg_video_loong.Formats.{CrtcFormats, is_format_supported}
use xserver_xorg_video_loong.Pageflip.{
  present, Payload, crtc_flip, present_vblank, event_notify, rm_fb, calloc_event, set_mode_major,
  need_modeset, World, abort_match,
}
use xserver_xorg_video_loong.Pageflip.Queueing.{
  Verdict, accepted, rejected, waiting, FlipRequest, do_pageflip,
}

-- ms_present_get_crtc, with the drawable of the window.
unfoldable pub get_crtc : Screen RandrCrtc → Drawable → Option RandrCrtc
unfolding randr_crtc_covering_drawable
get_crtc s window = randr_crtc_covering_drawable s window

-- ms_present_get_ust_msc.
unfoldable pub get_ust_msc :
    Caps → CrtcMsc → Reply (ℕ × ℕ) → Reply (ℕ × ℕ × ℕ) → Caps × CrtcMsc × Option (ℕ × ℕ)
unfolding get_crtc_ust_msc
get_ust_msc caps crtc sequence_reply vblank_reply =
    get_crtc_ust_msc caps crtc sequence_reply vblank_reply

-- What the checks read of one CRTC: whether it has a buffer for rotation, and ms_crtc_on.
pub record CrtcState : Type 0 where
  pub rotated : Bool
  pub on : Bool

-- What the checks read of the screen and of the pixmap. `buffer` has the format and modifier of the
-- GBM buffer, if the pixmap has one.
pub record FlipState : Type 0 where
  pub pageflip : Bool
  pub dri2_flipping : Bool
  pub vt_sema : Bool
  pub sprites_visible : ℕ
  pub atomic_modeset : Bool
  pub front_pitch : ℕ
  pub pixmap_pitch : ℕ
  pub crtcs : List CrtcState
  pub buffer : Option (ℕ × ℕ)
  pub crtc_formats : List CrtcFormats

-- The loop over the CRTCs: none if one is rotated, else how many are on.
unfoldable pub count_on : List CrtcState → ℕ → Option ℕ
count_on [] n = some n
count_on (c ∷ cs) n =
    let rest = count_on cs (if c.on then n + 1 else n) in if c.rotated then none else rest

buffer_supported : FlipState → Bool
unfolding is_format_supported
buffer_supported s = elim s.buffer [
  | none ↦ true
  | some (format, modifier) ↦ is_format_supported s.crtc_formats format modifier
]

-- The result, and whether the reason PRESENT_FLIP_REASON_BUFFER_FORMAT is given.
unfoldable pub check_unflip : FlipState → Bool × Bool
unfolding count_on buffer_supported
check_unflip s =
    if not s.pageflip || s.dri2_flipping || not s.vt_sema
    then (false, false)
    else elim (count_on s.crtcs 0) [
      | none ↦ (false, false)
      | some n ↦
          if n == 0 || (not s.atomic_modeset && not (s.pixmap_pitch == s.front_pitch))
          then (false, false)
          else if buffer_supported s
          then (true, false)
          else (false, true)
    ]

unfoldable pub check_flip : FlipState → Bool × Bool
unfolding check_unflip
check_flip s = if ltb 0 s.sprites_visible then (false, false) else check_unflip s

-- The event of the call; `got` says whether calloc gave memory.
abbrev with_event : World → (event_id : ℕ) → (unflip : Bool) → World
with_event w event_id unflip = record w { log = calloc_event (present event_id unflip) ∷ w.log }

mark_flipping : World × Verdict → World × Verdict
mark_flipping (w, accepted) = (record w { present_flipping = true }, accepted)
mark_flipping (w, rejected) = (w, rejected)
mark_flipping (w, waiting) = (w, waiting)

run_flip : World → (event_id : ℕ) → FlipRequest → Option (World × Verdict)
unfolding do_pageflip mark_flipping
run_flip w event_id r = do
  result ← do_pageflip (with_event w event_id false) (record r { client = present event_id false })
  some (mark_flipping result)

-- ms_present_flip; the reference pipe of the request is the pipe of its CRTC.
unfoldable pub present_flip :
    World → FlipState → (got : Bool) → (event_id : ℕ) → FlipRequest → Option (World × Verdict)
unfolding check_flip run_flip
present_flip w s got event_id r =
    if (check_flip s).0 && got then run_flip w event_id r else some (w, rejected)

-- A CRTC as the fallback of ms_present_unflip reads it.
pub record UnflipCrtc : Type 0 where
  pub crtc : ℕ
  pub enabled : Bool
  pub dpms_on : Bool

-- The stale framebuffer goes with the first enabled CRTC.
drop_fb : World → World
drop_fb w = if w.fb_id == 0 then w else record w { fb_id = 0; log = rm_fb w.fb_id ∷ w.log }

restore_crtc : World → UnflipCrtc → World
unfolding drop_fb
restore_crtc w c =
    let v = drop_fb w in
    if c.enabled
    then record v {
      log = (if c.dpms_on then set_mode_major c.crtc else need_modeset c.crtc) ∷ v.log;
    }
    else w

unfoldable pub restore_crtcs : World → List UnflipCrtc → World
unfolding restore_crtc
restore_crtcs w [] = w
restore_crtcs w (c ∷ cs) = restore_crtcs (restore_crtc w c) cs

-- The mode is set by hand, and the client is told at once.
unfoldable pub unflip_fallback : World → (event_id : ℕ) → List UnflipCrtc → World
unfolding restore_crtcs
unflip_fallback w event_id cs =
    let v = restore_crtcs w cs in
    record v { present_flipping = false; log = event_notify event_id 0 0 ∷ v.log }

after_unflip : (event_id : ℕ) → List UnflipCrtc → World × Verdict → World × Verdict
unfolding unflip_fallback
after_unflip event_id cs (w, rejected) = (unflip_fallback w event_id cs, rejected)
after_unflip event_id cs (w, accepted) = (w, accepted)
after_unflip event_id cs (w, waiting) = (w, waiting)

-- The request flips to the screen pixmap, with no reference CRTC.
unflip_request : FlipRequest → (event_id : ℕ) → FlipRequest
unflip_request r event_id = record r {
  client = present event_id true;
  ref_pipe = none;
  is_screen_pixmap = true;
}

run_unflip : World → (event_id : ℕ) → FlipRequest → List UnflipCrtc → Option (World × Verdict)
unfolding do_pageflip after_unflip unflip_request
run_unflip w event_id r cs = do
  result ← do_pageflip (with_event w event_id true) (unflip_request r event_id)
  some (after_unflip event_id cs result)

-- ms_present_unflip; the verdict says which way it took.
unfoldable pub present_unflip :
    World
    → FlipState
    → (got : Bool) → (event_id : ℕ) → FlipRequest
    → List UnflipCrtc
    → Option (World × Verdict)
unfolding check_unflip run_unflip unflip_fallback
present_unflip w s got event_id r cs =
    if got
    then if (check_unflip s).0
      then run_unflip w event_id r cs
      else some (unflip_fallback (with_event w event_id true) event_id cs, rejected)
    else some (w, rejected)

-- Success, BadAlloc, or no answer yet.
pub data Status : Type 0 where
  success bad_alloc pending : Status

status_of : Result → Status
status_of (queued msc) = success
status_of refused = bad_alloc
status_of Result.waiting = pending

-- ms_present_queue_vblank: the entry, and the request for the event at an absolute count.
unfoldable pub queue_vblank_event :
    Driver Payload
    → (got_event got_queue : Bool) → (scrn crtc pipe event_id msc : ℕ) → List (Round Payload)
    → Driver Payload × Status
unfolding queue_vblank status_of
queue_vblank_event d got_event got_queue scrn crtc pipe event_id msc rounds =
    let (q, seq) = alloc d.events.queue got_queue scrn crtc (present_vblank event_id) in
    let asked = record d { events = record (d.events) { queue = q } } in
    let target : Target = record {
      crtc = crtc;
      pipe = pipe;
      flags = record { relative = false; next_on_miss = false };
      msc = msc;
      seq = seq;
      wants_msc = false;
    } in
    let (d', result) = queue_vblank asked target rounds in
    if got_event && got_queue then (d', status_of result) else (d, bad_alloc)

-- ms_present_event_match reads the first eight bytes of the payload as event_id, whatever the
-- payload is. A struct ms_crtc_pageflip begins with the `int` on_reference_crtc and, on a 64-bit
-- machine, four bytes that calloc has cleared; the driver's machines are little-endian.
unfoldable pub event_match : (event_id : ℕ) → Payload → Bool
event_match event_id (present_vblank id) = event_id == id
event_match event_id (crtc_flip on_reference_crtc p) =
    event_id == (if on_reference_crtc then 1 else 0)

-- ms_present_abort_vblank.
unfoldable pub abort_vblank : World → (event_id : ℕ) → Option World
unfolding abort_match event_match
abort_vblank w event_id = abort_match w (event_match event_id)

-- ms_present_screen_init: `cap` is what drmGetCap answers; the result is whether
-- PresentCapabilityAsync is offered.
unfoldable pub offers_async : (before : Bool) → (cap : Option ℕ) → Bool
offers_async before none = before
offers_async before (some value) = before || value == 1
