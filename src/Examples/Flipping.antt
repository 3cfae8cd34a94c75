-- ===== src/Examples/Flipping.antt =====
-- Runs of pageflip.c and of the flips of present.c.
use xserver_xorg_video_loong.Base.{
  ℕ, ◌≡◌, refl, true, false, none, some, List, [], ◌∷◌, ◌++◌, arith, ◌↔◌, ◌==◌, if◌then◌else◌, All,
}
use xserver_xorg_video_loong.Vblank.Queue.{next_seq}
use xserver_xorg_video_loong.Formats.{
  CrtcFormats, xrgb8888, argb8888, is_format_supported, get_opaque_format,
}
use xserver_xorg_video_loong.Formats.Support.{Supports, is_format_supported-Supports}
use xserver_xorg_video_loong.Pageflip.{
  present, FlipData, crtc_flip, present_vblank, World, rm_fb, destroy_bo, KernelEvent,
  handle_events,
}
use xserver_xorg_video_loong.Pageflip.Counting.{IsCounted, no_extra, Ends, handle_events-Ends}
use xserver_xorg_video_loong.Pageflip.Completion.{
  Completion, complete, reference_time, reports, complete-reports,
}
use xserver_xorg_video_loong.Pageflip.Queueing.{
  flips, flushes, rejected, CrtcPlan, FlipRequest, do_pageflip,
}
use xserver_xorg_video_loong.Pageflip.Queueing.Termination.{Returns, do_pageflip-Returns}
use xserver_xorg_video_loong.Pageflip.Queueing.Partial.{do_pageflip_partial}
use xserver_xorg_video_loong.Present.{FlipState, check_flip}
use xserver_xorg_video_loong.Present.Conditions.{IsReady, BufferFits, check_flip_iff}

-- No flip is queued, and the framebuffer 40 is shown.
abbrev idle : World
idle = record {
  queue = record { entries = []; drm_seq = 1 };
  crtcs = λ i. record { msc_prev = 0; msc_high = 0 };
  flips = λ p. none;
  fb_id = 40;
  flip_bo_import_failed = false;
  present_flipping = false;
  dri2_flipping = false;
  log = [];
}

abbrev good_plan : ℕ → CrtcPlan
good_plan i = record {
  crtc = i;
  on = true;
  vblank_pipe = i;
  got_flip = true;
  got_queue = true;
  attempts = flips ∷ [];
}

-- No memory for the flip of this CRTC.
abbrev poor_plan : CrtcPlan
poor_plan = record (good_plan 1) { got_flip = false }

-- The kernel is busy; the flush completes the flip of the first CRTC, and then nothing comes.
abbrev busy_plan : CrtcPlan
busy_plan = record (good_plan 1) {
  attempts =
      flushes (record { frame = 9; ns = 5000; is64bit = true; seq = 1 } ∷ []) true
      ∷ flushes [] false
      ∷ [];
}

abbrev flip_request : List CrtcPlan → FlipRequest
flip_request plans = record {
  scrn = 0;
  client = present 77 false;
  ref_pipe = some 0;
  is_screen_pixmap = false;
  has_gbm = true;
  flipdata = some 3;
  imported = some 41;
  plans = plans;
}

do_pageflip-Returns_example :
    Returns (do_pageflip idle (flip_request (good_plan 0 ∷ busy_plan ∷ [])))
do_pageflip-Returns_example =
    do_pageflip-Returns idle (flip_request (good_plan 0 ∷ busy_plan ∷ [])) (λ p h. refl) (λ p. refl)
      (tt, (tt, tt))

do_pageflip_partial_example :
    (w' : World) × (do_pageflip idle (flip_request (good_plan 0 ∷ poor_plan ∷ []))
      ≡ some (w', rejected))
    × (w'.queue.entries
        ≡ record { seq = next_seq 1; scrn = 0; crtc = 0; payload = crtc_flip true 3 } ∷ [])
    × (w'.flips 3
        ≡ some (record {
          client = present 77 false;
          flip_count = 1;
          fe_msc = 0;
          fe_usec = 0;
          old_fb_id = 40;
        }))
    × (w'.log ≡ destroy_bo ∷ [])
    × (w'.fb_id ≡ 41)
do_pageflip_partial_example =
    do_pageflip_partial idle (flip_request (good_plan 0 ∷ poor_plan ∷ [])) 3 41 (good_plan 0)
      poor_plan [] refl refl refl refl
      (record { on = refl; got_flip = refl; got_queue = refl; attempts = refl })
      (record { on = refl; got_flip = refl })

-- A flip of two CRTCs is under way, and a vblank event of the client 5 waits.
abbrev two_flips : FlipData
two_flips = record {
  client = present 77 false;
  flip_count = 2;
  fe_msc = 0;
  fe_usec = 0;
  old_fb_id = 40;
}

abbrev flipping : World
flipping = record idle {
  queue = record {
    entries =
        record { seq = 3; scrn = 0; crtc = 0; payload = crtc_flip true 3 }
        ∷ record { seq = 2; scrn = 0; crtc = 0; payload = present_vblank 5 }
        ∷ record { seq = 1; scrn = 0; crtc = 1; payload = crtc_flip false 3 }
        ∷ [];
    drm_seq = 4;
  };
  flips = λ p. if p == 3 then some two_flips else none;
  fb_id = 41;
}

flipping-IsCounted : IsCounted no_extra flipping
flipping-IsCounted p = ground arith

abbrev kernel_events : List KernelEvent
kernel_events =
    record { frame = 9; ns = 5000; is64bit = true; seq = 1 }
    ∷ record { frame = 9; ns = 6000; is64bit = true; seq = 3 }
    ∷ record { frame = 9; ns = 6000; is64bit = true; seq = 8 }
    ∷ []

handle_events-Ends_example : Ends no_extra (handle_events flipping kernel_events)
handle_events-Ends_example = handle_events-Ends no_extra flipping kernel_events flipping-IsCounted

abbrev first_completion : Completion
first_completion = record { on_reference_crtc = true; msc = 9; ust = 5 }

abbrev second_completion : Completion
second_completion = record { on_reference_crtc = false; msc = 12; ust = 6 }

complete-reports_example :
    (w' : World) × (complete 3 (first_completion ∷ second_completion ∷ []) flipping ≡ some w')
    × (w'.flips 3 ≡ none)
    × (w'.log
        ≡ rm_fb 40
            ∷ reports
                (present 77 false)
                (reference_time (0, 0) (first_completion ∷ second_completion ∷ []))
          ++ [])
complete-reports_example =
    complete-reports 3 first_completion (second_completion ∷ []) flipping two_flips refl refl

-- One CRTC lists XRGB8888 with two modifiers; the other is off.
abbrev formats : List CrtcFormats
formats =
    record { enabled = true; formats = record { format = xrgb8888; modifiers = 0 ∷ 5 ∷ [] } ∷ [] }
    ∷ record { enabled = false; formats = record { format = 1; modifiers = [] } ∷ [] }
    ∷ []

is_format_supported-Supports_example :
    (is_format_supported formats argb8888 5 ≡ true)
    ↔ All (Supports (get_opaque_format argb8888) 5) formats
is_format_supported-Supports_example = is_format_supported-Supports formats argb8888 5

abbrev ready : FlipState
ready = record {
  pageflip = true;
  dri2_flipping = false;
  vt_sema = true;
  sprites_visible = 0;
  atomic_modeset = false;
  front_pitch = 4096;
  pixmap_pitch = 4096;
  crtcs = record { rotated = false; on = true } ∷ [];
  buffer = some (argb8888, 5);
  crtc_formats = formats;
}

check_flip_iff_example :
    ((check_flip ready).0 ≡ true)
    ↔ ((ready.sprites_visible ≡ 0) × IsReady ready × BufferFits ready ready.buffer)
check_flip_iff_example = check_flip_iff ready

ready_flips : (check_flip ready).0 ≡ true
unfolding check_flip
ready_flips = refl
