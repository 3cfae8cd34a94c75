-- ===== src/Examples/Sinks.antt =====
-- A run of two shared pixmaps on a CRTC, from src/drmmode_display.c and src/driver.c.
use xserver_xorg_video_loong.Base.{
  refl, true, false, none, some, List, [], ◌∷◌, arith, inl, inr, Yields,
}
use xserver_xorg_video_loong.Vblank.Queue.{Entry, take_seq}
use xserver_xorg_video_loong.Sinks.{
  PixmapPriv, EventArgs, PrimeCrtc, Sink, Master, sequence_handler, notify_damage, init_flipping,
  fini_flipping,
}
use xserver_xorg_video_loong.Sinks.Endless.{IsGoing, run-IsGoing}
use xserver_xorg_video_loong.Sinks.Progress.{granted}
use xserver_xorg_video_loong.Sinks.Turns.{IsFlipping}
use xserver_xorg_video_loong.Sinks.Histories.{
  SinkOp, event, damage, start, stop, step, run, Ends, run-IsFlipping,
}

-- The master has something new, or has nothing and takes the request.
abbrev new_frame : Master
new_frame = record { presents = true; requests = none; flip = granted; vblank = granted }

abbrev no_frame : Master
no_frame = record { presents = false; requests = some true; flip = granted; vblank = granted }

abbrev pixmap : PixmapPriv
pixmap = record { flip_seq = 0; wait_for_damage = false; fb_id = 5; has_damage = true }

abbrev crtc : PrimeCrtc
crtc = record {
  prime_pixmap = some 10;
  prime_pixmap_back = some 20;
  enable_flipping = true;
  flipping_active = false;
}

abbrev screen : Sink
screen = record {
  queue = record { entries = []; drm_seq = 1 };
  pixmaps = λ p. pixmap;
  crtcs = λ i. crtc;
}

screen-IsFlipping : IsFlipping 1 screen
screen-IsFlipping = record {
  front = 10;
  back = 20;
  shown = refl;
  next = refl;
  turn = inl (refl, λ p w. ground arith);
}

-- The CRTC goes on, flips, waits for damage to the pixmap 10, gets it, and goes off.
abbrev ops : List SinkOp
ops = start new_frame ∷ event 1 no_frame ∷ damage 10 granted ∷ event 2 new_frame ∷ stop ∷ []

run-IsFlipping_example : Yields (Ends 1) (run 1 screen ops)
unfolding step sequence_handler notify_damage init_flipping fini_flipping take_seq
run-IsFlipping_example =
    run-IsFlipping 1 screen ops screen-IsFlipping
      (inr (λ p. refl), (tt, (inl refl, (tt, (tt, tt)))))

-- A flip is queued.
abbrev queued_flip : Entry EventArgs
queued_flip = record {
  seq = 1;
  scrn = 0;
  crtc = 1;
  payload = record { front_target = 20; back_target = some 10; crtc = 1; flip = true };
}

abbrev flipping_screen : Sink
flipping_screen = record {
  queue = record { entries = queued_flip ∷ []; drm_seq = 2 };
  pixmaps = λ p. record pixmap { flip_seq = 1 };
  crtcs = λ i. record crtc { flipping_active = true };
}

flipping_screen-IsGoing : IsGoing 1 flipping_screen
flipping_screen-IsGoing = record {
  flipping = record {
    front = 10;
    back = 20;
    shown = refl;
    next = refl;
    turn = inr (
      λ p. refl,
      refl,
      queued_flip,
      record {
        alone = refl;
        front = refl;
        back = refl;
        crtc = refl;
        seq = refl;
        numbered = omega arith;
      },
    );
  };
  active = refl;
  moves = λ front' back' shown next. (ground arith, λ empty. absurd cc);
}

-- The kernel refuses the flip.
abbrev refused_flip : Master
refused_flip = record new_frame { flip = record granted { accepted = false } }

run-IsGoing_example : Yields (IsGoing 1) (
    run 1 flipping_screen
      (event 1 no_frame ∷ damage 10 granted ∷ event 2 refused_flip ∷ event 3 new_frame ∷ []))
run-IsGoing_example =
    run-IsGoing 1 flipping_screen
      (event 1 no_frame ∷ damage 10 granted ∷ event 2 refused_flip ∷ event 3 new_frame ∷ [])
      flipping_screen-IsGoing ((refl, refl), (refl, ((refl, refl), ((refl, refl), tt))))
