-- ===== src/Examples/Screens.antt =====
-- Runs of the search for the CRTC that shows a drawable, and of the counts of loongson_entity.c.
use xserver_xorg_video_loong.Base.{
  ℕ, ◌≡◌, refl, true, false, none, some, List, [], ◌∷◌, arith, pos, ◌+ℤ◌, short,
}
use xserver_xorg_video_loong.Entity.{zeroed}
use xserver_xorg_video_loong.Entity.Sharing.{
  HeadStep, starts, ends, IsShared, left, last_ends, run_heads, run_heads_closes,
}
use xserver_xorg_video_loong.Vblank.Box.{
  Box, box_intersect, box_area, Crtc, crtc_on, crtc_box, RandrCrtc, randr_crtc_box,
}
use xserver_xorg_video_loong.Vblank.Covering.{
  scan, ScreenInfo, screen, nil, covering, Drawable, dri2_crtc_covering_drawable,
  randr_crtc_covering_drawable,
}
use xserver_xorg_video_loong.Vblank.Covering.Choice.{IsChoice, covering-IsChoice}

-- Two monitors side by side.
abbrev crtc_at : ℕ → Crtc
crtc_at x = record {
  enabled = true;
  dpms_mode = 0;
  x = pos x;
  y = pos 0;
  width = 1920;
  height = 1080;
}

abbrev two_crtcs : List Crtc
two_crtcs = crtc_at 0 ∷ crtc_at 1920 ∷ []

abbrev desk : ScreenInfo Crtc
desk = record { crtcs = some two_crtcs; is_gpu = false; priv = none; owner = λ rr. crtc_at 0 }

-- Most of the window is on the second monitor.
abbrev window : Drawable
window = record { x = pos 1900; y = pos 100; width = 400; height = 300 }

abbrev window_box : Box
window_box = record { x1 = pos 1900; y1 = pos 100; x2 = pos 2300; y2 = pos 400 }

covering-IsChoice_example :
    IsChoice crtc_on
      (λ c. c.enabled)
      crtc_box
      window_box
      desk
      nil
      two_crtcs
      true
      (covering crtc_on (λ c. c.enabled) crtc_box window_box (screen desk nil) true)
covering-IsChoice_example =
    covering-IsChoice crtc_on (λ c. c.enabled) crtc_box window_box desk nil two_crtcs true refl

abbrev randr_at : ℕ → RandrCrtc
randr_at x = record {
  mode = some (record { width = 1920; height = 1080 });
  rotation = 1;
  x = pos x;
  y = pos 0;
  dev_private = crtc_at x;
}

abbrev randr_desk : ScreenInfo RandrCrtc
randr_desk = record {
  crtcs = some (randr_at 0 ∷ randr_at 1920 ∷ []);
  is_gpu = false;
  priv = none;
  owner = λ rr. randr_at 0;
}

shown_by_dri2 : dri2_crtc_covering_drawable (screen desk nil) window ≡ some (crtc_at 1920)
unfolding dri2_crtc_covering_drawable scan crtc_on box_area box_intersect crtc_box short ◌+ℤ◌
shown_by_dri2 = refl

shown_by_randr : randr_crtc_covering_drawable (screen randr_desk nil) window ≡ some (randr_at 1920)
unfolding randr_crtc_covering_drawable scan crtc_on box_area box_intersect randr_crtc_box short ◌+ℤ◌
shown_by_randr = refl

-- Two screens start and end, and one starts again.
abbrev heads : List HeadStep
heads = starts ∷ starts ∷ ends ∷ ends ∷ starts ∷ []

run_heads_closes_example :
    ((run_heads 7 zeroed heads).1 ≡ last_ends 0 heads)
    × IsShared (run_heads 7 zeroed heads).0 7 (left 0 heads)
run_heads_closes_example = run_heads_closes 7 zeroed 0 heads (refl, refl) (ground arith)
