-- ===== src/Examples/Frontbuffers.antt =====
-- Runs of buffer objects: a screen that is resized, a rotated CRTC, and a cursor without memory.
use xserver_xorg_video_loong.Base.{
  ◌≡◌, refl, Bool, true, false, none, some, [], ◌==◌, if◌then◌else◌, arith, Yields,
}
use xserver_xorg_video_loong.Buffers.{
  DumbBo, Store, CreateDumb, Bo, CreateBo, create_bo, bo_get_pitch,
}
use xserver_xorg_video_loong.Buffers.Creation.{IsFresh}
use xserver_xorg_video_loong.Buffers.Resize.{Screen, Resizing, xf86crtc_resize}
use xserver_xorg_video_loong.Buffers.Resize.Rollback.{
  CanResize, IsResized, xf86crtc_resize-IsResized,
}
use xserver_xorg_video_loong.Buffers.Front.{Rotated, no_bo}

abbrev object : DumbBo
object = record { handle = 1; size = 3145728; pitch = 4096; ptr = some 900 }

-- One dumb object, at the address 10.
abbrev store : Store
store = record {
  heap = λ p. if p == 10 then some object else none;
  handles = λ h. h == 1;
  gbms = λ g. false;
}

abbrev dumb_answers : CreateDumb
dumb_answers = record {
  calloc = some 20;
  created = some (record { handle = 2; size = 7680000; pitch = 6400; ptr = none });
}

abbrev create_answers : CreateBo
create_answers = record {
  glamor = false;
  modifiers = [];
  with_modifiers = none;
  plain = none;
  dumb = dumb_answers;
}

answers-IsFresh : IsFresh store create_answers
answers-IsFresh = record {
  address = λ p h. ground arith;
  handle = λ o h. ground arith;
  with_modifiers = λ g h. refl;
  plain = λ g h. refl;
}

abbrev front : Bo
front = record { width = 1024; height = 768; dumb = some 10; gbm = none; used_modifiers = false }

abbrev screen : Screen
screen = record {
  store = store;
  front_bo = front;
  fb_id = 50;
  virtual_x = 1024;
  virtual_y = 768;
  display_width = 1024;
  shadow_fb = none;
  shadow_fb2 = none;
  removed = [];
  headers = [];
}

-- The new front buffer cannot be mapped.
abbrev resizing : Resizing
resizing = record {
  cpp = 4;
  kcpp = 4;
  has_gbm = false;
  create = create_answers;
  gbm_stride = λ g. 0;
  mapped = none;
  shadow_enable = false;
  shadow = none;
  shadow_enable2 = false;
  shadow2 = none;
  handled = true;
  shown = 51;
  new_destroyed = true;
  old_destroyed = true;
}

screen-CanResize : CanResize screen resizing
unfolding bo_get_pitch
screen-CanResize = record {
  ready = (refl, (10, refl));
  pitch = 4096;
  old_pitch = refl;
  width = refl;
  fresh = answers-IsFresh;
  device = refl;
  destroyed = refl;
}

xf86crtc_resize-IsResized_example :
    Yields (IsResized screen resizing 1600 1200) (xf86crtc_resize screen resizing 1600 1200)
xf86crtc_resize-IsResized_example =
    xf86crtc_resize-IsResized screen resizing 1600 1200 screen-CanResize

abbrev rotated : Rotated
rotated = record { store = store; rotate_bo = no_bo; rotate_fb_id = 0 }

abbrev made_front : Store × Bo × Bool
made_front = create_bo store no_bo 1600 1200 create_answers

made_front_ok : create_bo store no_bo 1600 1200 create_answers ≡ (made_front.0, made_front.1, true)
unfolding create_bo
made_front_ok = refl

made_front_pitch : bo_get_pitch made_front.0 (λ g. 0) made_front.1 ≡ some 6400
unfolding create_bo bo_get_pitch
made_front_pitch = refl
