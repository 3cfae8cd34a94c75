-- ===== src/Buffers/Resize.antt =====
-- drmmode_xf86crtc_resize of src/drmmode_display.c. The loop that sets the modes of the enabled CRTCs
-- (Modeset/Major) leaves a frame buffer for the screen, which is an argument here; the calls of
-- ModifyPixmapHeader for the screen pixmap are logged, and the clearing of it is the server's.
pub mod Rollback
use xserver_xorg_video_loong.Base.{
  ℕ, ◌*◌, ◌/◌, Bool, true, false, not, ◌&&◌, Option, none, some, List, [], ◌∷◌, ◌==◌, if◌then◌else◌,
  ◌>>=◌, is_some,
}
use xserver_xorg_video_loong.Buffers.{
  Store, Bo, CreateBo, bo_destroy, bo_get_pitch, bo_map, create_bo,
}

-- A call of ModifyPixmapHeader for the screen pixmap.
pub record Header : Type 0 where
  pub width : ℕ
  pub height : ℕ
  pub stride : ℕ
  pub pixels : Option ℕ

-- The screen: its buffers, its front buffer object with its frame buffer, the sizes, the shadow frame
-- buffers, the frame buffers that were removed, and the headers of the pixmap, both newest first.
pub record Screen : Type 0 where
  pub store : Store
  pub front_bo : Bo
  pub fb_id : ℕ
  pub virtual_x : ℕ
  pub virtual_y : ℕ
  pub display_width : ℕ
  pub shadow_fb : Option ℕ
  pub shadow_fb2 : Option ℕ
  pub removed : List ℕ
  pub headers : List Header

-- What the function reads and the answers that it gets: cpp and kcpp, whether there is a gbm device, the
-- strides of gbm, the mapping of the front buffer, the shadow memory (where it is enabled), whether
-- the screen pixmap takes the new buffer, the frame buffer that the modes leave, and whether the
-- buffer objects can be destroyed.
pub record Resizing : Type 0 where
  pub cpp : ℕ
  pub kcpp : ℕ
  pub has_gbm : Bool
  pub create : CreateBo
  pub gbm_stride : ℕ → ℕ
  pub mapped : Option ℕ
  pub shadow_enable : Bool
  pub shadow : Option ℕ
  pub shadow_enable2 : Bool
  pub shadow2 : Option ℕ
  pub handled : Bool
  pub shown : ℕ
  pub new_destroyed : Bool
  pub old_destroyed : Bool

-- The screen with the new front buffer and its new pixels; the Bool is false where the function goes
-- to fail.
unfoldable pub map_front : Screen → Resizing → Option (Screen × Option ℕ × Bool)
unfolding bo_map
map_front s r =
    if r.has_gbm
    then some (s, none, true)
    else (bo_map s.store s.front_bo r.mapped >>= λ (t, pixels).
        some (record s { store = t }, pixels, is_some pixels))

-- The shadows and the header of the screen pixmap, up to the question whether glamor takes the pixmap.
unfoldable pub take_shadows : Resizing → Screen × Option ℕ × Bool → Screen × Bool
take_shadows r (s, pixels, false) = (s, false)
take_shadows r (s, pixels, true) =
    if r.shadow_enable && not (is_some r.shadow) then (s, false) else (
      record s {
        shadow_fb = if r.shadow_enable then r.shadow else s.shadow_fb;
        shadow_fb2 = if r.shadow_enable2 then r.shadow2 else s.shadow_fb2;
        headers =
            record {
              width = s.virtual_x;
              height = s.virtual_y;
              stride = s.display_width * r.cpp;
              pixels = if r.shadow_enable then r.shadow else pixels;
            }
            ∷ s.headers;
      },
      r.handled,
    )

-- The old buffers go if there was a frame buffer.
unfoldable pub finish : (old : Screen) → Resizing → Screen → Option (Screen × Bool)
unfolding bo_destroy
finish old r s =
    let s = record s { fb_id = r.shown } in
    if old.fb_id == 0
    then some (s, true)
    else (bo_destroy s.store old.front_bo r.old_destroyed >>= λ (t, bo).
        some (record s { store = t; removed = old.fb_id ∷ s.removed }, true))

-- The label fail.
unfoldable pub fail : (old : Screen) → Resizing → (old_pitch : ℕ) → Screen → Option (Screen × Bool)
unfolding bo_destroy
fail old r old_pitch s = bo_destroy s.store s.front_bo r.new_destroyed >>= λ (t, bo). some (
  record s {
    store = t;
    front_bo = old.front_bo;
    virtual_x = old.virtual_x;
    virtual_y = old.virtual_y;
    display_width = old_pitch / r.kcpp;
    fb_id = old.fb_id;
  },
  false,
)

unfoldable pub end_resize :
    (old : Screen) → Resizing → (old_pitch : ℕ) → Screen × Bool → Option (Screen × Bool)
unfolding finish fail
end_resize old r old_pitch (s, true) = finish old r s
end_resize old r old_pitch (s, false) = fail old r old_pitch s

-- The sizes of the new front buffer, its mapping and the shadows.
unfoldable pub use_front : Screen → Resizing → (width height : ℕ) → Option (Screen × Bool)
unfolding bo_get_pitch map_front take_shadows
use_front s r width height = bo_get_pitch s.store r.gbm_stride s.front_bo >>= λ pitch.
    let s = record s { virtual_x = width; virtual_y = height; display_width = pitch / r.kcpp } in
    map_front s r >>= λ made. some (take_shadows r made)

-- A new front buffer in place of the old one.
unfoldable pub replace_front :
    Screen → Resizing → (width height : ℕ) → Store × Bo × Bool → Option (Screen × Bool)
unfolding use_front
replace_front s r width height (t, bo, true) =
    use_front (record s { store = t; front_bo = bo; fb_id = 0 }) r width height
replace_front s r width height (t, bo, false) =
    some (record s { store = t; front_bo = bo; fb_id = 0 }, false)

unfoldable pub resize_to : Screen → Resizing → (width height : ℕ) → Option (Screen × Bool)
unfolding bo_get_pitch create_bo replace_front end_resize
resize_to s r width height = bo_get_pitch s.store r.gbm_stride s.front_bo >>= λ old_pitch.
    replace_front s r width height (create_bo s.store s.front_bo width height r.create) >>= λ made.
    end_resize s r old_pitch made

-- drmmode_xf86crtc_resize; none is the use of an object that is not there.
unfoldable pub xf86crtc_resize : Screen → Resizing → (width height : ℕ) → Option (Screen × Bool)
unfolding resize_to
xf86crtc_resize s r width height =
    if s.virtual_x == width && s.virtual_y == height
    then some (s, true)
    else resize_to s r width height
