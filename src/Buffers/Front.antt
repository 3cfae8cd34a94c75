-- ===== src/Buffers/Front.antt =====
-- Other users of buffer objects in src/drmmode_display.c: drmmode_get_default_bpp, the initial and
-- the cursor objects, the shadow of a rotated CRTC, and the buffers of a slave screen.
pub mod Cursors
pub mod Shadows
use xserver_xorg_video_loong.Base.{
  ℕ, ◌/◌, ◌+◌, Bool, true, false, not, ◌&&◌, ◌||◌, Option, none, some, List, [], ◌∷◌, ◌==◌,
  if◌then◌else◌, ◌>>=◌, is_some,
}
use xserver_xorg_video_loong.Buffers.{
  Store, CreateDumb, dumb_bo_create, dumb_bo_map, dumb_bo_destroy, dumb_get_bo_from_fd, map_dumb,
  Bo, CreateBo, bo_destroy, bo_get_pitch, bo_has_bo, bo_map, create_bo,
}

-- The answers to drmmode_get_default_bpp: the preferred depth, the least sizes, the dumb object for a
-- width, a height and a depth, the frame buffer, and whether the object can be destroyed.
pub record Probe : Type 0 where
  pub preferred : Option ℕ
  pub resources : Option (ℕ × ℕ)
  pub create : (width height bpp : ℕ) → CreateDumb
  pub fb : Option ℕ
  pub destroyed : Bool

-- The kernel reports 0 for a least size of 1.
abbrev pub at_least_1 : ℕ → ℕ
at_least_1 n = if n == 0 then 1 else n

-- The object for a frame buffer of 32 bits per pixel is destroyed again.
unfoldable pub try_fb : Store × Option ℕ → Probe → Option (Store × ℕ × Option ℕ)
unfolding dumb_bo_destroy
try_fb (s, none) w = some (s, 24, some 24)
try_fb (s, some p) w = dumb_bo_destroy s p w.destroyed >>= λ (t, ok).
    some (t, 24, some (if is_some w.fb then 32 else 24))

unfoldable pub probe_bpp : Store → Probe → Option (Store × ℕ × Option ℕ)
unfolding dumb_bo_create try_fb
probe_bpp s w = elim w.resources [
  | none ↦ some (s, 24, none)
  | some (width, height) ↦
      try_fb (dumb_bo_create s (w.create (at_least_1 width) (at_least_1 height) 32)) w
]

-- The depth and the bits per pixel, where they are set.
unfoldable pub get_default_bpp : Store → Probe → Option (Store × ℕ × Option ℕ)
unfolding probe_bpp
get_default_bpp s w = elim w.preferred [
  | none ↦ probe_bpp s w
  | some d ↦ if d == 16 || d == 8 then some (s, d, some d) else probe_bpp s w
]

-- The cursor objects of the CRTCs, as drmmode_create_initial_bos makes them: a pointer may be null.
unfoldable pub create_cursors : Store → List CreateDumb → Store × List (Option ℕ)
unfolding dumb_bo_create
create_cursors s [] = (s, [])
create_cursors s (w ∷ ws) =
    let (t, p) = dumb_bo_create s w in let (u, ps) = create_cursors t ws in (u, p ∷ ps)

-- drmmode_create_initial_bos: the store, the front buffer object, the cursors, the display width and
-- the result.
pub record Initial : Type 0 where
  pub store : Store
  pub front_bo : Bo
  pub cursors : List (Option ℕ)
  pub display_width : ℕ
  pub ok : Bool

unfoldable pub with_front :
    Store × Bo × Bool → (gbm_stride : ℕ → ℕ) → (cpp : ℕ) → List CreateDumb → Option Initial
unfolding create_cursors bo_get_pitch
with_front (s, bo, false) gbm_stride cpp ws =
    some (record { store = s; front_bo = bo; cursors = []; display_width = 0; ok = false })
with_front (s, bo, true) gbm_stride cpp ws = bo_get_pitch s gbm_stride bo >>= λ pitch.
    let (t, ps) = create_cursors s ws in
    some (record { store = t; front_bo = bo; cursors = ps; display_width = pitch / cpp; ok = true })

unfoldable pub create_initial_bos :
    Store
    → Bo
    → (width height bpp : ℕ) → CreateBo
    → (gbm_stride : ℕ → ℕ) → List CreateDumb
    → Option Initial
unfolding create_bo with_front
create_initial_bos s bo width height bpp w gbm_stride ws =
    with_front (create_bo s bo width height w) gbm_stride ((bpp + 7) / 8) ws

-- drmmode_map_cursor_bos: stops at the first that cannot be mapped; a null pointer is not tested.
unfoldable pub map_cursor_bos : Store → List (Option ℕ × Option ℕ) → Option (Store × Bool)
unfolding dumb_bo_map
map_cursor_bos s [] = some (s, true)
map_cursor_bos s ((p, mapped) ∷ ps) = p >>= λ p. dumb_bo_map s p mapped >>= λ (t, ok).
    let rest = map_cursor_bos t ps in if ok then rest else some (t, false)

unfoldable pub destroy_cursors : Store → List (Option ℕ × Bool) → Option Store
unfolding dumb_bo_destroy
destroy_cursors s [] = some s
destroy_cursors s ((p, destroyed) ∷ ps) =
    p >>= λ p. dumb_bo_destroy s p destroyed >>= λ (t, ok). destroy_cursors t ps

-- drmmode_free_bos: the store, the front buffer object, and the frame buffer that is removed.
unfoldable pub free_bos :
    Store
    → Bo
    → (fb_id : ℕ) → (destroyed : Bool) → List (Option ℕ × Bool)
    → Option (Store × Bo × Option ℕ)
unfolding bo_destroy destroy_cursors
free_bos s bo fb_id destroyed cursors = bo_destroy s bo destroyed >>= λ (t, bo).
    destroy_cursors t cursors >>= λ u. some (u, bo, if fb_id == 0 then none else some fb_id)

-- The shadow of a rotated CRTC.
pub record Rotated : Type 0 where
  pub store : Store
  pub rotate_bo : Bo
  pub rotate_fb_id : ℕ

unfoldable pub import_shadow :
    Rotated → (fb : Option ℕ) → (destroyed : Bool) → Option (Rotated × Bool)
unfolding bo_destroy
import_shadow c (some id) destroyed = some (record c { rotate_fb_id = id }, true)
import_shadow c none destroyed = bo_destroy c.store c.rotate_bo destroyed >>= λ (s, bo).
    some (record c { store = s; rotate_bo = bo }, false)

unfoldable pub made_shadow :
    Rotated → Store × Bo × Bool → (fb : Option ℕ) → (destroyed : Bool) → Option (Rotated × Bool)
unfolding import_shadow
made_shadow c (s, bo, true) fb destroyed =
    import_shadow (record c { store = s; rotate_bo = bo }) fb destroyed
made_shadow c (s, bo, false) fb destroyed = some (record c { store = s; rotate_bo = bo }, false)

-- drmmode_shadow_allocate: the Bool is whether the result is not null.
unfoldable pub shadow_allocate :
    Rotated
    → (width height : ℕ) → CreateBo
    → (fb : Option ℕ) → (destroyed : Bool) → Option (Rotated × Bool)
unfolding create_bo made_shadow
shadow_allocate c width height w fb destroyed =
    made_shadow c (create_bo c.store c.rotate_bo width height w) fb destroyed

abbrev pub no_bo : Bo
no_bo = record { width = 0; height = 0; dumb = none; gbm = none; used_modifiers = false }

-- drmmode_shadow_destroy for the data: the frame buffer that is removed, and no buffer object.
unfoldable pub shadow_destroy : Rotated → (data_given destroyed : Bool) → Option (Rotated × List ℕ)
unfolding bo_destroy
shadow_destroy c data_given destroyed =
    if data_given
    then (bo_destroy c.store c.rotate_bo destroyed >>= λ (s, bo).
        some (record { store = s; rotate_bo = no_bo; rotate_fb_id = 0 }, c.rotate_fb_id ∷ []))
    else some (c, [])

-- drmmode_SetSlaveBO: the backing object of a pixmap, and whether the descriptor was closed. Without
-- a descriptor the object goes, and a null pointer is not tested.
unfoldable pub take_fd : Store × Option ℕ → Store × Option ℕ × Bool × Bool
take_fd (s, none) = (s, none, false, false)
take_fd (s, some p) = (s, some p, true, true)

-- The Bools are the result and whether the descriptor was closed.
unfoldable pub set_slave_bo :
    Store
    → (backing fd : Option ℕ) → (pitch size : ℕ) → (calloc imported : Option ℕ) → (destroyed : Bool)
    → Option (Store × Option ℕ × Bool × Bool)
unfolding dumb_bo_destroy dumb_get_bo_from_fd take_fd
set_slave_bo s backing none pitch size calloc imported destroyed =
    backing >>= λ p. dumb_bo_destroy s p destroyed >>= λ (t, ok). some (t, none, true, false)
set_slave_bo s backing (some fd) pitch size calloc imported destroyed =
    some (take_fd (dumb_get_bo_from_fd s pitch size calloc imported))

-- drmmode_map_slave_bo: the mapping of the backing object, if there is one; a null pointer is not
-- tested.
unfoldable pub map_slave_bo : Store → (backing mapped : Option ℕ) → Option (Store × Option ℕ)
unfolding map_dumb
map_slave_bo s backing mapped = backing >>= λ p. map_dumb s p mapped
