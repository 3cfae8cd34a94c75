-- ===== src/Buffers.antt =====
-- Buffer objects: src/dumb_bo.c, and the drmmode_bo functions of src/drmmode_display.c on top of it.
-- The heap of struct dumb_bo is a function from addresses, where none is no object; a use of an
-- object that is not there has the result none. Allocators, ioctls, mmap and gbm answer as arguments.
pub mod Balance
pub mod Creation
pub mod Front
pub mod Resize
use xserver_xorg_video_loong.Formats.{mod_invalid}
use xserver_xorg_video_loong.Base.{
  ℕ, ◌+◌, Bool, true, false, not, ◌&&◌, ◌||◌, Option, none, some, List, [], ◌∷◌, ◌==◌,
  if◌then◌else◌, ◌>>=◌, is_some,
}

-- struct dumb_bo; the mapping is an address.
pub record DumbBo : Type 0 where
  pub handle : ℕ
  pub size : ℕ
  pub pitch : ℕ
  pub ptr : Option ℕ

-- The heap, the handles that the kernel holds for the driver, and the live buffers of gbm.
pub record Store : Type 0 where
  pub heap : ℕ → Option DumbBo
  pub handles : ℕ → Bool
  pub gbms : ℕ → Bool

unfoldable pub set_heap : (ℕ → Option DumbBo) → ℕ → Option DumbBo → ℕ → Option DumbBo
set_heap h p o q = if q == p then o else h q

unfoldable pub set_live : (ℕ → Bool) → ℕ → Bool → ℕ → Bool
set_live h p b q = if q == p then b else h q

-- The answers to dumb_bo_create: calloc, and the object that the kernel makes.
pub record CreateDumb : Type 0 where
  pub calloc : Option ℕ
  pub created : Option DumbBo

-- dumb_bo_create: the handle is live from here on, without a mapping.
unfoldable pub dumb_bo_create : Store → CreateDumb → Store × Option ℕ
unfolding set_heap set_live
dumb_bo_create s w = elim w.calloc [
  | none ↦ (s, none)
  | some p ↦ elim w.created [
    | none ↦ (s, none)
    | some bo ↦ (
      record s {
        heap = set_heap s.heap p (some (record bo { ptr = none }));
        handles = set_live s.handles bo.handle true;
      },
      some p,
    )
  ]
]

-- dumb_bo_map, where `mapped` is the mapping, none if the ioctl or mmap fails. The Bool is whether the
-- result is 0.
unfoldable pub map_object : Store → (p : ℕ) → DumbBo → (mapped : Option ℕ) → Store × Bool
unfolding set_heap
map_object s p bo mapped = elim bo.ptr [
  | some m ↦ (s, true)
  | none ↦ elim mapped [
    | none ↦ (s, false)
    | some m ↦ (record s { heap = set_heap s.heap p (some (record bo { ptr = some m })) }, true)
  ]
]

unfoldable pub dumb_bo_map : Store → (p : ℕ) → (mapped : Option ℕ) → Option (Store × Bool)
unfolding map_object
dumb_bo_map s p mapped = s.heap p >>= λ bo. some (map_object s p bo mapped)

-- dumb_bo_destroy: the mapping goes first; the object stays if the ioctl fails.
unfoldable pub destroy_object : Store → (p : ℕ) → DumbBo → (destroyed : Bool) → Store × Bool
unfolding set_heap set_live
destroy_object s p bo destroyed =
    if destroyed
    then (
      record s { heap = set_heap s.heap p none; handles = set_live s.handles bo.handle false },
      true,
    )
    else (record s { heap = set_heap s.heap p (some (record bo { ptr = none })) }, false)

unfoldable pub dumb_bo_destroy : Store → (p : ℕ) → (destroyed : Bool) → Option (Store × Bool)
unfolding destroy_object
dumb_bo_destroy s p destroyed = s.heap p >>= λ bo. some (destroy_object s p bo destroyed)

-- dumb_get_bo_from_fd: the object has the handle of the file, if the kernel gives one.
unfoldable pub dumb_get_bo_from_fd :
    Store → (pitch size : ℕ) → (calloc imported : Option ℕ) → Store × Option ℕ
unfolding set_heap set_live
dumb_get_bo_from_fd s pitch size calloc imported = elim calloc [
  | none ↦ (s, none)
  | some p ↦ elim imported [
    | none ↦ (s, none)
    | some h ↦ (
      record s {
        heap =
            set_heap s.heap p
              (some (record { handle = h; size = size; pitch = pitch; ptr = none }));
        handles = set_live s.handles h true;
      },
      some p,
    )
  ]
]

-- drmmode_bo.
pub record Bo : Type 0 where
  pub width : ℕ
  pub height : ℕ
  pub dumb : Option ℕ
  pub gbm : Option ℕ
  pub used_modifiers : Bool

-- drmmode_bo_destroy: the pointer to a dumb object stays if it cannot be destroyed.
unfoldable pub destroy_gbm : Store → Option ℕ → Store
unfolding set_live
destroy_gbm s none = s
destroy_gbm s (some g) = record s { gbms = set_live s.gbms g false }

unfoldable pub bo_destroy : Store → Bo → (destroyed : Bool) → Option (Store × Bo)
unfolding destroy_gbm dumb_bo_destroy
bo_destroy s bo destroyed = elim bo.dumb [
  | none ↦ some (destroy_gbm s bo.gbm, record bo { gbm = none })
  | some p ↦ dumb_bo_destroy (destroy_gbm s bo.gbm) p destroyed >>= λ (s, ok).
      some (s, record bo { gbm = none; dumb = if ok then none else some p })
]

-- The strides of gbm are an argument of the functions that read them.
unfoldable pub bo_get_pitch : Store → (gbm_stride : ℕ → ℕ) → Bo → Option ℕ
bo_get_pitch s gbm_stride bo = elim bo.gbm [
  | some g ↦ some (gbm_stride g)
  | none ↦ bo.dumb >>= λ p. s.heap p >>= λ o. some o.pitch
]

unfoldable pub bo_get_handle : Store → (gbm_handle : ℕ → ℕ) → Bo → Option ℕ
bo_get_handle s gbm_handle bo = elim bo.gbm [
  | some g ↦ some (gbm_handle g)
  | none ↦ bo.dumb >>= λ p. s.heap p >>= λ o. some o.handle
]

unfoldable pub bo_has_bo : Bo → Bool
bo_has_bo bo = is_some bo.gbm || is_some bo.dumb

-- drmmode_bo_map: the mapping, if there is one.
unfoldable pub map_dumb : Store → (p : ℕ) → (mapped : Option ℕ) → Option (Store × Option ℕ)
unfolding dumb_bo_map
map_dumb s p mapped = dumb_bo_map s p mapped >>= λ (s, ok).
    if ok then (s.heap p >>= λ o. some (s, o.ptr)) else some (s, none)

unfoldable pub bo_map : Store → Bo → (mapped : Option ℕ) → Option (Store × Option ℕ)
unfolding map_dumb
bo_map s bo mapped = elim bo.gbm [
  | some g ↦ some (s, none)
  | none ↦ bo.dumb >>= λ p. map_dumb s p mapped
]

-- What drmmode_create_bo asks: whether glamor is on, the modifiers that get_modifiers_set found,
-- the buffers that gbm makes with and without them, and the dumb object.
pub record CreateBo : Type 0 where
  pub glamor : Bool
  pub modifiers : List ℕ
  pub with_modifiers : Option ℕ
  pub plain : Option ℕ
  pub dumb : CreateDumb

-- num_modifiers > 0 && !(num_modifiers == 1 && modifiers[0] == DRM_FORMAT_MOD_INVALID)
unfoldable pub has_modifiers : List ℕ → Bool
has_modifiers [] = false
has_modifiers (m ∷ []) = not (m == mod_invalid)
has_modifiers (m ∷ n ∷ ms) = true

abbrev pub live_gbm : Store → ℕ → Store
live_gbm s g = record s { gbms = set_live s.gbms g true }

unfoldable pub create_plain : Store → Bo → (plain : Option ℕ) → Store × Bo × Bool
unfolding set_live
create_plain s bo none = (s, record bo { gbm = none; used_modifiers = false }, false)
create_plain s bo (some g) =
    (live_gbm s g, record bo { gbm = some g; used_modifiers = false }, true)

unfoldable pub create_gbm :
    Store → Bo → (wanted : Bool) → (with_modifiers plain : Option ℕ) → Store × Bo × Bool
unfolding create_plain set_live
create_gbm s bo true (some g) plain =
    (live_gbm s g, record bo { gbm = some g; used_modifiers = true }, true)
create_gbm s bo true none plain = create_plain s bo plain
create_gbm s bo false with_modifiers plain = create_plain s bo plain

-- drmmode_create_bo: whichever pointer it makes is overwritten, also on failure.
unfoldable pub create_bo : Store → Bo → (width height : ℕ) → CreateBo → Store × Bo × Bool
unfolding create_gbm has_modifiers dumb_bo_create
create_bo s bo width height w =
    let bo = record bo { width = width; height = height } in
    let (made, dumb) = dumb_bo_create s w.dumb in
    if w.glamor
    then create_gbm s bo (has_modifiers w.modifiers) w.with_modifiers w.plain
    else (made, record bo { dumb = dumb }, is_some dumb)
