-- ===== src/Shadow.antt =====
-- src/loongson_shadow.c: whether there are shadow buffers, their sizes, and the update that redraws
-- the tiles in which the two buffers differ. A buffer is a function from offsets to bytes. Regions
-- are the server's, and coordinates in them are those of the screen.
pub mod Rows
pub mod Tiles
pub mod Pixels
pub mod Found
pub mod Visits
pub mod Redraw
use xserver_xorg_video_loong.Base.{
  ℕ, zero, suc, ◌+◌, ◌-◌, ◌*◌, ◌/◌, ◌%◌, ◌^◌, Bool, true, false, not, ◌&&◌, ◌||◌, Option, none,
  some, List, [], ◌∷◌, ◌++◌, ◌==◌, ltb, leb, if◌then◌else◌,
}

-- BoxRec and xRectangle.
pub record Box : Type 0 where
  pub x1 : ℕ
  pub y1 : ℕ
  pub x2 : ℕ
  pub y2 : ℕ

pub record Rectangle : Type 0 where
  pub x : ℕ
  pub y : ℕ
  pub width : ℕ
  pub height : ℕ

-- What the update uses of the regions of the server.
pub record RegionOps (R : Type 0) : Type 0 where
  pub extents : R → Box
  pub contains_rect : R → Box → Bool
  pub from_rects : List Rectangle → R
  pub intersect : R → R → R

abbrev pub Bytes : Type 0
Bytes = ℕ → ℕ

-- memcmp finds `n` bytes from an offset the same.
unfoldable pub same_bytes : (old new : Bytes) → (start n : ℕ) → Bool
same_bytes old new start zero = true
same_bytes old new start (suc n) = old (start + n) == new (start + n) && same_bytes old new start n

-- memcpy of `n` bytes at the same offset.
unfoldable pub copy_bytes : (old new : Bytes) → (start n : ℕ) → Bytes
copy_bytes old new start n a = if leb start a && ltb a (start + n) then new a else old a

module _ (new : Bytes) (stride width : ℕ) where
  unfoldable pub update_line : Bytes × Bool → (start : ℕ) → Bytes × Bool
  unfolding same_bytes copy_bytes
  update_line (old, dirty) start =
      if same_bytes old new start width
      then (old, dirty)
      else (copy_bytes old new start width, true)

  -- The loop over the lines.
  unfoldable pub update_lines : (num_lines : ℕ) → Bytes × Bool → (start : ℕ) → Bytes × Bool
  unfolding update_line
  update_lines zero s start = s
  update_lines (suc n) s start = update_lines n (update_line s start) (start + stride)

abbrev pub to_rectangle : Box → Rectangle
to_rectangle b = record { x = b.x1; y = b.y1; width = b.x2 - b.x1; height = b.y2 - b.y1 }

-- msUpdateIntersect: shadow_fb2 is `old` and shadow_fb is `new`; the result is the rectangle where the
-- function returns TRUE.
unfoldable pub update_intersect :
    (new : Bytes) (stride cpp : ℕ) → (old : Bytes) → Box → Bytes × Option Rectangle
unfolding update_lines
update_intersect new stride cpp old box =
    let width = (box.x2 - box.x1) * cpp % 2 ^ 32 in
    let go_to_start = (box.y1 * stride + box.x1 * cpp) % 2 ^ 32 in
    let (old, dirty) = update_lines new stride width (box.y2 - box.y1) (old, false) go_to_start in
    (old, if dirty then some (to_rectangle box) else none)

abbrev pub tile : ℕ
tile = 16

abbrev max : ℕ → ℕ → ℕ
max a b = if ltb b a then a else b

abbrev min : ℕ → ℕ → ℕ
min a b = if ltb a b then a else b

unfoldable pub tile_box : (extents : Box) (i j : ℕ) → Box
tile_box e i j = record {
  x1 = max (i * tile) e.x1;
  y1 = max (j * tile) e.y1;
  x2 = min ((i + 1) * tile) e.x2;
  y2 = min ((j + 1) * tile) e.y2;
}

-- The second buffer and the rectangles that have been found.
abbrev pub Found : Type 0
Found = Bytes × List Rectangle

unfoldable pub add_found : List Rectangle → Bytes × Option Rectangle → Found
add_found rects (old, none) = (old, rects)
add_found rects (old, some r) = (old, rects ++ (r ∷ []))

module _ {R : Type 0} (ops : RegionOps R) (new : Bytes) (stride cpp : ℕ) (damage : R) where
  -- The body of the two loops.
  unfoldable pub visit_tile : (i j : ℕ) → Found → Found
  unfolding tile_box update_intersect add_found
  visit_tile i j (old, rects) =
      let box = tile_box (ops.extents damage) i j in
      if ops.contains_rect damage box
      then add_found rects (update_intersect new stride cpp old box)
      else (old, rects)

  -- The inner loop, over `n` tiles from tx1, the last one first.
  unfoldable pub visit_row : (tx1 n j : ℕ) → Found → Found
  unfolding visit_tile
  visit_row tx1 zero j s = s
  visit_row tx1 (suc n) j s = visit_row tx1 n j (visit_tile (tx1 + n) j s)

  unfoldable pub visit_rows : (tx1 columns ty1 n : ℕ) → Found → Found
  unfolding visit_row
  visit_rows tx1 columns ty1 zero s = s
  visit_rows tx1 columns ty1 (suc n) s =
      visit_rows tx1 columns ty1 n (visit_row tx1 columns (ty1 + n) s)

  unfoldable pub visit_tiles : Bytes → Found
  unfolding visit_rows
  visit_tiles old =
      let e = ops.extents damage in
      let tx1 = e.x1 / tile in
      let ty1 = e.y1 / tile in
      let tx2 = (e.x2 + tile - 1) / tile in
      let ty2 = (e.y2 + tile - 1) / tile in visit_rows tx1 (tx2 - tx1) ty1 (ty2 - ty1) (old, [])

  -- The block with the second buffer: what becomes of the buffer and of the damage.
  unfoldable pub update_double : (got_memory : Bool) → Bytes → Bytes × R
  unfolding visit_tiles
  update_double false old = (old, damage)
  update_double true old =
      let (old, rects) = visit_tiles old in (old, ops.intersect damage (ops.from_rects rects))

  -- LS_ShadowUpdatePacked: the second buffer, if there is one, the damage that is drawn, and whether
  -- it is drawn by Update32to24.
  unfoldable pub update_packed :
      (shadow_enable2 force_24_32 got_memory : Bool) (bits_per_pixel : ℕ)
      → Option Bytes
      → Option Bytes × R × Bool
  unfolding update_double
  update_packed shadow_enable2 force_24_32 got_memory bits_per_pixel shadow_fb2 =
      let use_3224 = force_24_32 && bits_per_pixel == 32 in
      elim shadow_fb2 [
        | none ↦ (none, damage, use_3224)
        | some old ↦
            if shadow_enable2
            then (let (old, damage) = update_double got_memory old in (some old, damage, use_3224))
            else (some old, damage, use_3224)
      ]

-- The driver that the kernel names.
pub data DrmName : Type 0 where
  mgag200 ast other : DrmName

-- LS_ShadowShouldDouble; `asked` is the option, where it is set.
unfoldable pub should_double : DrmName → (asked : Option Bool) → Bool
should_double name (some asked) = asked
should_double mgag200 none = true
should_double ast none = true
should_double other none = false

-- LS_TryEnableShadow: shadow_enable and shadow_enable2. `prefers` is the capability, where the kernel
-- tells it.
unfoldable pub try_enable_shadow :
    (force_24_32 : Bool) (prefers shadow_fb : Option Bool)
    → DrmName
    → (double_shadow : Option Bool) → Bool × Bool
unfolding should_double
try_enable_shadow force_24_32 prefers shadow_fb name double_shadow =
    let prefer_shadow : Bool = elim prefers [ none ↦ true | some value ↦ value ] in
    let chosen : Bool = elim shadow_fb [ none ↦ prefer_shadow | some b ↦ b ] in
    let enable = if force_24_32 then true else chosen in
    (enable, if enable then should_double name double_shadow else false)

-- The size that LS_ShadowAllocFB and LS_ShadowAllocDoubleFB ask calloc for, in unsigned int.
unfoldable pub shadow_size : (bits_per_pixel display_width virtual_y : ℕ) → ℕ
shadow_size bits_per_pixel display_width virtual_y =
    let bit2byte = (bits_per_pixel + 7) / 2 ^ 3 in display_width * virtual_y * bit2byte % 2 ^ 32

-- LS_ShadowWindow: the offset of a row in the front buffer, and the stride as the size.
unfoldable pub shadow_window : (display_width kbpp row offset : ℕ) → ℕ × ℕ
shadow_window display_width kbpp row offset =
    let stride = display_width * kbpp / 8 in (row * stride + offset, stride)
