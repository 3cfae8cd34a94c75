-- ===== src/Vblank/Box.antt =====
-- Boxes of vblank.c: ms_box_intersect, ms_crtc_box, ms_randr_crtc_box, ms_box_area, ms_crtc_on.
-- A BoxRec has four fields of type `short`; the boxes of CRTCs are cut to that width.
use xserver_xorg_video_loong.Base.{
  ℕ, ◌*◌, ◌-◌, ◌+◌, ◌<◌, ◌≡◌, ◌↔◌, Bool, false, ◌&&◌, ◌||◌, Option, none, some, arith, ◌==◌,
  if◌then◌else◌, ℤ, pos, pos_part, neg_part, ltb_ℤ, leb_ℤ, ◌+ℤ◌, ◌-ℤ◌, ◌*ℤ◌, ◌≤ℤ◌, ◌<ℤ◌, short,
}

pub record Box : Type 0 where
  pub x1 : ℤ
  pub y1 : ℤ
  pub x2 : ℤ
  pub y2 : ℤ

abbrev pub empty_box : Box
empty_box = record { x1 = pos 0; y1 = pos 0; x2 = pos 0; y2 = pos 0 }

abbrev larger : ℤ → ℤ → ℤ
larger a b = if ltb_ℤ b a then a else b

abbrev smaller : ℤ → ℤ → ℤ
smaller a b = if ltb_ℤ a b then a else b

unfoldable pub box_intersect : Box → Box → Box
box_intersect a b =
    let x1 = larger a.x1 b.x1 in
    let x2 = smaller a.x2 b.x2 in
    let y1 = larger a.y1 b.y1 in
    let y2 = smaller a.y2 b.y2 in
    if leb_ℤ x2 x1
    then empty_box
    else if leb_ℤ y2 y1
    then empty_box
    else record { x1 = x1; y1 = y1; x2 = x2; y2 = y2 }

-- The product is an `int` in C, which an area below 2^31 fits.
unfoldable pub box_area : Box → ℤ
unfolding ◌-ℤ◌ ◌*ℤ◌
box_area b = (b.x2 -ℤ b.x1) *ℤ (b.y2 -ℤ b.y1)

-- An xf86CrtcRec: `width` and `height` are what xf86ModeWidth and xf86ModeHeight give for its mode
-- and rotation.
pub record Crtc : Type 0 where
  pub enabled : Bool
  pub dpms_mode : ℕ
  pub x : ℤ
  pub y : ℤ
  pub width : ℕ
  pub height : ℕ

-- DPMSModeOn.
abbrev pub dpms_mode_on : ℕ
dpms_mode_on = 0

unfoldable pub crtc_on : Crtc → Bool
crtc_on c = c.enabled && c.dpms_mode == dpms_mode_on

-- A box with its corner at (x, y), as the fields of a BoxRec hold it.
abbrev pub box_at : ℤ → ℤ → ℕ → ℕ → Box
box_at x y w h = record {
  x1 = short x;
  y1 = short y;
  x2 = short (x +ℤ pos w);
  y2 = short (y +ℤ pos h);
}

unfoldable pub crtc_box : Crtc → Box
crtc_box c = if c.enabled then box_at c.x c.y c.width c.height else empty_box

pub record Mode : Type 0 where
  pub width : ℕ
  pub height : ℕ

-- An RRCrtcRec, with the xf86CrtcRec of its devPrivate.
pub record RandrCrtc : Type 0 where
  pub mode : Option Mode
  pub rotation : ℕ
  pub x : ℤ
  pub y : ℤ
  pub dev_private : Crtc

-- RR_Rotate_90 and RR_Rotate_270; all else takes the default branch.
abbrev is_sideways : ℕ → Bool
is_sideways r = r == 2 || r == 8

unfoldable pub randr_crtc_box : RandrCrtc → Box
randr_crtc_box c = elim c.mode [
  | none ↦ empty_box
  | some m ↦
      if is_sideways c.rotation
      then box_at c.x c.y m.height m.width
      else box_at c.x c.y m.width m.height
]

-- The pixel (px, py) lies in the box: its right and lower edges are outside.
abbrev pub Contains : Box → ℤ → ℤ → Type 0
Contains b px py = (b.x1 ≤ℤ px) × (px <ℤ b.x2) × (b.y1 ≤ℤ py) × (py <ℤ b.y2)

larger_le : (a b p : ℤ) → a ≤ℤ p → b ≤ℤ p → larger a b ≤ℤ p
larger_le a b p h k = ground arith

lt_smaller : (a b p : ℤ) → p <ℤ a → p <ℤ b → p <ℤ smaller a b
lt_smaller a b p h k = ground arith

proper : (u p v : ℤ) → u ≤ℤ p → p <ℤ v → leb_ℤ v u ≡ false
proper u p v h k = ground arith

-- The intersection holds exactly the pixels that both boxes hold.
pub box_intersect-Contains :
    (a b : Box) (px py : ℤ)
    → Contains (box_intersect a b) px py ↔ (Contains a px py × Contains b px py)
unfolding box_intersect
box_intersect-Contains a b px py = (λ h. ground arith, both)
  where
    both : Contains a px py × Contains b px py → Contains (box_intersect a b) px py
    both ((a1, a2, a3, a4), (b1, b2, b3, b4)) =
        let l = larger_le a.x1 b.x1 px a1 b1 in
        let r = lt_smaller a.x2 b.x2 px a2 b2 in
        let t = larger_le a.y1 b.y1 py a3 b3 in
        let u = lt_smaller a.y2 b.y2 py a4 b4 in
        rw (proper _ px _ l r, proper _ py _ t u, box_intersect) (l, r, t, u)

-- The length of an interval whose ends are in order.
abbrev extent : ℤ → ℤ → ℕ
extent a b = (pos_part b + neg_part a) - (neg_part b + pos_part a)

extent_lem : (a b : ℤ) → a ≤ℤ b → b -ℤ a ≡ pos (extent a b)
unfolding ◌-ℤ◌
extent_lem a b h = ground arith

mul_pos : (m n : ℕ) → pos m *ℤ pos n ≡ pos (m * n)
unfolding ◌*ℤ◌
mul_pos m n = ground arith

box_area_ordered :
    (b : Box) → b.x1 ≤ℤ b.x2 → b.y1 ≤ℤ b.y2 → box_area b ≡ pos (extent b.x1 b.x2 * extent b.y1 b.y2)
unfolding box_area
box_area_ordered b h k = rw (extent_lem b.x1 b.x2 h, extent_lem b.y1 b.y2 k) (mul_pos _ _)

box_intersect_ordered :
    (a b : Box)
    → ((box_intersect a b).x1 ≤ℤ (box_intersect a b).x2)
      × ((box_intersect a b).y1 ≤ℤ (box_intersect a b).y2)
unfolding box_intersect
box_intersect_ordered a b = ground arith

-- The area of an intersection, as a product of numbers.
box_area-intersect :
    (a b : Box)
    → let c = box_intersect a b in box_area c ≡ pos (extent c.x1 c.x2 * extent c.y1 c.y2)
box_area-intersect a b =
    let (h, k) = box_intersect_ordered a b in box_area_ordered (box_intersect a b) h k

pos_of_mul : (m n : ℕ) → 0 < m * n → (0 < m) × (0 < n)
pos_of_mul m n h = ground arith

mul_pos_of_pos : (m n : ℕ) → 0 < m → 0 < n → 0 < m * n
mul_pos_of_pos m n h k = grind arith

-- The area of the intersection of two boxes is positive exactly when some pixel lies in both.
pub box_area-intersect_pos :
    (a b : Box)
    → (pos 0 <ℤ box_area (box_intersect a b))
      ↔ ((px : ℤ) × (py : ℤ) × Contains a px py × Contains b px py)
box_area-intersect_pos a b = (there, back)
  where
    c : Box
    c = box_intersect a b

    there :
        pos 0 <ℤ box_area (box_intersect a b)
        → (px : ℤ) × (py : ℤ) × Contains a px py × Contains b px py
    there h =
        let area = rw (box_area-intersect a b) at h in
        let (w, v) = pos_of_mul (extent c.x1 c.x2) (extent c.y1 c.y2) (omega (arith, area)) in
        let (ina, inb) = (box_intersect-Contains a b c.x1 c.y1).0 (omega arith) in
        (c.x1, c.y1, ina, inb)

    back :
        (px : ℤ) × (py : ℤ) × Contains a px py × Contains b px py
        → pos 0 <ℤ box_area (box_intersect a b)
    back (px, py, ina, inb) =
        let inside = (box_intersect-Contains a b px py).1 (ina, inb) in
        rw (box_area-intersect a b) (
          omega (
            arith,
            mul_pos_of_pos (extent c.x1 c.x2) (extent c.y1 c.y2) (omega arith) (omega arith),
          ))
