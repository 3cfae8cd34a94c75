-- ===== src/Examples/Shadows.antt =====
-- A run of the shadow update, with regions that are squares with a test.
use xserver_xorg_video_loong.Base.{
  ℕ, ◌+◌, ◌<◌, ◌≡◌, refl, Bool, true, ◌&&◌, ◌==◌, some, List, [], ◌∷◌, ltb, if◌then◌else◌, arith,
  Bool-cases, inl, inr,
}
use xserver_xorg_video_loong.Shadow.{Bytes, Rectangle, RegionOps, update_packed}
use xserver_xorg_video_loong.Shadow.Pixels.{in_rects, RegionLaws}
use xserver_xorg_video_loong.Shadow.Redraw.{Covers, Agrees, IsNeeded, update_packed-Covers}

record Square : Type 0 where
  bound : ℕ
  test : ℕ → ℕ → Bool

abbrev has : Square → (x y : ℕ) → Bool
has r x y = ltb x r.bound && ltb y r.bound && r.test x y

abbrev total : List Rectangle → ℕ
total [] = 0
total (r ∷ rs) = r.x + r.width + r.y + r.height + total rs

abbrev squares : RegionOps Square
squares = record {
  extents = λ r. record { x1 = 0; y1 = 0; x2 = r.bound; y2 = r.bound };
  contains_rect = λ r b. true;
  from_rects = λ rs. record { bound = total rs; test = in_rects rs };
  intersect = λ r s. record { bound = r.bound; test = λ x y. r.test x y && has s x y };
}

in_rects-total :
    (rs : List Rectangle) (x y : ℕ) → in_rects rs x y ≡ true → (x < total rs) × (y < total rs)
in_rects-total [] x y h = absurd cc
in_rects-total (r ∷ rs) x y h = ground (arith, in_rects-total rs x y)

squares-RegionLaws : RegionLaws squares has
squares-RegionLaws = record {
  extents = λ r x y h. ground arith;
  contains_rect = λ r b x y h left right above below. refl;
  from_rects = λ rs x y. elim (Bool-cases (in_rects rs x y)) [
    | inl on ↦ ground (arith, in_rects-total rs x y on)
    | inr off ↦ ground arith
  ];
  intersect = λ r s x y. ground arith;
}

abbrev blank : Bytes
blank a = 0

-- One byte of the second pixel has changed.
abbrev dotted : Bytes
dotted a = if a == 5 then 1 else 0

abbrev screen_square : Square
screen_square = record { bound = 20; test = λ x y. true }

update_packed-Covers_example :
    (old : Bytes) × (drawn : Square) × (update_packed squares dotted 80 4 screen_square true true
        true 32
        (some blank)
      ≡ (some old, drawn, true))
    × Covers dotted 80 4 has blank screen_square drawn
    × (true ≡ true → Agrees dotted 80 4 old × IsNeeded dotted 80 4 has blank drawn)
update_packed-Covers_example =
    update_packed-Covers squares has squares-RegionLaws dotted 80 4 screen_square
      (record {
        ordered = omega arith;
        upright = omega arith;
        right = omega arith;
        small = omega arith;
      })
      blank (λ q x c p l d. ground arith) true true 32
