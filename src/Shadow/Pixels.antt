-- ===== src/Shadow/Pixels.antt =====
-- Bytes, pixels, rectangles and tiles of the shadow buffers, and the regions of the server.
use xserver_xorg_video_loong.Base.{
  ℕ, ◌+◌, ◌-◌, ◌*◌, ◌/◌, ◌≤◌, ◌<◌, ◌≡◌, refl, Bool, true, false, ◌&&◌, ◌||◌, List, [], ◌∷◌, ◌++◌,
  ltb, leb, arith,
}
use xserver_xorg_video_loong.Shadow.{Box, Rectangle, RegionOps, to_rectangle, tile_box}
use xserver_xorg_video_loong.Shadow.Rows.{rows_apart, rows_mono}
use xserver_xorg_video_loong.Shadow.Tiles.{on_box, Fits}

abbrev pub in_rect : Rectangle → (x y : ℕ) → Bool
in_rect r x y = leb r.x x && ltb x (r.x + r.width) && (leb r.y y && ltb y (r.y + r.height))

abbrev pub in_rects : List Rectangle → (x y : ℕ) → Bool
in_rects [] x y = false
in_rects (r ∷ rs) x y = in_rect r x y || in_rects rs x y

-- What the server documents of its regions, with `has` for the pixels of one.
pub record RegionLaws {R : Type 0} (ops : RegionOps R) (has : R → (x y : ℕ) → Bool) : Type 0 where
  pub extents :
      (r : R) (x y : ℕ)
      → has r x y ≡ true
      → let e = ops.extents r in (e.x1 ≤ x) × (x < e.x2) × (e.y1 ≤ y) × (y < e.y2)
  pub contains_rect :
      (r : R) (b : Box) (x y : ℕ)
      → has r x y ≡ true
      → b.x1 ≤ x
      → x < b.x2
      → b.y1 ≤ y
      → y < b.y2
      → ops.contains_rect r b ≡ true
  pub from_rects : (rs : List Rectangle) (x y : ℕ) → has (ops.from_rects rs) x y ≡ in_rects rs x y
  pub intersect : (r s : R) (x y : ℕ) → has (ops.intersect r s) x y ≡ (has r x y && has s x y)

module _ (stride cpp : ℕ) where
  -- The byte at column `c` of a row belongs to the pixel `x`.
  abbrev pub OfPixel : (x c : ℕ) → Type 0
  OfPixel x c = (x * cpp ≤ c) × (c < x * cpp + cpp)

  -- The byte at column `c` of row `q` is one of a rectangle, or of one of a list.
  abbrev pub byte_in : Rectangle → (q c : ℕ) → Bool
  byte_in r q c =
      leb r.y q && ltb q (r.y + r.height) && (leb (r.x * cpp) c && ltb c ((r.x + r.width) * cpp))

  abbrev pub bytes_in : List Rectangle → (q c : ℕ) → Bool
  bytes_in [] q c = false
  bytes_in (r ∷ rs) q c = byte_in r q c || bytes_in rs q c

  pub bytes_in-append :
      (rs ss : List Rectangle) (q c : ℕ)
      → bytes_in (rs ++ ss) q c ≡ (bytes_in rs q c || bytes_in ss q c)
  bytes_in-append [] ss q c = refl
  bytes_in-append (r ∷ rs) ss q c = ground (arith, bytes_in-append rs ss q c)

  byte_in-in_rect :
      (r : Rectangle) (q x c : ℕ) → OfPixel x c → byte_in r q c ≡ true → in_rect r x q ≡ true
  byte_in-in_rect r q x c (left, right) on =
      ground (arith, rows_apart cpp x r.x, rows_mono cpp (r.x + r.width) x, on)

  pub bytes_in-in_rects :
      (rs : List Rectangle) (q x c : ℕ)
      → OfPixel x c
      → bytes_in rs q c ≡ true
      → in_rects rs x q ≡ true
  bytes_in-in_rects [] q x c p on = on
  bytes_in-in_rects (r ∷ rs) q x c p on =
      ground (arith, byte_in-in_rect r q x c p, bytes_in-in_rects rs q x c p)

  pub on_box-byte_in :
      (b : Box) (q c : ℕ)
      → b.x1 ≤ b.x2
      → b.y1 ≤ b.y2
      → on_box stride cpp b q c ≡ true
      → byte_in (to_rectangle b) q c ≡ true
  on_box-byte_in b q c o u on =
      let wide : b.x1 + (b.x2 - b.x1) ≡ b.x2 = omega arith in
      let high : b.y1 + (b.y2 - b.y1) ≡ b.y2 = omega arith in rw (wide, high) on

  pub in_box-on_box :
      (b : Box) (q x c : ℕ)
      → OfPixel x c
      → b.x1 ≤ x
      → x < b.x2
      → b.y1 ≤ q
      → q < b.y2
      → on_box stride cpp b q c ≡ true
  in_box-on_box b q x c (l, r) left right below above =
      ground (arith, rows_mono cpp b.x1 x, rows_apart cpp x b.x2)

  pub tile_box-Fits :
      (e : Box) (i j : ℕ)
      → Fits stride cpp e
      → e.x1 / 16 ≤ i
      → i < (e.x2 + 16 - 1) / 16
      → e.y1 / 16 ≤ j
      → j < (e.y2 + 16 - 1) / 16
      → Fits stride cpp (tile_box e i j)
  unfolding tile_box
  tile_box-Fits e i j f a b c d = record {
    ordered = ground (arith, f.ordered);
    upright = ground (arith, f.upright);
    right = ground (arith, f.right, rows_mono cpp (tile_box e i j).x2 e.x2);
    small = ground (arith, f.small, rows_mono stride (tile_box e i j).y2 e.y2);
  }
