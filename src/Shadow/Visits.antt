-- ===== src/Shadow/Visits.antt =====
-- The two loops of LS_ShadowUpdatePacked over the tiles of the extents.
use xserver_xorg_video_loong.Base.{
  ℕ, zero, suc, ◌+◌, ◌-◌, ◌*◌, ◌/◌, ◌≤◌, ◌<◌, ◌≡◌, refl, sym, inl, inr, Bool, true, ◌==◌, Option,
  some, none, List, arith, Bool-cases, if_either, ==_iff,
}
use mathlib.Core.Path.{subst}
use xserver_xorg_video_loong.Shadow.{
  Bytes, Box, Rectangle, RegionOps, update_intersect, tile_box, Found, add_found, visit_tile,
  visit_row, visit_rows,
}
use xserver_xorg_video_loong.Shadow.Tiles.{Fits, Syncs, update_intersect-Syncs}
use xserver_xorg_video_loong.Shadow.Pixels.{RegionLaws, OfPixel, in_box-on_box, tile_box-Fits}
use xserver_xorg_video_loong.Shadow.Found.{Keeps, Keeps-refl, Keeps-trans, add_found-Keeps}

add_found-bytes :
    (rects : List Rectangle) (r : Bytes × Option Rectangle) → (add_found rects r).0 ≡ r.0
unfolding add_found
add_found-bytes rects (after, none) = refl
add_found-bytes rects (after, some r) = refl

module _ {R : Type 0} (ops : RegionOps R) (has : R → (x y : ℕ) → Bool) (laws : RegionLaws ops has)
    (new : Bytes) (stride cpp : ℕ) (damage : R) (fits : Fits stride cpp (ops.extents damage))
    (first : Bytes) where
  abbrev pub box : Box
  box = ops.extents damage

  -- A step that also synchronises the damaged pixels of an area.
  pub record Visits (Area : (x q : ℕ) → Type 0) (s t : Found) : Type 0 where
    pub keeps : Keeps new stride cpp first s t
    pub synced :
        (q x c : ℕ)
        → has damage x q ≡ true
        → Area x q
        → OfPixel stride cpp x c
        → c < stride
        → t.0 (q * stride + c) ≡ new (q * stride + c)

  module _ (i j : ℕ) (left : box.x1 / 16 ≤ i) (right : i < (box.x2 + 16 - 1) / 16)
      (above : box.y1 / 16 ≤ j) (below : j < (box.y2 + 16 - 1) / 16) where
    tile-Fits : Fits stride cpp (tile_box box i j)
    tile-Fits = tile_box-Fits stride cpp box i j fits left right above below

    tile_Syncs :
        (old : Bytes)
        → Syncs stride cpp new old
            (tile_box box i j)
            (update_intersect new stride cpp old (tile_box box i j))
    tile_Syncs old = update_intersect-Syncs stride cpp (tile_box box i j) tile-Fits new old

    visit_tile-Keeps :
        (s : Found) → Keeps new stride cpp first s (visit_tile ops new stride cpp damage i j s)
    unfolding visit_tile
    visit_tile-Keeps (old, rects) =
        if_either (Keeps new stride cpp first (old, rects))
          (ops.contains_rect damage (tile_box box i j)) _ _
          (λ h.
            add_found-Keeps new stride cpp first old rects (tile_box box i j) tile-Fits _
              (tile_Syncs old))
          (λ h. Keeps-refl new stride cpp first (old, rects))

    in_tile :
        (x q : ℕ)
        → x / 16 ≡ i
        → q / 16 ≡ j
        → box.x1 ≤ x
        → x < box.x2
        → box.y1 ≤ q
        → q < box.y2
        → let b = tile_box box i j in (b.x1 ≤ x) × (x < b.x2) × (b.y1 ≤ q) × (q < b.y2)
    unfolding tile_box
    in_tile x q a d xl xr yl yr = ground arith

    visit_tile_synced :
        (s : Found) (q x c : ℕ)
        → has damage x q ≡ true
        → (x / 16 ≡ i) × (q / 16 ≡ j)
        → OfPixel stride cpp x c
        → c < stride
        → (visit_tile ops new stride cpp damage i j s).0 (q * stride + c) ≡ new (q * stride + c)
    unfolding visit_tile
    visit_tile_synced (old, rects) q x c h (a, d) p l =
        let (xl, xr, yl, yr) = laws.extents damage x q h in
        let (tl, tr, ta, tb) = in_tile x q a d xl xr yl yr in
        rw (laws.contains_rect damage (tile_box box i j) x q h tl tr ta tb) (
          subst (λ (f : Bytes). f (q * stride + c) ≡ new (q * stride + c))
            (sym (add_found-bytes rects (update_intersect new stride cpp old (tile_box box i j))))
            ((tile_Syncs old).synced q c l
              (in_box-on_box stride cpp (tile_box box i j) q x c p tl tr ta tb)))

  module _ (j : ℕ) (above : box.y1 / 16 ≤ j) (below : j < (box.y2 + 16 - 1) / 16) where
    visit_row-Visits :
        (n : ℕ)
        → box.x1 / 16 + n ≤ (box.x2 + 16 - 1) / 16
        → (s : Found)
        → Visits
            (λ x q. (box.x1 / 16 ≤ x / 16) × (x / 16 < box.x1 / 16 + n) × (q / 16 ≡ j))
            s
            (visit_row ops new stride cpp damage (box.x1 / 16) n j s)
    unfolding visit_row
    visit_row-Visits zero bound s = record {
      keeps = Keeps-refl new stride cpp first s;
      synced = λ q x c h (a, b, d) p l. absurd (omega arith);
    }
    visit_row-Visits (suc n) bound s =
        let i = box.x1 / 16 + n in
        let here : i < (box.x2 + 16 - 1) / 16 = omega arith in
        let next = visit_tile ops new stride cpp damage i j s in
        let rest = visit_row-Visits n (omega arith) next in
        record {
          keeps =
              Keeps-trans new stride cpp first s next _
                (visit_tile-Keeps i j (omega arith) here above below s) rest.keeps;
          synced = λ q x c h (a, b, d) p l. elim (Bool-cases (x / 16 == i)) [
            | inl same ↦ rest.keeps.still q c l (
                visit_tile_synced i j (omega arith) here above below s q x c h
                  ((==_iff (x / 16) i).0 same, d) p l)
            | inr apart ↦ rest.synced q x c h (a, ground (arith, apart), d) p l
          ];
        }

  pub visit_rows-Visits :
      (n : ℕ)
      → box.y1 / 16 + n ≤ (box.y2 + 16 - 1) / 16
      → (s : Found)
      → Visits
          (λ x q.
            (box.x1 / 16 ≤ x / 16)
            × (x / 16 < (box.x2 + 16 - 1) / 16)
            × (box.y1 / 16 ≤ q / 16)
            × (q / 16 < box.y1 / 16 + n))
          s
          (visit_rows ops new stride cpp damage
            (box.x1 / 16)
            ((box.x2 + 16 - 1) / 16 - box.x1 / 16)
            (box.y1 / 16)
            n
            s)
  unfolding visit_rows
  visit_rows-Visits zero bound s = record {
    keeps = Keeps-refl new stride cpp first s;
    synced = λ q x c h (a, b, d, g) p l. absurd (omega arith);
  }
  visit_rows-Visits (suc n) bound s =
      let j = box.y1 / 16 + n in
      let columns = (box.x2 + 16 - 1) / 16 - box.x1 / 16 in
      let o = fits.ordered in
      let row = visit_row-Visits j (omega arith) (omega arith) columns (omega arith) s in
      let next = visit_row ops new stride cpp damage (box.x1 / 16) columns j s in
      let rest = visit_rows-Visits n (omega arith) next in
      record {
        keeps = Keeps-trans new stride cpp first s next _ row.keeps rest.keeps;
        synced = λ q x c h (a, b, d, g) p l. elim (Bool-cases (q / 16 == j)) [
          | inl same ↦
              rest.keeps.still q c l
                (row.synced q x c h (a, omega arith, (==_iff (q / 16) j).0 same) p l)
          | inr apart ↦ rest.synced q x c h (a, b, d, ground (arith, apart)) p l
        ];
      }
