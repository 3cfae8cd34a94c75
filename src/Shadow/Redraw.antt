-- ===== src/Shadow/Redraw.antt =====
-- The update of the second shadow buffer: what is drawn, and that the buffers agree afterwards.
use xserver_xorg_video_loong.Base.{
  ℕ, ◌+◌, ◌-◌, ◌*◌, ◌/◌, ◌≤◌, ◌<◌, ◌≡◌, ◌≢◌, refl, sym, ◌∙◌, inl, inr, Bool, true, false, ◌&&◌,
  ◌==◌, some, List, [], ◌∷◌, arith, Bool-cases, All, ==_iff,
}
use xserver_xorg_video_loong.Shadow.{
  Bytes, Rectangle, RegionOps, Found, visit_tiles, update_double, update_packed,
}
use xserver_xorg_video_loong.Shadow.Tiles.{Fits}
use xserver_xorg_video_loong.Shadow.Pixels.{
  in_rect, in_rects, RegionLaws, OfPixel, bytes_in-in_rects,
}
use xserver_xorg_video_loong.Shadow.Found.{Differs, Inv}
use xserver_xorg_video_loong.Shadow.Visits.{Visits, visit_rows-Visits}

module _ (new : Bytes) (stride cpp : ℕ) where
  -- The bytes of all pixels agree.
  abbrev pub Agrees : Bytes → Type 0
  Agrees old =
      (q x c : ℕ)
      → OfPixel stride cpp x c
      → c < stride
      → old (q * stride + c) ≡ new (q * stride + c)

  module _ {R : Type 0} (has : R → (x y : ℕ) → Bool) (first : Bytes) where
    -- Every pixel that differed at first is drawn, and no pixel outside the damage is.
    abbrev pub Covers : (damage drawn : R) → Type 0
    Covers damage drawn =
        ((q x c : ℕ)
          → OfPixel stride cpp x c
          → c < stride
          → first (q * stride + c) ≢ new (q * stride + c)
          → has drawn x q ≡ true)
        × ((x q : ℕ) → has drawn x q ≡ true → has damage x q ≡ true)

    -- A pixel that is drawn is in a rectangle in which a byte differed at first.
    abbrev pub IsNeeded : R → Type 0
    IsNeeded drawn =
        (x q : ℕ)
        → has drawn x q ≡ true
        → (r : Rectangle) × Differs new stride cpp first r × (in_rect r x q ≡ true)

module _ {R : Type 0} (ops : RegionOps R) (has : R → (x y : ℕ) → Bool) (laws : RegionLaws ops has)
    (new : Bytes) (stride cpp : ℕ) (damage : R) (fits : Fits stride cpp (ops.extents damage))
    (first : Bytes) where
  module _
      (changes : (q x c : ℕ)
        → OfPixel stride cpp x c
        → c < stride
        → first (q * stride + c) ≢ new (q * stride + c)
        → has damage x q ≡ true) where
    abbrev tiles : Found
    tiles = visit_tiles ops new stride cpp damage first

    tiles-Visits :
        Visits ops has laws new stride cpp damage fits first
          (λ x q.
            ((ops.extents damage).x1 / 16 ≤ x / 16)
            × (x / 16 < ((ops.extents damage).x2 + 16 - 1) / 16)
            × ((ops.extents damage).y1 / 16 ≤ q / 16)
            × (q / 16
                < (ops.extents damage).y1 / 16
                  + (((ops.extents damage).y2 + 16 - 1) / 16 - (ops.extents damage).y1 / 16)))
          (first, [])
          tiles
    unfolding visit_tiles
    tiles-Visits =
        let u = fits.upright in
        visit_rows-Visits ops has laws new stride cpp damage fits first
          (((ops.extents damage).y2 + 16 - 1) / 16 - (ops.extents damage).y1 / 16) (omega arith)
          (first, [])

    tiles-Inv : Inv new stride cpp first tiles
    tiles-Inv = tiles-Visits.keeps.inv (record { bytes = λ q c l. inl refl; rects = tt })

    tiles-Agrees : Agrees new stride cpp tiles.0
    tiles-Agrees q x c p l = elim (Bool-cases (first (q * stride + c) == new (q * stride + c))) [
      | inl same ↦ tiles-Visits.keeps.still q c l ((==_iff _ _).0 same)
      | inr differ ↦
          let h = changes q x c p l (λ k. ground arith) in
          let (xl, xr, yl, yr) = laws.extents damage x q h in
          tiles-Visits.synced q x c h (omega arith, omega arith, omega arith, omega arith) p l
    ]

    tiles_in_rects :
        (q x c : ℕ)
        → OfPixel stride cpp x c
        → c < stride
        → first (q * stride + c) ≢ new (q * stride + c)
        → in_rects tiles.1 x q ≡ true
    tiles_in_rects q x c p l d = elim (tiles-Inv.bytes q c l) [
      | inl same ↦ absurd (d (sym same ∙ tiles-Agrees q x c p l))
      | inr (made, found) ↦ bytes_in-in_rects stride cpp tiles.1 q x c p found
    ]

    rects-IsNeeded :
        (rs : List Rectangle)
        → All (Differs new stride cpp first) rs
        → (x q : ℕ) → in_rects rs x q ≡ true
        → (r : Rectangle) × Differs new stride cpp first r × (in_rect r x q ≡ true)
    rects-IsNeeded [] h x q on = absurd cc
    rects-IsNeeded (r ∷ rs) (d, h) x q on = elim (Bool-cases (in_rect r x q)) [
      | inl here ↦ (r, d, here)
      | inr there ↦ rects-IsNeeded rs h x q (ground arith)
    ]

    -- The changes of the first buffer lie in the damage. Then LS_ShadowUpdatePacked with a second
    -- buffer draws every pixel that has changed since the last update, and nothing outside the damage;
    -- with memory for the rectangles the two buffers agree afterwards in every pixel, and what is drawn
    -- lies in rectangles in which some byte had changed.
    pub update_packed-Covers :
        (force_24_32 got_memory : Bool) (bits_per_pixel : ℕ)
        → (old : Bytes) × (drawn : R) × (update_packed ops new stride cpp damage true force_24_32
              got_memory bits_per_pixel
              (some first)
            ≡ (some old, drawn, force_24_32 && bits_per_pixel == 32))
          × Covers new stride cpp has first damage drawn
          × (got_memory ≡ true
              → Agrees new stride cpp old × IsNeeded new stride cpp has first drawn)
    unfolding update_packed update_double
    update_packed-Covers force_24_32 false bits_per_pixel =
        (first, damage, refl, (changes, λ x q h. h), λ k. absurd cc)
    update_packed-Covers force_24_32 true bits_per_pixel =
        let drawn = ops.intersect damage (ops.from_rects tiles.1) in
        let both : (x q : ℕ) → has drawn x q ≡ (has damage x q && in_rects tiles.1 x q) = λ x q.
          laws.intersect damage (ops.from_rects tiles.1) x q
          ∙ rw (laws.from_rects tiles.1 x q) refl in
        (
          tiles.0,
          drawn,
          refl,
          (
            λ q x c p l d. both x q ∙ rw (changes q x c p l d, tiles_in_rects q x c p l d) refl,
            λ x q h. ground (arith, both x q),
          ),
          λ k. (
            tiles-Agrees,
            λ x q h. rects-IsNeeded tiles.1 tiles-Inv.rects x q (ground (arith, both x q)),
          ),
        )
