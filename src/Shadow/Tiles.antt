-- ===== src/Shadow/Tiles.antt =====
-- What msUpdateIntersect does to the bytes of a box.
use xserver_xorg_video_loong.Base.{
  ℕ, ◌+◌, ◌-◌, ◌*◌, ◌%◌, ◌^◌, ◌≤◌, ◌<◌, ◌≡◌, ◌≢◌, refl, ap, ◌∙◌, ◌⊎◌, inl, inr, Bool, true, false,
  ◌&&◌, Option, some, none, sym, ltb, leb, if◌then◌else◌, arith, Bool-cases,
}
use mathlib.Core.Path.{subst}
use xserver_xorg_video_loong.Shadow.{
  Bytes, Box, Rectangle, update_lines, to_rectangle, update_intersect,
}
use xserver_xorg_video_loong.Shadow.Rows.{
  update_lines_bytes, update_lines_clean, update_lines_differ,
}

module _ (stride cpp : ℕ) where
  -- The byte at column `c` of row `q` is one of a box.
  abbrev pub on_box : Box → (q c : ℕ) → Bool
  on_box b q c = leb b.y1 q && ltb q b.y2 && (leb (b.x1 * cpp) c && ltb c (b.x2 * cpp))

  -- The box lies in the rows, and its offsets need no more than 32 bits.
  pub record Fits (b : Box) : Type 0 where
    pub ordered : b.x1 ≤ b.x2
    pub upright : b.y1 ≤ b.y2
    pub right : b.x2 * cpp ≤ stride
    pub small : b.y2 * stride + stride < 2 ^ 32

  -- The box is synchronised; a byte that has changed is one of the box, whose rectangle is the
  -- result; there is a result only if some byte of the box differed.
  pub record Syncs (new old : Bytes) (b : Box) (r : Bytes × Option Rectangle) : Type 0 where
    pub synced :
        (q c : ℕ) → c < stride → on_box b q c ≡ true → r.0 (q * stride + c) ≡ new (q * stride + c)
    pub kept :
        (q c : ℕ)
        → c < stride
        → (r.0 (q * stride + c) ≡ old (q * stride + c))
          ⊎ ((r.0 (q * stride + c) ≡ new (q * stride + c))
              × (r.1 ≡ some (to_rectangle b))
              × (on_box b q c ≡ true))
    pub found :
        (r.1 ≡ none)
        ⊎ ((r.1 ≡ some (to_rectangle b))
            × (q : ℕ) × (c : ℕ) × (c < stride)
            × (on_box b q c ≡ true)
            × (old (q * stride + c) ≢ new (q * stride + c)))

  module _ (b : Box) (fits : Fits b) where
    line_end : b.x1 * cpp + (b.x2 - b.x1) * cpp ≡ b.x2 * cpp
    line_end = let o = fits.ordered in grind arith

    row_end : b.y1 + (b.y2 - b.y1) ≡ b.y2
    row_end = let o = fits.upright in omega arith

    on_lines :
        (q c : ℕ)
        → b.y1 ≤ q
        → q < b.y1 + (b.y2 - b.y1)
        → b.x1 * cpp ≤ c
        → c < b.x1 * cpp + (b.x2 - b.x1) * cpp
        → (c < stride) × (on_box b q c ≡ true)
    on_lines q c below above left right =
        let e = line_end in
        let r = fits.right in
        let u = row_end in
        let above' : q < b.y2 = omega arith in
        let right' : c < b.x2 * cpp = omega arith in
        (omega arith, ground (arith, below, above', left, right'))

    line_width : (b.x2 - b.x1) * cpp % 2 ^ 32 ≡ (b.x2 - b.x1) * cpp
    line_width =
        let e = line_end in
        let r = fits.right in
        let s = fits.small in let l : (b.x2 - b.x1) * cpp < 2 ^ 32 = omega arith in omega arith

    line_start : (b.y1 * stride + b.x1 * cpp) % 2 ^ 32 ≡ b.y1 * stride + b.x1 * cpp
    line_start =
        let e = line_end in
        let r = fits.right in
        let s = fits.small in
        let u = fits.upright in let p : b.y1 * stride ≤ b.y2 * stride = grind arith in omega arith

    module _ (new old : Bytes) where
      abbrev lines : Bytes × Bool
      lines =
          update_lines new stride ((b.x2 - b.x1) * cpp) (b.y2 - b.y1) (old, false)
            (b.y1 * stride + b.x1 * cpp)

      update_intersect-lines :
          update_intersect new stride cpp old b
          ≡ (lines.0, if lines.1 then some (to_rectangle b) else none)
      unfolding update_intersect
      update_intersect-lines = rw (line_width, line_start)

      lines_bytes :
          (q c : ℕ)
          → c < stride
          → lines.0 (q * stride + c)
            ≡ (if on_box b q c then new (q * stride + c) else old (q * stride + c))
      lines_bytes q c l =
          let bytes =
            update_lines_bytes new stride (b.x1 * cpp) ((b.x2 - b.x1) * cpp)
              (rw line_end fits.right) (b.y2 - b.y1) (old, false) b.y1 q c l in
          subst
            (λ e. lines.0 (q * stride + c) ≡ (
              if leb b.y1 q && ltb q e && (leb (b.x1 * cpp) c && ltb c (b.x2 * cpp))
              then new (q * stride + c)
              else old (q * stride + c)))
            row_end
            (subst
              (λ e. lines.0 (q * stride + c) ≡ (
                if leb b.y1 q && ltb q (b.y1 + (b.y2 - b.y1)) && (leb (b.x1 * cpp) c && ltb c e)
                then new (q * stride + c)
                else old (q * stride + c)))
              line_end bytes)

      abbrev choose : Bool → Option Rectangle
      choose dirty = if dirty then some (to_rectangle b) else none

      lines-Syncs : Syncs new old b (lines.0, choose lines.1)
      lines-Syncs = record {
        synced = λ q c l on. lines_bytes q c l ∙ rw on refl;
        kept = λ q c l. elim (Bool-cases lines.1) [
          | inl dirty ↦ elim (Bool-cases (on_box b q c)) [
            | inl on ↦ inr (lines_bytes q c l ∙ rw on refl, ap choose dirty, on)
            | inr off ↦ inl (lines_bytes q c l ∙ rw off refl)
          ]
          | inr clean ↦ inl (
              ap (λ (f : Bytes). f (q * stride + c))
                (update_lines_clean new stride (b.x1 * cpp) ((b.x2 - b.x1) * cpp)
                  (rw line_end fits.right) (b.y2 - b.y1) old _ clean))
        ];
        found = elim (Bool-cases lines.1) [
          | inl dirty ↦
              let (q, c, below, above, left, right, d) =
                update_lines_differ new stride (b.x1 * cpp) ((b.x2 - b.x1) * cpp)
                  (rw line_end fits.right) (b.y2 - b.y1) old b.y1 dirty in
              let (inside, on) = on_lines q c below above left right in
              inr (ap choose dirty, q, c, inside, on, d)
          | inr clean ↦ inl (ap choose clean)
        ];
      }

      pub update_intersect-Syncs : Syncs new old b (update_intersect new stride cpp old b)
      update_intersect-Syncs = subst (Syncs new old b) (sym update_intersect-lines) lines-Syncs
