-- ===== src/Shadow/Rows.antt =====
-- The loop of msUpdateIntersect over the lines of a box, byte by byte.
use xserver_xorg_video_loong.Base.{
  ℕ, zero, suc, ◌+◌, ◌-◌, ◌*◌, ◌≤◌, ◌<◌, ◌≡◌, ◌≢◌, refl, sym, ap, ◌∙◌, ==_iff, if_either, inl, inr,
  Bool, true, false, ◌&&◌, ◌==◌, ltb, leb, if◌then◌else◌, arith, Bool-cases,
}
use mathlib.Core.Path.{subst}
use xserver_xorg_video_loong.Shadow.{Bytes, same_bytes, copy_bytes, update_line, update_lines}

same_bytes-≡ :
    (old new : Bytes) (start n k : ℕ)
    → same_bytes old new start n ≡ true
    → k < n
    → old (start + k) ≡ new (start + k)
unfolding same_bytes
same_bytes-≡ old new start zero k h l = absurd (omega arith)
same_bytes-≡ old new start (suc n) k h l = elim (Bool-cases (k == n)) [
  | inl e ↦ ground (
    arith,
    ap (λ (t : ℕ). old (start + t)) ((==_iff k n).0 e),
    ap (λ (t : ℕ). new (start + t)) ((==_iff k n).0 e),
  )
  | inr e ↦ same_bytes-≡ old new start n k (ground arith) (ground arith)
]

same_bytes-≢ :
    (old new : Bytes) (start n : ℕ)
    → same_bytes old new start n ≡ false
    → (k : ℕ) × (k < n) × (old (start + k) ≢ new (start + k))
unfolding same_bytes
same_bytes-≢ old new start zero h = absurd cc
same_bytes-≢ old new start (suc n) h = elim (Bool-cases (old (start + n) == new (start + n))) [
  | inl e ↦ let (k, l, d) = same_bytes-≢ old new start n (ground arith) in (k, omega arith, d)
  | inr e ↦ (n, omega arith, λ p. ground arith)
]

pub rows_apart : (stride y q : ℕ) → y < q → y * stride + stride ≤ q * stride
rows_apart stride y q l = grind arith

pub rows_mono : (stride y q : ℕ) → y ≤ q → y * stride ≤ q * stride
rows_mono stride y q l = grind arith

module _ (new : Bytes) (stride lo width : ℕ) (fits : lo + width ≤ stride) where
  -- An offset of a row lies in the line of another row only if they are the same.
  in_line :
      (y q c : ℕ)
      → c < stride
      → (leb (y * stride + lo) (q * stride + c) && ltb (q * stride + c) (y * stride + lo + width))
        ≡ (q == y && (leb lo c && ltb c (lo + width)))
  in_line y q c l = ground (
    arith,
    rows_apart stride y q,
    rows_apart stride q y,
    λ (e : q ≡ y). ap (λ (t : ℕ). t * stride) e,
    fits,
  )

  -- The bytes of a line that is the same.
  same_line :
      (old : Bytes) (y q c : ℕ)
      → same_bytes old new (y * stride + lo) width ≡ true
      → (q == y && (leb lo c && ltb c (lo + width))) ≡ true
      → old (q * stride + c) ≡ new (q * stride + c)
  same_line old y q c same h =
      let e : q ≡ y = ground arith in
      let at : y * stride + lo + (c - lo) ≡ y * stride + c = ground arith in
      rw e (
        sym (ap old at)
        ∙ same_bytes-≡ old new (y * stride + lo) width (c - lo) same (ground arith)
        ∙ ap new at)

  -- A line is the new one afterwards, and nothing else has changed.
  update_line_bytes :
      (s : Bytes × Bool) (y q c : ℕ)
      → c < stride
      → (update_line new stride width s (y * stride + lo)).0 (q * stride + c) ≡ (
          if q == y && (leb lo c && ltb c (lo + width))
          then new (q * stride + c)
          else s.0 (q * stride + c))
  unfolding update_line
  update_line_bytes (old, dirty) y q c l =
      elim (Bool-cases (same_bytes old new (y * stride + lo) width)) [
        | inl same ↦ rw same (
            if_either (λ b. old (q * stride + c) ≡ b) (q == y && (leb lo c && ltb c (lo + width))) _
              _ (same_line old y q c same) (λ h. refl))
        | inr differ ↦ rw differ (unfold copy_bytes in rw (in_line y q c l))
      ]

  -- The lines from row `y` are the new ones afterwards, and nothing else has changed.
  pub update_lines_bytes :
      (n : ℕ) (s : Bytes × Bool) (y q c : ℕ)
      → c < stride
      → (update_lines new stride width n s (y * stride + lo)).0 (q * stride + c) ≡ (
          if leb y q && ltb q (y + n) && (leb lo c && ltb c (lo + width))
          then new (q * stride + c)
          else s.0 (q * stride + c))
  unfolding update_lines
  update_lines_bytes zero s y q c l = ground arith
  update_lines_bytes (suc n) s y q c l =
      let next : y * stride + lo + stride ≡ suc y * stride + lo = grind arith in
      rw (next, update_lines)
        (update_lines_bytes n (update_line new stride width s (y * stride + lo)) (suc y) q c l
          ∙ ground (arith, update_line_bytes s y q c l))

  update_line_same :
      (s : Bytes × Bool) (start : ℕ)
      → same_bytes s.0 new start width ≡ true
      → update_line new stride width s start ≡ s
  unfolding update_line
  update_line_same (old, dirty) start e = rw (e, update_line)

  update_line_differ :
      (s : Bytes × Bool) (start : ℕ)
      → same_bytes s.0 new start width ≡ false
      → update_line new stride width s start ≡ (copy_bytes s.0 new start width, true)
  unfolding update_line
  update_line_differ (old, dirty) start e = rw (e, update_line)

  update_lines_dirty :
      (n : ℕ) (old : Bytes) (start : ℕ)
      → (update_lines new stride width n (old, true) start).1 ≡ true
  unfolding update_lines update_line
  update_lines_dirty zero old start = refl
  update_lines_dirty (suc n) old start = elim (Bool-cases (same_bytes old new start width)) [
    | inl same ↦ rw (same, update_lines, update_line) (update_lines_dirty n old (start + stride))
    | inr differ ↦
        rw (differ, update_lines, update_line)
          (update_lines_dirty n (copy_bytes old new start width) (start + stride))
  ]

  -- Where no line was found to differ, nothing has changed.
  pub update_lines_clean :
      (n : ℕ) (old : Bytes) (start : ℕ)
      → (update_lines new stride width n (old, false) start).1 ≡ false
      → (update_lines new stride width n (old, false) start).0 ≡ old
  unfolding update_lines update_line
  update_lines_clean zero old start h = refl
  update_lines_clean (suc n) old start h = elim (Bool-cases (same_bytes old new start width)) [
    | inl same ↦
        subst
          (λ t.
            (update_lines new stride width n t (start + stride)).1 ≡ false
            → (update_lines new stride width n t (start + stride)).0 ≡ old)
          (sym (update_line_same (old, false) start same))
          (update_lines_clean n old (start + stride)) h
    | inr differ ↦
        let d = update_lines_dirty n (copy_bytes old new start width) (start + stride) in
        absurd (
          subst (λ t. (update_lines new stride width n t (start + stride)).1 ≡ false → ⊥)
            (sym (update_line_differ (old, false) start differ)) (λ k. ground (arith, d, k)) h)
  ]

  -- Where one was found to differ, some byte of the lines does.
  pub update_lines_differ :
      (n : ℕ) (old : Bytes) (y : ℕ)
      → (update_lines new stride width n (old, false) (y * stride + lo)).1 ≡ true
      → (q c : ℕ) × (y ≤ q)
        × (q < y + n)
        × (lo ≤ c)
        × (c < lo + width)
        × (old (q * stride + c) ≢ new (q * stride + c))
  unfolding update_lines update_line
  update_lines_differ zero old y h = absurd cc
  update_lines_differ (suc n) old y h =
      elim (Bool-cases (same_bytes old new (y * stride + lo) width)) [
        | inl same ↦
            let next : y * stride + lo + stride ≡ suc y * stride + lo = grind arith in
            let (q, c, below, above, left, right, d) = update_lines_differ n old (suc y) (
              subst
                (λ (t : Bytes × Bool).
                  (update_lines new stride width n t (suc y * stride + lo)).1 ≡ true)
                (update_line_same (old, false) _ same)
                (subst
                  (λ t.
                    (update_lines new stride width n
                      (update_line new stride width (old, false) (y * stride + lo)) t).1
                    ≡ true)
                  next h)) in
            (q, c, omega arith, omega arith, left, right, d)
        | inr differ ↦
            let (k, l, d) = same_bytes-≢ old new (y * stride + lo) width differ in
            let place : y * stride + lo + k ≡ y * stride + (lo + k) = omega arith in
            (
              y,
              lo + k,
              omega arith,
              omega arith,
              omega arith,
              omega arith,
              λ e. d (ap old place ∙ e ∙ sym (ap new place)),
            )
      ]
