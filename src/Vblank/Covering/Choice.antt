-- ===== src/Vblank/Covering/Choice.antt =====
-- Which CRTC the functions of Covering choose.
use xserver_xorg_video_loong.Base.{
  ◌≡◌, refl, ◌⊎◌, inl, inr, Bool, true, false, ◌&&◌, Option, none, some, List, [], ◌∷◌, ◌++◌, arith,
  is_some, if◌then◌else◌, Bool-cases, Option-cases, All, ℤ, pos, ltb_ℤ, ◌≤ℤ◌, ◌<ℤ◌,
}
use xserver_xorg_video_loong.Vblank.Box.{Box, Crtc, RandrCrtc, crtc_on, crtc_box, randr_crtc_box}
use xserver_xorg_video_loong.Vblank.Covering.{
  Screen, Slaves, ScreenInfo, screen, scan, primary, coverage_of, fall_back, choose, covering,
  any_covering, Drawable, drawable_box, dri2_crtc_covering_drawable, randr_crtc_covering_drawable,
}

module _ {C : Type 0} (on : C → Bool) (coverage : C → ℤ) where
  -- A CRTC that is on covers at most, or less than, a given area.
  abbrev pub AtMost : ℤ → C → Type 0
  AtMost t d = on d ≡ true → coverage d ≤ℤ t

  abbrev pub LessThan : ℤ → C → Type 0
  LessThan t d = on d ≡ true → coverage d <ℤ t

  -- The choice `r` is the first among those of greatest coverage, which is above `t`.
  abbrev pub Chosen : ℤ → List C → Option C → Type 0
  Chosen t cs r =
      (xs : List C) × (c : C) × (ys : List C) × (cs ≡ xs ++ c ∷ ys)
      × (r ≡ some c)
      × (on c ≡ true)
      × (t <ℤ coverage c)
      × All (LessThan (coverage c)) xs
      × All (AtMost (coverage c)) ys

  scan_choice :
      (best : Option C) (t : ℤ) (cs : List C)
      → ((scan on coverage best t cs ≡ best) × All (AtMost t) cs)
        ⊎ Chosen t cs (scan on coverage best t cs)
  unfolding scan
  scan_choice best t [] = inl (refl, tt)
  scan_choice best t (c ∷ cs) = elim (Bool-cases (on c && ltb_ℤ t (coverage c))) [
    | inl better ↦ rw better (elim (scan_choice (some c) (coverage c) cs) [
      | inl (e, low) ↦ inr ([], c, cs, refl, e, ground arith, ground arith, tt, low)
      | inr (xs, d, ys, split, e, lit, more, less, low) ↦
          inr (c ∷ xs, d, ys, ground arith, e, lit, ground arith, ((λ _. more), less), low)
    ])
    | inr worse ↦ rw worse (elim (scan_choice best t cs) [
      | inl (e, low) ↦ inl (e, ((λ lit. ground arith), low))
      | inr (xs, d, ys, split, e, lit, more, less, low) ↦
          inr (c ∷ xs, d, ys, ground arith, e, lit, more, ((λ lit'. ground arith), less), low)
    ])
  ]

module _ {C : Type 0} (ms_on other_on : C → Bool) (box_of : C → Box) (box : Box) where
  primary_on : (s : ScreenInfo C) (c : C) → primary ms_on s ≡ some c → ms_on c ≡ true
  unfolding primary
  primary_on s c h = ground arith

  -- What the function gives where no CRTC of the screen covers the box: the primary CRTC, and only
  -- for a screen that is no GPU and has an output slave that covers the box.
  abbrev pub FallsBack : ScreenInfo C → Slaves C → Option C → Type 0
  FallsBack s slaves r =
      (r ≡ none)
      ⊎ ((c : C) × (r ≡ some c)
          × (s.is_gpu ≡ false)
          × (primary ms_on s ≡ some c)
          × (any_covering ms_on other_on box_of box slaves ≡ true))

  fall_back_lem :
      (s : ScreenInfo C) (slaves : Slaves C)
      → FallsBack s slaves (
          fall_back ms_on other_on box_of box s
            (any_covering ms_on other_on box_of box slaves)
            none)
  unfolding fall_back
  fall_back_lem s slaves = elim (Option-cases (primary ms_on s)) [
    | inl e ↦ inl (ground arith)
    | inr (c, e) ↦ elim (Bool-cases s.is_gpu) [
      | inl gpu ↦ inl (ground arith)
      | inr own ↦ elim (Bool-cases (any_covering ms_on other_on box_of box slaves)) [
        | inl hit ↦ inr (c, ground arith, own, e, hit)
        | inr miss ↦ inl (ground arith)
      ]
    ]
  ]

  choose_lem :
      (s : ScreenInfo C) (cs : List C) (covered is_ms : Bool)
      → s.crtcs ≡ some cs
      → choose ms_on other_on box_of box s covered is_ms
        ≡ fall_back ms_on other_on box_of box s covered (
            scan
              (if is_ms then ms_on else other_on)
              (coverage_of ms_on other_on box_of box)
              none
              (pos 0)
              cs)
  unfolding choose
  choose_lem s cs covered is_ms e = ground arith

  -- Either some CRTC covers a part of the box, and `r` is the first of those that are on and cover
  -- most of it; or none does, and `r` is what the fallback gives.
  abbrev pub IsChoice : ScreenInfo C → Slaves C → List C → Bool → Option C → Type 0
  IsChoice s slaves cs is_ms r =
      Chosen (if is_ms then ms_on else other_on) (coverage_of ms_on other_on box_of box) (pos 0) cs
        r
      ⊎ (All
            (AtMost (if is_ms then ms_on else other_on) (coverage_of ms_on other_on box_of box)
              (pos 0))
            cs
          × FallsBack s slaves r)

  -- Where the screen has CRTCs, the result is the first of those that are on and cover most of the
  -- box; or none of them covers any of it, and the result is the one of the fallback: none, or for
  -- a screen that is no GPU and has an output slave that covers the box, its primary CRTC.
  pub covering-IsChoice :
      (s : ScreenInfo C) (slaves : Slaves C) (cs : List C) (is_ms : Bool)
      → s.crtcs ≡ some cs
      → IsChoice s slaves cs is_ms (covering ms_on other_on box_of box (screen s slaves) is_ms)
  unfolding covering fall_back
  covering-IsChoice s slaves cs is_ms e =
      let on = if is_ms then ms_on else other_on in
      let coverage = coverage_of ms_on other_on box_of box in
      let covered = any_covering ms_on other_on box_of box slaves in
      rw (choose_lem s cs covered is_ms e) (elim (scan_choice on coverage none (pos 0) cs) [
        | inl (e', low) ↦ rw e' (inr (low, fall_back_lem s slaves))
        | inr (xs, c, ys, split, e', lit, more, less, low) ↦
            rw e' (inl (xs, c, ys, split, refl, lit, more, less, low))
      ])

  covering-none :
      (s : ScreenInfo C) (slaves : Slaves C) (is_ms : Bool)
      → s.crtcs ≡ none
      → covering ms_on other_on box_of box (screen s slaves) is_ms ≡ none
  unfolding covering
  covering-none s slaves is_ms e = ground arith

  covering_on :
      (s : Screen C) (c : C) → covering ms_on other_on box_of box s true ≡ some c → ms_on c ≡ true
  covering_on (screen s slaves) c h = elim (Option-cases s.crtcs) [
    | inl e ↦ cc (covering-none s slaves true e)
    | inr (cs, e) ↦ elim (covering-IsChoice s slaves cs true e) [
      | inl (xs, d, ys, split, r, lit, more, less, low) ↦ ground arith
      | inr (low, inl r) ↦ cc
      | inr (low, inr (d, r, own, p, hit)) ↦ ground (arith, primary_on s d p)
    ]
  ]

-- A CRTC that either search returns for a drawable is enabled and in DPMS mode on, the fallback to
-- the primary CRTC included.
pub covering_drawable_on :
    (s : Screen Crtc) (t : Screen RandrCrtc) (d : Drawable) (c : Crtc) (r : RandrCrtc)
    → dri2_crtc_covering_drawable s d ≡ some c
    → randr_crtc_covering_drawable t d ≡ some r
    → (crtc_on c ≡ true) × (crtc_on r.dev_private ≡ true)
unfolding dri2_crtc_covering_drawable randr_crtc_covering_drawable
covering_drawable_on s t d c r h k = (
  covering_on crtc_on (λ x. x.enabled) crtc_box (drawable_box d) s c h,
  covering_on (λ x. crtc_on x.dev_private) (λ x. is_some x.mode) randr_crtc_box (drawable_box d) t r
      k,
)
