-- ===== src/Vblank/Covering.antt =====
-- Which CRTC shows a drawable, in vblank.c: ms_first_output, ms_covering_xf86_crtc,
-- ms_covering_randr_crtc, ms_dri2_crtc_covering_drawable and ms_randr_crtc_covering_drawable.
-- Pointers to RRCrtcRec are numbers. A screen owns the slave screens of its list, so that the
-- functions recur on it.
pub mod Choice
use xserver_xorg_video_loong.Base.{
  ℕ, Bool, true, false, ◌&&◌, ◌||◌, Option, none, some, List, [], ◌∷◌, ◌==◌, if◌then◌else◌, is_some,
  ℤ, pos, ltb_ℤ,
}
use xserver_xorg_video_loong.Vblank.Box.{
  Box, box_intersect, box_area, Crtc, crtc_on, box_at, crtc_box, RandrCrtc, randr_crtc_box,
}

-- An RROutputRec: its CRTC, and whether its pScreen is the screen that asks.
pub record Output : Type 0 where
  pub crtc : Option ℕ
  pub is_here : Bool

-- The rrScrPriv of a screen.
pub record ScrPriv : Type 0 where
  pub primary_output : Option Output
  pub crtcs : List ℕ
  pub outputs : List Output

-- The inner loop: the first output on this CRTC.
unfoldable pub output_on : ℕ → List Output → Option Output
output_on crtc [] = none
output_on crtc (o ∷ os) =
    let rest = output_on crtc os in
    elim o.crtc [ none ↦ rest | some c ↦ if c == crtc then some o else rest ]

unfoldable pub first_of_crtcs : List ℕ → List Output → Option Output
first_of_crtcs [] outputs = none
first_of_crtcs (c ∷ cs) outputs =
    let rest = first_of_crtcs cs outputs in
    elim (output_on c outputs) [ none ↦ rest | some o ↦ some o ]

is_usable : Output → Bool
is_usable o = is_some o.crtc && o.is_here

unfoldable pub first_output : Option ScrPriv → Option Output
unfolding is_usable
first_output none = none
first_output (some p) =
    let search = first_of_crtcs p.crtcs p.outputs in
    elim p.primary_output [ none ↦ search | some o ↦ if is_usable o then some o else search ]

module _ (C : Type 0) where
  -- `crtcs` is none where the source finds no configuration, and `priv` where RandR keeps none for
  -- the screen. `owner` follows an RRCrtcRec to the CRTC that is returned.
  pub record ScreenInfo : Type 0 where
    pub crtcs : Option (List C)
    pub is_gpu : Bool
    pub priv : Option ScrPriv
    pub owner : ℕ → C

  -- A screen with its slave_list; the flag of a slave is is_output_slave.
  mutual
    pub data Screen : Type 0 where
      screen : ScreenInfo → Slaves → Screen

    pub data Slaves : Type 0 where
      nil : Slaves
      cons : Bool → Screen → Slaves → Slaves

module _ {C : Type 0} where
  -- The loop over the CRTCs, with the best one so far and its coverage.
  unfoldable pub scan : (C → Bool) → (C → ℤ) → Option C → ℤ → List C → Option C
  scan on coverage best best_coverage [] = best
  scan on coverage best best_coverage (c ∷ cs) =
      let better = on c && ltb_ℤ best_coverage (coverage c) in
      scan on coverage (if better then some c else best)
        (if better then coverage c else best_coverage) cs

  -- The CRTC of the primary output, if that is on.
  unfoldable pub primary : (C → Bool) → ScreenInfo C → Option C
  primary ms_on s = elim (first_output s.priv) [
    | none ↦ none
    | some o ↦ elim o.crtc [
      | none ↦ none
      | some rr ↦ if ms_on (s.owner rr) then some (s.owner rr) else none
    ]
  ]

  -- The two functions differ in how a CRTC counts as on: `ms_on` where the screen is driven by this
  -- driver, `other_on` where it is not.
  module _ (ms_on other_on : C → Bool) (box_of : C → Box) (box : Box) where
    abbrev coverage_of : C → ℤ
    coverage_of c = box_area (box_intersect (box_of c) box)

    fall_back : ScreenInfo C → Bool → Option C → Option C
    fall_back s covered (some best) = some best
    fall_back s covered none =
        if s.is_gpu
        then none
        else elim (primary ms_on s) [ none ↦ none | some c ↦ if covered then some c else none ]

    -- `covered` says whether an output slave covers the box.
    choose : ScreenInfo C → Bool → Bool → Option C
    unfolding fall_back
    choose s covered is_ms = elim s.crtcs [
      | none ↦ none
      | some cs ↦
          fall_back s covered (scan (if is_ms then ms_on else other_on) coverage_of none (pos 0) cs)
    ]

    unfoldable mutual
      unfolding choose

      pub covering : Screen C → Bool → Option C
      covering (screen s slaves) is_ms = choose s (any_covering slaves) is_ms

      pub any_covering : Slaves C → Bool
      any_covering nil = false
      any_covering (cons is_output_slave s rest) =
          (is_output_slave && is_some (covering s false)) || any_covering rest

-- A DrawableRec.
pub record Drawable : Type 0 where
  pub x : ℤ
  pub y : ℤ
  pub width : ℕ
  pub height : ℕ

abbrev pub drawable_box : Drawable → Box
drawable_box d = box_at d.x d.y d.width d.height

unfoldable pub covering_xf86_crtc : Screen Crtc → Box → Bool → Option Crtc
unfolding covering
covering_xf86_crtc s box is_ms = covering crtc_on (λ c. c.enabled) crtc_box box s is_ms

unfoldable pub covering_randr_crtc : Screen RandrCrtc → Box → Bool → Option RandrCrtc
unfolding covering
covering_randr_crtc s box is_ms =
    covering (λ c. crtc_on c.dev_private) (λ c. is_some c.mode) randr_crtc_box box s is_ms

unfoldable pub dri2_crtc_covering_drawable : Screen Crtc → Drawable → Option Crtc
unfolding covering_xf86_crtc
dri2_crtc_covering_drawable s d = covering_xf86_crtc s (drawable_box d) true

unfoldable pub randr_crtc_covering_drawable : Screen RandrCrtc → Drawable → Option RandrCrtc
unfolding covering_randr_crtc
randr_crtc_covering_drawable s d = covering_randr_crtc s (drawable_box d) true
