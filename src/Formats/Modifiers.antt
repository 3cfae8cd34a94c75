-- ===== src/Formats/Modifiers.antt =====
-- get_modifiers_set and get_drawable_modifiers of drmmode_display.c: the modifiers that the CRTCs list
-- for a format. The planes that gbm needs for a format and a modifier are a parameter; the memory that
-- realloc gives is an answer for each size.
pub mod Members
use xserver_xorg_video_loong.Base.{
  ℕ, suc, ◌+◌, Bool, true, false, not, ◌&&◌, ◌||◌, List, [], ◌∷◌, ◌++◌, Option, none, some, ◌==◌,
  ltb, if◌then◌else◌, ◌>>=◌, length,
}
use xserver_xorg_video_loong.Formats.{get_opaque_format, Format, CrtcFormats, contains}

module _ (plane_count : (format modifier : ℕ) → ℕ) (got_memory : (size : ℕ) → Bool) where
  -- The loop over the modifiers of one entry; none where memory runs out.
  unfoldable pub add_modifiers :
      (exclude_multiplane : Bool) (format : ℕ) → List ℕ → List ℕ → Option (List ℕ)
  unfolding contains
  add_modifiers exclude_multiplane format [] found = some found
  add_modifiers exclude_multiplane format (m ∷ ms) found =
      let skip = exclude_multiplane && ltb 1 (plane_count format m) in
      let kept = add_modifiers exclude_multiplane format ms found in
      let grown = add_modifiers exclude_multiplane format ms (found ++ (m ∷ [])) in
      if skip || contains m found
      then kept
      else if got_memory (suc (length found))
      then grown
      else none

  -- The loop over the formats of a CRTC.
  unfoldable pub add_formats :
      (exclude_multiplane : Bool) (format : ℕ) → List Format → List ℕ → Option (List ℕ)
  unfolding add_modifiers
  add_formats exclude_multiplane format [] found = some found
  add_formats exclude_multiplane format (f ∷ fs) found =
      (if f.format == format
        then add_modifiers exclude_multiplane format f.modifiers found
        else some found)
      >>= λ found. add_formats exclude_multiplane format fs found

  unfoldable pub add_crtcs :
      (enabled_crtc_only exclude_multiplane : Bool) (format : ℕ)
      → List CrtcFormats
      → List ℕ
      → Option (List ℕ)
  unfolding add_formats
  add_crtcs enabled_crtc_only exclude_multiplane format [] found = some found
  add_crtcs enabled_crtc_only exclude_multiplane format (c ∷ cs) found =
      (if enabled_crtc_only && not c.enabled
        then some found
        else add_formats exclude_multiplane format c.formats found)
      >>= λ found. add_crtcs enabled_crtc_only exclude_multiplane format cs found

  -- get_modifiers_set; without memory there are no modifiers.
  unfoldable pub get_modifiers_set :
      List CrtcFormats → (format : ℕ) (enabled_crtc_only exclude_multiplane : Bool) → List ℕ
  unfolding add_crtcs get_opaque_format
  get_modifiers_set crtcs format enabled_crtc_only exclude_multiplane =
      elim (add_crtcs enabled_crtc_only exclude_multiplane (get_opaque_format format) crtcs []) [
        | none ↦ []
        | some found ↦ found
      ]

  -- get_drawable_modifiers: none for a drawable that cannot be flipped.
  unfoldable pub get_drawable_modifiers :
      (can_window_flip pageflip dri2_flipping vt_sema : Bool)
      → List CrtcFormats
      → (format : ℕ) → List ℕ
  unfolding get_modifiers_set
  get_drawable_modifiers can_window_flip pageflip dri2_flipping vt_sema crtcs format =
      if not can_window_flip || not pageflip || dri2_flipping || not vt_sema
      then []
      else get_modifiers_set crtcs format true false
