-- ===== src/Present/Conditions.antt =====
-- When the Present extension may flip.
use xserver_xorg_video_loong.Base.{
  ℕ, ◌+◌, ◌<◌, ◌≡◌, refl, ◌↔◌, ◌⊎◌, inr, true, false, ◌||◌, Option, none, some, List, [], ◌∷◌,
  arith, if◌then◌else◌, All,
}
use xserver_xorg_video_loong.Formats.{get_opaque_format}
use xserver_xorg_video_loong.Formats.Support.{Supports, is_format_supported-Supports}
use xserver_xorg_video_loong.Present.{
  CrtcState, FlipState, count_on, buffer_supported, check_unflip, check_flip,
}

abbrev pub ons : List CrtcState → ℕ
ons [] = 0
ons (c ∷ cs) = (if c.on then 1 else 0) + ons cs

abbrev pub IsUpright : CrtcState → Type 0
IsUpright c = c.rotated ≡ false

count_on_cases :
    (cs : List CrtcState) (n : ℕ)
    → ((count_on cs n ≡ none) × ¬ All IsUpright cs)
      ⊎ ((count_on cs n ≡ some (n + ons cs)) × All IsUpright cs)
unfolding count_on
count_on_cases [] n = inr (ground arith, tt)
count_on_cases (c ∷ cs) n = ground (arith, count_on_cases cs (if c.on then n + 1 else n))

-- The buffer, if there is one, can be shown by every active CRTC.
abbrev pub BufferFits : FlipState → Option (ℕ × ℕ) → Type 0
BufferFits s none = Unit {0}
BufferFits s (some (format, modifier)) =
    All (Supports (get_opaque_format format) modifier) s.crtc_formats

buffer_supported-BufferFits :
    (s : FlipState) (b : Option (ℕ × ℕ))
    → s.buffer ≡ b
    → (buffer_supported s ≡ true) ↔ BufferFits s b
unfolding buffer_supported
buffer_supported-BufferFits s none e = (λ h. tt, λ h. ground arith)
buffer_supported-BufferFits s (some (format, modifier)) e =
    let (there, back) = is_format_supported-Supports s.crtc_formats format modifier in
    (λ h. there (ground arith), λ h. ground (arith, back h))

-- All that must hold but the format of the buffer.
pub record IsReady (s : FlipState) : Type 0 where
  pub enabled : s.pageflip ≡ true
  pub not_dri2 : s.dri2_flipping ≡ false
  pub owns_vt : s.vt_sema ≡ true
  pub upright : All IsUpright s.crtcs
  pub some_on : 0 < ons s.crtcs
  pub same_pitch : (s.atomic_modeset ≡ true) ⊎ (s.pixmap_pitch ≡ s.front_pitch)

check_unflip_ready :
    (s : FlipState)
    → IsReady s
    → check_unflip s ≡ (if buffer_supported s then (true, false) else (false, true))
unfolding check_unflip
check_unflip_ready s r = ground (arith, count_on_cases s.crtcs 0)

IsReady-of_answer : (s : FlipState) → ((check_unflip s).0 || (check_unflip s).1) ≡ true → IsReady s
unfolding check_unflip
IsReady-of_answer s h = ground (arith, count_on_cases s.crtcs 0)

-- ms_present_check_flip allows a flip exactly if no sprite is visible, flips are on, DRI2 is not
-- flipping, the VT is ours, no CRTC is rotated, some CRTC is on, the pitch stays or modesetting is
-- atomic, and every active CRTC can show the format of the buffer.
pub check_flip_iff :
    (s : FlipState)
    → ((check_flip s).0 ≡ true) ↔ ((s.sprites_visible ≡ 0) × IsReady s × BufferFits s s.buffer)
unfolding check_flip
check_flip_iff s =
    let (there, back) = buffer_supported-BufferFits s s.buffer refl in
    (
      λ h.
          let r : IsReady s = IsReady-of_answer s (ground arith) in
          (ground arith, r, there (ground (arith, check_unflip_ready s r))),
      λ (none_visible, r, fits). ground (arith, check_unflip_ready s r, back fits),
    )

-- The reason for a refusal is the format of the buffer exactly if no sprite is visible, all else is
-- ready, and the buffer does not fit.
pub check_flip_reason :
    (s : FlipState)
    → ((check_flip s).1 ≡ true) ↔ ((s.sprites_visible ≡ 0) × IsReady s × ¬ BufferFits s s.buffer)
unfolding check_flip
check_flip_reason s =
    let (there, back) = buffer_supported-BufferFits s s.buffer refl in
    (
      λ h.
          let r : IsReady s = IsReady-of_answer s (ground arith) in
          (ground arith, r, λ fits. ground (arith, check_unflip_ready s r, back fits)),
      λ (none_visible, r, unfit). ground (arith, check_unflip_ready s r, there),
    )
