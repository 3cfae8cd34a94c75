-- ===== src/Formats.antt =====
-- get_opaque_format and drmmode_is_format_supported of drmmode_display.c.
pub mod Support
pub mod Modifiers
use xserver_xorg_video_loong.Base.{
  ℕ, ◌+◌, ◌*◌, ◌^◌, Bool, true, false, not, ◌&&◌, ◌||◌, List, [], ◌∷◌, ◌==◌, if◌then◌else◌,
}

-- The four characters of a DRM format, as fourcc_code packs them.
abbrev fourcc_code : ℕ → ℕ → ℕ → ℕ → ℕ
fourcc_code a b c d = a + b * 2 ^ 8 + c * 2 ^ 16 + d * 2 ^ 24

abbrev pub argb8888 : ℕ
argb8888 = fourcc_code b'A' b'R' b'2' b'4'

abbrev pub xrgb8888 : ℕ
xrgb8888 = fourcc_code b'X' b'R' b'2' b'4'

abbrev pub argb2101010 : ℕ
argb2101010 = fourcc_code b'A' b'R' b'3' b'0'

abbrev pub xrgb2101010 : ℕ
xrgb2101010 = fourcc_code b'X' b'R' b'3' b'0'

-- DRM_FORMAT_MOD_INVALID.
abbrev pub mod_invalid : ℕ
mod_invalid = 0x00ff_ffff_ffff_ffff

unfoldable pub get_opaque_format : ℕ → ℕ
get_opaque_format format =
    if format == argb8888 then xrgb8888 else if format == argb2101010 then xrgb2101010 else format

-- drmmode_format_rec.
pub record Format : Type 0 where
  pub format : ℕ
  pub modifiers : List ℕ

-- What the function reads of a CRTC.
pub record CrtcFormats : Type 0 where
  pub enabled : Bool
  pub formats : List Format

unfoldable pub contains : ℕ → List ℕ → Bool
contains m [] = false
contains m (x ∷ xs) = x == m || contains m xs

is_empty : List ℕ → Bool
is_empty [] = true
is_empty (x ∷ xs) = false

-- The loop over the formats of one CRTC, which stops at the first with the format.
unfoldable pub found_in : (format modifier : ℕ) → List Format → Bool
unfolding contains is_empty
found_in format modifier [] = false
found_in format modifier (f ∷ fs) =
    let rest = found_in format modifier fs in
    if f.format == format
    then modifier == mod_invalid || is_empty f.modifiers || contains modifier f.modifiers
    else rest

has_no_formats : CrtcFormats → Bool
has_no_formats c = elim c.formats [ [] ↦ true | _ ↦ false ]

-- The loop over the CRTCs, for an opaque format.
unfoldable pub all_support : (format modifier : ℕ) → List CrtcFormats → Bool
unfolding found_in has_no_formats
all_support format modifier [] = true
all_support format modifier (c ∷ cs) =
    let rest = all_support format modifier cs in
    if not c.enabled || has_no_formats c then rest else found_in format modifier c.formats && rest

unfoldable pub is_format_supported : List CrtcFormats → (format modifier : ℕ) → Bool
unfolding all_support get_opaque_format
is_format_supported crtcs format modifier = all_support (get_opaque_format format) modifier crtcs
