-- ===== src/Formats/Support.antt =====
-- When a buffer may be shown on all CRTCs.
use xserver_xorg_video_loong.Base.{
  ℕ, ◌≡◌, ◌≢◌, refl, ◌↔◌, ◌⊎◌, Bool, true, false, ◌||◌, List, [], ◌∷◌, arith, ◌==◌, All,
}
use xserver_xorg_video_loong.Formats.{
  mod_invalid, get_opaque_format, Format, CrtcFormats, contains, found_in, is_empty, has_no_formats,
  all_support, is_format_supported,
}

-- A value is in a list.
abbrev pub Holds : ℕ → List ℕ → Type 0
Holds m [] = ⊥
Holds m (x ∷ xs) = (x ≡ m) ⊎ Holds m xs

-- An entry admits a modifier if it lists it, or lists none, or the buffer has none.
abbrev pub Admits : ℕ → Format → Type 0
Admits modifier f = (modifier ≡ mod_invalid) ⊎ ((f.modifiers ≡ []) ⊎ Holds modifier f.modifiers)

-- The first entry with the format admits the modifier.
abbrev pub FirstAdmits : ℕ → ℕ → List Format → Type 0
FirstAdmits format modifier [] = ⊥
FirstAdmits format modifier (f ∷ fs) =
    ((f.format ≡ format) × Admits modifier f)
    ⊎ ((f.format ≢ format) × FirstAdmits format modifier fs)

-- A CRTC that is off, or lists no format, does not matter.
abbrev pub Supports : ℕ → ℕ → CrtcFormats → Type 0
Supports format modifier c =
    (c.enabled ≡ false) ⊎ ((c.formats ≡ []) ⊎ FirstAdmits format modifier c.formats)

contains-Holds : (m : ℕ) (xs : List ℕ) → (contains m xs ≡ true) ↔ Holds m xs
unfolding contains
contains-Holds m [] = (λ h. cc, λ h. elim h [ ])
contains-Holds m (x ∷ xs) = ground (arith, contains-Holds m xs)

admits : ℕ → Format → Bool
admits modifier f = modifier == mod_invalid || is_empty f.modifiers || contains modifier f.modifiers

admits-Admits : (modifier : ℕ) (f : Format) → (admits modifier f ≡ true) ↔ Admits modifier f
unfolding admits is_empty
admits-Admits modifier f = ground (arith, contains-Holds modifier f.modifiers)

found_in-FirstAdmits :
    (format modifier : ℕ) (fs : List Format)
    → (found_in format modifier fs ≡ true) ↔ FirstAdmits format modifier fs
unfolding found_in admits
found_in-FirstAdmits format modifier [] = (λ h. cc, λ h. elim h [ ])
found_in-FirstAdmits format modifier (f ∷ fs) =
    ground (arith, admits-Admits modifier f, found_in-FirstAdmits format modifier fs)

all_support-Supports :
    (format modifier : ℕ) (cs : List CrtcFormats)
    → (all_support format modifier cs ≡ true) ↔ All (Supports format modifier) cs
unfolding all_support has_no_formats
all_support-Supports format modifier [] = (λ h. tt, λ h. refl)
all_support-Supports format modifier (c ∷ cs) =
    ground (
      arith,
      found_in-FirstAdmits format modifier c.formats,
      all_support-Supports format modifier cs,
    )

-- A format and modifier are supported exactly if every CRTC is off, lists no format at all, or has a
-- first entry with the opaque form of the format that admits the modifier.
pub is_format_supported-Supports :
    (cs : List CrtcFormats) (format modifier : ℕ)
    → (is_format_supported cs format modifier ≡ true)
      ↔ All (Supports (get_opaque_format format) modifier) cs
unfolding is_format_supported
is_format_supported-Supports cs format modifier =
    all_support-Supports (get_opaque_format format) modifier cs
