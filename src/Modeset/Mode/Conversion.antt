-- ===== src/Modeset/Mode/Conversion.antt =====
-- What the conversions of modes keep.
use xserver_xorg_video_loong.Base.{
  ℕ, zero, suc, ◌%◌, ◌^◌, ◌<◌, ◌≡◌, refl, List, [], ◌∷◌, arith, ◌==◌, length, All, Bool-cases, inl,
  inr, ◌≢◌,
}
use xserver_xorg_video_loong.Modeset.Mode.{
  mode_len, KMode, c_string, strncpy, terminate, convert_from_kmode, convert_to_kmode,
}

-- The numbers fit their fields.
pub record IsInRange (k : KMode) : Type 0 where
  pub clock : k.clock < 2 ^ 32
  pub hdisplay : k.hdisplay < 2 ^ 16
  pub hsync_start : k.hsync_start < 2 ^ 16
  pub hsync_end : k.hsync_end < 2 ^ 16
  pub htotal : k.htotal < 2 ^ 16
  pub hskew : k.hskew < 2 ^ 16
  pub vdisplay : k.vdisplay < 2 ^ 16
  pub vsync_start : k.vsync_start < 2 ^ 16
  pub vsync_end : k.vsync_end < 2 ^ 16
  pub vtotal : k.vtotal < 2 ^ 16
  pub vscan : k.vscan < 2 ^ 16
  pub flags : k.flags < 2 ^ 32

-- No character is the byte 0.
abbrev IsString : List ℕ → Type 0
IsString = All (λ c. c ≢ 0)

c_string-IsString : (bs : List ℕ) → IsString (c_string bs)
unfolding c_string
c_string-IsString [] = tt
c_string-IsString (b ∷ bs) = elim (Bool-cases (b == 0)) [
  | inl e ↦ rw e tt
  | inr e ↦ rw e (ground arith, c_string-IsString bs)
]

-- An array of zeros holds the empty string.
zeros : (n : ℕ) → c_string (terminate (strncpy n [])) ≡ []
unfolding c_string terminate strncpy
zeros zero = refl
zeros (suc zero) = refl
zeros (suc (suc n)) = refl

terminate-cons :
    (n c : ℕ) (cs : List ℕ)
    → terminate (c ∷ strncpy (suc n) cs) ≡ c ∷ terminate (strncpy (suc n) cs)
unfolding terminate strncpy
terminate-cons n c [] = refl
terminate-cons n c (d ∷ cs) = refl

-- A string shorter than the array comes back out of it.
strncpy-c_string :
    (n : ℕ) (cs : List ℕ) → IsString cs → length cs < n → c_string (terminate (strncpy n cs)) ≡ cs
unfolding c_string terminate strncpy
strncpy-c_string zero cs s l = absurd (omega (arith, l))
strncpy-c_string (suc n) [] s l = zeros (suc n)
strncpy-c_string (suc zero) (c ∷ cs) s l = absurd (omega (arith, l))
strncpy-c_string (suc (suc n)) (c ∷ cs) (z, s) l =
    rw (terminate-cons n c cs) (ground (arith, strncpy-c_string (suc n) cs s (omega (arith, l))))

fits_32 : (x : ℕ) → x < 2 ^ 32 → x % 2 ^ 32 ≡ x
fits_32 x h = omega arith

fits_16 : (x : ℕ) → x < 2 ^ 16 → x % 2 ^ 16 ≡ x
fits_16 x h = omega arith

-- The mode with the string of the name alone in the array, without its type and refresh rate.
abbrev pub without_type : KMode → KMode
without_type k = record k {
  mode_type = 0;
  vrefresh = 0;
  name = terminate (strncpy mode_len (c_string k.name));
}

-- If the name of a kernel's mode has its end in the array, the conversion to a mode of the server and
-- back keeps the name and every number but the type and the refresh rate, which become 0.
pub convert_to_kmode-from_kmode :
    (k : KMode)
    → IsInRange k
    → length (c_string k.name) < mode_len
    → (convert_to_kmode (convert_from_kmode k) ≡ without_type k)
      × (c_string (convert_to_kmode (convert_from_kmode k)).name ≡ c_string k.name)
unfolding convert_to_kmode convert_from_kmode
convert_to_kmode-from_kmode k r l = (
  rw
      (
        fits_32 k.clock r.clock,
        fits_32 k.flags r.flags,
        fits_16 k.hdisplay r.hdisplay,
        fits_16 k.hsync_start r.hsync_start,
        fits_16 k.hsync_end r.hsync_end,
        fits_16 k.htotal r.htotal,
        fits_16 k.hskew r.hskew,
        fits_16 k.vdisplay r.vdisplay,
        fits_16 k.vsync_start r.vsync_start,
        fits_16 k.vsync_end r.vsync_end,
        fits_16 k.vtotal r.vtotal,
        fits_16 k.vscan r.vscan,
      )
      refl,
  strncpy-c_string mode_len (c_string k.name) (c_string-IsString k.name) l,
)
