-- ===== src/Modeset/Mode.antt =====
-- drmmode_ConvertFromKMode and drmmode_ConvertToKMode of drmmode_display.c. The timings that
-- xf86SetModeCrtc derives from a mode are left to the server.
pub mod Conversion
use xserver_xorg_video_loong.Base.{
  ℕ, zero, suc, ◌+◌, ◌/◌, ◌%◌, ◌^◌, Bool, true, false, ◌&&◌, Option, none, some, List, [], ◌∷◌,
  ◌==◌, if◌then◌else◌,
}

-- DRM_DISPLAY_MODE_LEN.
abbrev pub mode_len : ℕ
mode_len = 32

-- drmModeModeInfo: the numbers are 16 bits wide but the clock, vrefresh, flags and type, and the
-- name is an array of mode_len bytes.
pub record KMode : Type 0 where
  pub clock : ℕ
  pub hdisplay : ℕ
  pub hsync_start : ℕ
  pub hsync_end : ℕ
  pub htotal : ℕ
  pub hskew : ℕ
  pub vdisplay : ℕ
  pub vsync_start : ℕ
  pub vsync_end : ℕ
  pub vtotal : ℕ
  pub vscan : ℕ
  pub vrefresh : ℕ
  pub flags : ℕ
  pub mode_type : ℕ
  pub name : List ℕ

-- DisplayModeRec; a name is the list of its characters.
pub record DisplayMode : Type 0 where
  pub clock : ℕ
  pub hdisplay : ℕ
  pub hsync_start : ℕ
  pub hsync_end : ℕ
  pub htotal : ℕ
  pub hskew : ℕ
  pub vdisplay : ℕ
  pub vsync_start : ℕ
  pub vsync_end : ℕ
  pub vtotal : ℕ
  pub vscan : ℕ
  pub flags : ℕ
  pub mode_type : ℕ
  pub name : Option (List ℕ)

-- The string in an array of bytes, as strdup reads it.
unfoldable pub c_string : List ℕ → List ℕ
c_string [] = []
c_string (b ∷ bs) = let rest = c_string bs in if b == 0 then [] else b ∷ rest

-- The bytes that strncpy writes: at most n of the string, and zeros up to n.
unfoldable pub strncpy : (n : ℕ) → List ℕ → List ℕ
strncpy zero cs = []
strncpy (suc n) [] = 0 ∷ strncpy n []
strncpy (suc n) (c ∷ cs) = c ∷ strncpy n cs

-- The last byte of the array becomes 0.
unfoldable pub terminate : List ℕ → List ℕ
terminate [] = []
terminate (b ∷ []) = 0 ∷ []
terminate (b ∷ c ∷ bs) = b ∷ terminate (c ∷ bs)

-- The type of the server for the DRIVER and PREFERRED bits of the kernel's type.
unfoldable pub type_of : ℕ → ℕ
type_of t = (if t / 64 % 2 == 1 then 64 else 0) + (if t / 8 % 2 == 1 then 8 else 0)

unfoldable pub convert_from_kmode : KMode → DisplayMode
unfolding c_string type_of
convert_from_kmode k = record {
  clock = k.clock;
  hdisplay = k.hdisplay;
  hsync_start = k.hsync_start;
  hsync_end = k.hsync_end;
  htotal = k.htotal;
  hskew = k.hskew;
  vdisplay = k.vdisplay;
  vsync_start = k.vsync_start;
  vsync_end = k.vsync_end;
  vtotal = k.vtotal;
  vscan = k.vscan;
  flags = k.flags;
  mode_type = type_of k.mode_type;
  name = some (c_string k.name);
}

abbrev pub name_or_empty : Option (List ℕ) → List ℕ
name_or_empty none = []
name_or_empty (some n) = n

unfoldable pub convert_to_kmode : DisplayMode → KMode
unfolding strncpy terminate
convert_to_kmode m = record {
  clock = m.clock % 2 ^ 32;
  hdisplay = m.hdisplay % 2 ^ 16;
  hsync_start = m.hsync_start % 2 ^ 16;
  hsync_end = m.hsync_end % 2 ^ 16;
  htotal = m.htotal % 2 ^ 16;
  hskew = m.hskew % 2 ^ 16;
  vdisplay = m.vdisplay % 2 ^ 16;
  vsync_start = m.vsync_start % 2 ^ 16;
  vsync_end = m.vsync_end % 2 ^ 16;
  vtotal = m.vtotal % 2 ^ 16;
  vscan = m.vscan % 2 ^ 16;
  vrefresh = 0;
  flags = m.flags % 2 ^ 32;
  mode_type = 0;
  name = terminate (strncpy mode_len (name_or_empty m.name));
}

unfoldable pub same_bytes : List ℕ → List ℕ → Bool
same_bytes [] [] = true
same_bytes (a ∷ xs) (b ∷ ys) = a == b && same_bytes xs ys
same_bytes _ _ = false

-- drmmode_CompareKModes is 0.
unfoldable pub compare_kmodes : KMode → KMode → Bool
unfolding same_bytes
compare_kmodes k o =
    k.clock == o.clock
    && k.hdisplay == o.hdisplay
    && k.hsync_start == o.hsync_start
    && k.hsync_end == o.hsync_end
    && k.htotal == o.htotal
    && k.hskew == o.hskew
    && k.vdisplay == o.vdisplay
    && k.vsync_start == o.vsync_start
    && k.vsync_end == o.vsync_end
    && k.vtotal == o.vtotal
    && k.vscan == o.vscan
    && k.vrefresh == o.vrefresh
    && k.flags == o.flags
    && k.mode_type == o.mode_type
    && same_bytes k.name o.name
