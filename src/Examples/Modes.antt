-- ===== src/Examples/Modes.antt =====
-- Runs of mode setting: a property table, a mode, a laptop panel and a monitor.
use xserver_xorg_video_loong.Base.{
  ◌+◌, ℕ, ◌≡◌, ◌≢◌, refl, true, false, Option, none, some, List, [], ◌∷◌, arith, ◌==◌, Bool-cases,
  if◌then◌else◌, All, inl, inr, length, Ensures, ◌<◌,
}
use xserver_xorg_video_loong.Modeset.Properties.{Name, PropInfo, PropertyRes, prop_info_update}
use xserver_xorg_video_loong.Modeset.Properties.Updates.{HasUniqueNames}
use xserver_xorg_video_loong.Modeset.Properties.Lookup.{NamesRaw, prop_get_value-NamesRaw}
use xserver_xorg_video_loong.Modeset.Properties.Copies.{prop_info_copy, prop_info_free, Memory}
use xserver_xorg_video_loong.Modeset.Properties.Copies.Balance.{prop_info_copy-free}
use xserver_xorg_video_loong.Modeset.Mode.{
  mode_len, KMode, c_string, convert_from_kmode, convert_to_kmode,
}
use xserver_xorg_video_loong.Modeset.Mode.Conversion.{
  IsInRange, without_type, convert_to_kmode-from_kmode,
}
use xserver_xorg_video_loong.Modeset.Atomic.{
  crtc_active, crtc_mode_id, screen, Crtc, Output, Kernel, CrtcProp,
}
use xserver_xorg_video_loong.Modeset.Crtc.{State, crtc_set_mode}
use xserver_xorg_video_loong.Modeset.Crtc.Sync.{HasIds, EndsInSync, crtc_set_mode-InSync}
use xserver_xorg_video_loong.Modeset.Major.{Asked, set_mode_major, crtc_destroy}
use xserver_xorg_video_loong.Modeset.Major.Outcomes.{IsSettled, tried, set_mode_major-IsSettled}
use xserver_xorg_video_loong.Modeset.Major.Blobs.{take_modes, all_made, crtc_destroy-take_modes}

abbrev dpms_name : Name
dpms_name = b'D' ∷ b'P' ∷ b'M' ∷ b'S' ∷ []

abbrev dpms_property : PropertyRes
dpms_property = record {
  name = dpms_name;
  is_enum = true;
  enums = (b'O' ∷ b'n' ∷ [], 0) ∷ (b'O' ∷ b'f' ∷ b'f' ∷ [], 3) ∷ [];
}

-- The kernel has one property, DPMS with the values On and Off.
abbrev one_property : ℕ → Option PropertyRes
one_property id = if id == 7 then some dpms_property else none

abbrev dpms_table : List PropInfo
dpms_table =
    record {
      name = dpms_name;
      prop_id = 0;
      enum_values =
          record { name = b'O' ∷ b'f' ∷ b'f' ∷ []; valid = false; value = 0 }
          ∷ record { name = b'O' ∷ b'n' ∷ []; valid = false; value = 0 }
          ∷ [];
    }
    ∷ []

one_property_id : (i : ℕ) (p : PropertyRes) → one_property i ≡ some p → i ≡ 7
one_property_id i p h = elim (Bool-cases (i == 7)) [
  | inl e ↦ ground arith
  | inr e ↦ let gone : one_property i ≡ none = rw e refl in absurd cc
]

one_property-HasUniqueNames : HasUniqueNames one_property (7 ∷ [])
one_property-HasUniqueNames i j p q n mi mj e f s t =
    omega (arith, one_property_id i p e, one_property_id j q f)

prop_get_value-NamesRaw_example :
    All
      (λ info.
        info.enum_values ≢ []
        → (props : List (ℕ × ℕ)) (def : ℕ) → NamesRaw one_property (7 ∷ []) info props def)
      (prop_info_update one_property dpms_table (7 ∷ [])).0
prop_get_value-NamesRaw_example =
    prop_get_value-NamesRaw one_property (7 ∷ []) dpms_table one_property-HasUniqueNames
      (λ k m. elim m [ inl e ↦ omega (arith, e) | inr m' ↦ absurd m' ]) (tt, tt)
      ((refl, (refl, (refl, tt))), tt)

abbrev no_memory : Memory
no_memory p = false

prop_info_copy-free_example :
    let c = prop_info_copy false dpms_table (some 5 ∷ []) no_memory in
    (c.ok ≡ false → (q : ℕ) → c.memory q ≡ no_memory q)
    × (c.ok ≡ true
        → (n : Memory) × (prop_info_free c.slots c.memory ≡ some n) × ((q : ℕ) → n q ≡ no_memory q))
prop_info_copy-free_example =
    prop_info_copy-free false dpms_table (some 5 ∷ []) no_memory (refl, tt)

abbrev kmode : KMode
kmode = record {
  clock = 65000;
  hdisplay = 1024;
  hsync_start = 1048;
  hsync_end = 1184;
  htotal = 1344;
  hskew = 0;
  vdisplay = 768;
  vsync_start = 771;
  vsync_end = 777;
  vtotal = 806;
  vscan = 0;
  vrefresh = 60;
  flags = 10;
  mode_type = 72;
  name = b'X' ∷ b'G' ∷ b'A' ∷ 0 ∷ b'?' ∷ [];
}

kmode-IsInRange : IsInRange kmode
kmode-IsInRange = record {
  clock = omega arith;
  hdisplay = omega arith;
  hsync_start = omega arith;
  hsync_end = omega arith;
  htotal = omega arith;
  hskew = omega arith;
  vdisplay = omega arith;
  vsync_start = omega arith;
  vsync_end = omega arith;
  vtotal = omega arith;
  vscan = omega arith;
  flags = omega arith;
}

kmode_shorter : length (c_string kmode.name) < mode_len
unfolding c_string
kmode_shorter = omega arith

convert_to_kmode-from_kmode_example :
    (convert_to_kmode (convert_from_kmode kmode) ≡ without_type kmode)
    × (c_string (convert_to_kmode (convert_from_kmode kmode)).name ≡ c_string kmode.name)
convert_to_kmode-from_kmode_example =
    convert_to_kmode-from_kmode kmode kmode-IsInRange kmode_shorter

-- A kernel that takes everything, and one that refuses all commits.
abbrev willing : Kernel
willing = record {
  got_request = true;
  accepts = λ assigns a. true;
  got_mode = λ c. true;
  create_blob = λ c info. some 90;
  add_fb = some 77;
  commits = λ test_only assigns. true;
  got_output_ids = true;
  sets_crtc = λ r. true;
}

abbrev refusing : Kernel
refusing = record willing { commits = λ test_only assigns. false }

abbrev props : CrtcProp → ℕ
props crtc_active = 20
props crtc_mode_id = 21

abbrev crtc : Crtc
crtc = record {
  address = 1;
  crtc_id = 40;
  props = props;
  plane_id = 30;
  props_plane = λ p. 25;
  mode = convert_from_kmode kmode;
  x = 0;
  y = 0;
  rotation = 1;
  enabled = true;
  active = true;
  dpms_mode = 0;
  need_modeset = false;
  current_mode = none;
  mode_list = [];
  scanout = screen 0;
}

abbrev output : ℕ → Option ℕ → Option ℕ → Output
output id c current = record {
  output_id = id;
  crtc_id_prop = 22;
  has_connector = true;
  dpms = 3;
  crtc = c;
  current_crtc = current;
}

-- The panel moves from the CRTC 41 to 40, and the monitor goes off.
abbrev desk : State
desk = record {
  atomic = true;
  fb_id = 50;
  outputs = output 60 (some 1) (some 2) ∷ output 61 none (some 1) ∷ [];
  crtc = crtc;
  others = record crtc { address = 2; crtc_id = 41; plane_id = 31 } ∷ [];
  requests = [];
}

abbrev id_of : ℕ → ℕ
id_of a = a + 39

abbrev before : ℕ → ℕ → ℕ
before object prop = if object == 60 then 41 else 40

desk-HasIds : HasIds id_of desk
desk-HasIds = record {
  own = refl;
  distinct = ((λ real. omega arith, tt), (tt, tt));
  separate = (
    λ real. (omega arith, omega arith, (omega arith, tt)),
    (λ real. (omega arith, omega arith, (omega arith, tt)), tt),
  );
}

crtc_set_mode-InSync_example : EndsInSync willing id_of before (crtc_set_mode willing desk false)
crtc_set_mode-InSync_example =
    crtc_set_mode-InSync willing id_of before desk false refl desk-HasIds
      (λ real. refl, (λ real. refl, tt))

abbrev asked : Asked
asked = record { mode = some (convert_from_kmode kmode); rotation = 2; x = 5; y = 6 }

set_mode_major-IsSettled_example :
    Ensures
      (IsSettled desk.crtc (tried desk.crtc asked))
      (set_mode_major willing refusing desk true asked)
set_mode_major-IsSettled_example = set_mode_major-IsSettled willing refusing desk true asked

crtc_destroy-take_modes_example :
    (crtc_destroy true (take_modes crtc ((willing, kmode) ∷ []))).1
    ≡ all_made crtc ((willing, kmode) ∷ [])
crtc_destroy-take_modes_example =
    crtc_destroy-take_modes crtc ((willing, kmode) ∷ []) ((λ a info id h. ground arith), tt) refl
