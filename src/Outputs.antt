-- ===== src/Outputs.antt =====
-- The RandR properties of an output: drmmode_property_ignore, drmmode_output_create_resources and
-- drmmode_output_set_property of src/drmmode_display.c. The atoms of names, both ways, are parameters;
-- what RandR is told of a property (RRConfigureOutputProperty, RRChangeOutputProperty) is the
-- server's.
pub mod Requests
pub mod Paths
use xserver_xorg_video_loong.Base.{
  ℕ, Bool, true, false, not, ◌&&◌, ◌||◌, Option, none, some, List, [], ◌∷◌, ◌==◌, if◌then◌else◌,
  ◌>>=◌,
}
use xserver_xorg_video_loong.Modeset.Properties.{Name, same, enum_named}

-- drmModePropertyRes, with the tests of its flags and the names and values of its enums.
pub record ModeProp : Type 0 where
  pub prop_id : ℕ
  pub name : Name
  pub blob : Bool
  pub range : Bool
  pub enumerated : Bool
  pub enums : List (Name × ℕ)

-- drmmode_prop_rec, with the first of its atoms where it has any.
pub record OutputProp : Type 0 where
  pub mode_prop : ModeProp
  pub value : ℕ
  pub first_atom : Option ℕ

-- "EDID", "DPMS" and "CRTC_ID".
abbrev pub edid_name : Name
edid_name = b'E' ∷ b'D' ∷ b'I' ∷ b'D' ∷ []

abbrev pub dpms_name : Name
dpms_name = b'D' ∷ b'P' ∷ b'M' ∷ b'S' ∷ []

abbrev pub crtc_id_name : Name
crtc_id_name = b'C' ∷ b'R' ∷ b'T' ∷ b'C' ∷ b'_' ∷ b'I' ∷ b'D' ∷ []

unfoldable pub property_ignore : Option ModeProp → Bool
property_ignore none = true
property_ignore (some p) =
    p.blob || same p.name edid_name || same p.name dpms_name || same p.name crtc_id_name

module _ (make_atom : Name → ℕ) (got_atoms : ModeProp → Bool) where
  -- The atoms of a property: those of a range or of an enumeration, where there is memory.
  unfoldable pub name_prop : ModeProp → (value : ℕ) → OutputProp
  name_prop p value = record {
    mode_prop = p;
    value = value;
    first_atom = if (p.range || p.enumerated) && got_atoms p then some (make_atom p.name) else none;
  }

  -- The two loops over the properties of the connector, with what the kernel says of each.
  unfoldable pub keep_props : List (Option ModeProp × ℕ) → List OutputProp
  unfolding property_ignore name_prop
  keep_props [] = []
  keep_props ((none, value) ∷ props) = keep_props props
  keep_props ((some p, value) ∷ props) =
      let rest = keep_props props in
      if property_ignore (some p) then rest else name_prop p value ∷ rest

  -- drmmode_output_create_resources; the Bool is whether there is memory for the list.
  unfoldable pub create_resources :
      (got_props : Bool) → List (Option ModeProp × ℕ) → List OutputProp
  unfolding keep_props
  create_resources got_props props = if got_props then keep_props props else []

-- RRPropertyValueRec, with the tests of its type, and the first 32 bits of its data.
pub data Kind : Type 0 where
  integer atom other : Kind

pub record PropertyValue : Type 0 where
  pub kind : Kind
  pub format : ℕ
  pub size : ℕ
  pub word : ℕ

unfoldable pub is_integer : Kind → Bool
is_integer integer = true
is_integer atom = false
is_integer other = false

unfoldable pub is_atom : Kind → Bool
is_atom integer = false
is_atom atom = true
is_atom other = false

-- What the kernel is asked for, an id and a value, with the answer of the function.
abbrev pub Answer : Type 0
Answer = Option (ℕ × ℕ) × Bool

unfoldable pub set_range : ModeProp → PropertyValue → Answer
unfolding is_integer
set_range p v =
    if not (is_integer v.kind) || not (v.format == 32) || not (v.size == 1)
    then (none, false)
    else (some (p.prop_id, v.word), true)

module _ (name_for_atom : ℕ → Option Name) where
  -- A name that the enumeration lacks leaves it to the properties that follow.
  unfoldable pub set_named : ModeProp → Name → Option Answer → Option Answer
  unfolding enum_named
  set_named p n rest = elim (enum_named n p.enums) [
    | none ↦ rest
    | some value ↦ some (some (p.prop_id, value), true)
  ]

  unfoldable pub set_enum : ModeProp → PropertyValue → Option Answer → Option Answer
  unfolding is_atom set_named
  set_enum p v rest =
      if not (is_atom v.kind) || not (v.format == 32) || not (v.size == 1)
      then some (none, false)
      else elim (name_for_atom v.word) [ none ↦ some (none, false) | some n ↦ set_named p n rest ]

  -- The body of the loop for the property that the atom names.
  unfoldable pub set_prop : ModeProp → PropertyValue → Option Answer → Option Answer
  unfolding set_range set_enum
  set_prop p v rest =
      if p.range then some (set_range p v) else if p.enumerated then set_enum p v rest else rest

  -- drmmode_output_set_property; none is a list of atoms that is not there.
  unfoldable pub output_set_property :
      List OutputProp → (property : ℕ) → PropertyValue → Option Answer
  unfolding set_prop
  output_set_property [] property v = some (none, true)
  output_set_property (p ∷ ps) property v =
      let rest = output_set_property ps property v in
      p.first_atom >>= λ a. if a == property then set_prop p.mode_prop v rest else rest
