-- ===== src/Modeset/Properties.antt =====
-- The properties of kernel objects in drmmode_display.c: drmmode_prop_info_update,
-- drmmode_prop_get_value, drmmode_prop_info_copy and drmmode_prop_info_free. A table is a list of
-- records; drmModeGetProperty and malloc answer as arguments.
pub mod Updates
pub mod Missing
pub mod Lookup
pub mod Copies
use xserver_xorg_video_loong.Base.{
  ℕ, zero, suc, ◌+◌, ◌-◌, Bool, true, false, not, ◌&&◌, ◌||◌, Option, none, some, List, [], ◌∷◌,
  map, length, ◌==◌, if◌then◌else◌,
}

-- A name is the list of its characters.
abbrev pub Name : Type 0
Name = List ℕ

-- strcmp is 0.
unfoldable pub same : Name → Name → Bool
same [] [] = true
same (a ∷ m) (b ∷ n) = a == b && same m n
same _ _ = false

-- drmmode_prop_enum_info_rec.
pub record EnumValue : Type 0 where
  pub name : Name
  pub valid : Bool
  pub value : ℕ

-- drmmode_prop_info_rec.
pub record PropInfo : Type 0 where
  pub name : Name
  pub prop_id : ℕ
  pub enum_values : List EnumValue

-- drmModePropertyRes: the enums are names with their values.
pub record PropertyRes : Type 0 where
  pub name : Name
  pub is_enum : Bool
  pub enums : List (Name × ℕ)

-- The inner loop of drmmode_prop_get_value, from the index `j`.
unfoldable pub find_enum : List EnumValue → (raw j : ℕ) → Option ℕ
find_enum [] raw j = none
find_enum (e ∷ es) raw j =
    let rest = find_enum es raw (suc j) in
    if not e.valid then rest else if not (e.value == raw) then rest else some j

-- What the function returns at a property of the object with the right id, none to go on.
unfoldable pub read_value : List EnumValue → (raw : ℕ) → Option ℕ
unfolding find_enum
read_value [] raw = some raw
read_value (e ∷ es) raw = find_enum (e ∷ es) raw 0

-- The outer loop: the properties of the object are ids with raw values.
unfoldable pub get_from : PropInfo → List (ℕ × ℕ) → (def : ℕ) → ℕ
unfolding read_value
get_from info [] def = def
get_from info ((id, raw) ∷ props) def =
    let rest = get_from info props def in
    if id == info.prop_id
    then elim (read_value info.enum_values raw) [ none ↦ rest | some v ↦ v ]
    else rest

unfoldable pub prop_get_value : PropInfo → List (ℕ × ℕ) → (def : ℕ) → ℕ
unfolding get_from
prop_get_value info props def = if info.prop_id == 0 then def else get_from info props def

-- The value that the kernel gives a name.
unfoldable pub enum_named : Name → List (Name × ℕ) → Option ℕ
enum_named n [] = none
enum_named n ((m, v) ∷ rest) = if same m n then some v else enum_named n rest

-- One round of the loop that fills the values.
unfoldable pub fill_value : List (Name × ℕ) → EnumValue → EnumValue
unfolding enum_named
fill_value enums e =
    if e.valid
    then e
    else elim (enum_named e.name enums) [ none ↦ e | some v ↦ record e { valid = true; value = v } ]

unfoldable pub fill_values : List (Name × ℕ) → List EnumValue → List EnumValue
unfolding fill_value
fill_values enums [] = []
fill_values enums (e ∷ es) = fill_value enums e ∷ fill_values enums es

-- What is stored in the table for the property that was found.
unfoldable pub fill_info : (id : ℕ) → PropertyRes → PropInfo → PropInfo
unfolding fill_values
fill_info id prop info = record info {
  prop_id = id;
  enum_values = if prop.is_enum then fill_values prop.enums info.enum_values else info.enum_values;
}

-- The first property of the table with the name, if any; its index is added to the mask.
unfoldable pub fill_named : (id : ℕ) → PropertyRes → List PropInfo → Option (List PropInfo × ℕ)
unfolding fill_info
fill_named id prop [] = none
fill_named id prop (info ∷ infos) =
    let rest = fill_named id prop infos in
    if same prop.name info.name
    then some (fill_info id prop info ∷ infos, 0)
    else elim rest [ none ↦ none | some (filled, j) ↦ some (info ∷ filled, suc j) ]

-- We've already discovered this property.
unfoldable pub is_known : ℕ → List PropInfo → Bool
is_known id [] = false
is_known id (info ∷ infos) = info.prop_id == id || is_known id infos

-- Some property of the table has no id yet.
unfoldable pub is_incomplete : List PropInfo → Bool
is_incomplete [] = false
is_incomplete (info ∷ infos) = info.prop_id == 0 || is_incomplete infos

-- The bits of the mask that are set.
abbrev pub Mask : Type 0
Mask = ℕ → Bool

unfoldable pub set_bit : ℕ → Mask → Mask
set_bit j mask i = i == j || mask i

-- Whether the loop goes on with the next property, stops, or looks this one up.
pub data Step : Type 0 where
  known complete lookup : Step

unfoldable pub step_of : ℕ → List PropInfo → Step
unfolding is_known is_incomplete
step_of id infos =
    if is_known id infos then known else if is_incomplete infos then lookup else complete

module _ (get_property : ℕ → Option PropertyRes) where
  -- The lookup: nothing changes for a property that is gone or not in the table.
  unfoldable pub look_up : (id : ℕ) → List PropInfo → Mask → List PropInfo × Mask
  unfolding fill_named set_bit
  look_up id infos mask = elim (get_property id) [
    | none ↦ (infos, mask)
    | some prop ↦ elim (fill_named id prop infos) [
      | none ↦ (infos, mask)
      | some (filled, j) ↦ (filled, set_bit j mask)
    ]
  ]

  -- drmmode_prop_info_update from the mask so far: the ids of the object's properties in their order.
  unfoldable pub update_from : List PropInfo → Mask → List ℕ → List PropInfo × Mask
  unfolding look_up step_of
  update_from infos mask [] = (infos, mask)
  update_from infos mask (id ∷ ids) = elim (step_of id infos) [
    | known ↦ update_from infos mask ids
    | complete ↦ (infos, mask)
    | lookup ↦ update_from (look_up id infos mask).0 (look_up id infos mask).1 ids
  ]

  unfoldable pub prop_info_update : List PropInfo → List ℕ → List PropInfo × Mask
  unfolding update_from
  prop_info_update infos ids = update_from infos (λ j. false) ids
