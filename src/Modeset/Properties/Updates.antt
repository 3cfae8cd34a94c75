-- ===== src/Modeset/Properties/Updates.antt =====
-- What the tables of properties say after drmmode_prop_info_update of src/drmmode_display.c.
use xserver_xorg_video_loong.Base.{
  ℕ, suc, ◌≡◌, refl, ◌⊎◌, inl, inr, true, false, Option, none, some, List, [], ◌∷◌, arith, ◌==◌,
  if◌then◌else◌, if_either, Bool-cases, Option-cases, All, All-map, In, Ensures,
}
use mathlib.Core.Path.{subst}
use xserver_xorg_video_loong.Modeset.Properties.{
  Name, same, EnumValue, PropInfo, PropertyRes, enum_named, fill_value, fill_values, fill_info,
  fill_named, is_known, is_incomplete, Mask, Step, known, complete, lookup, step_of, look_up,
  update_from, prop_info_update,
}

abbrev pub IsInvalid : EnumValue → Type 0
IsInvalid e = e.valid ≡ false

-- A table before its first update.
abbrev pub IsFresh : PropInfo → Type 0
IsFresh info = (info.prop_id ≡ 0) × All IsInvalid info.enum_values

-- The raw value that a property of the kernel gives a name.
abbrev pub kernel_value : PropertyRes → Name → Option ℕ
kernel_value prop n = if prop.is_enum then enum_named n prop.enums else none

-- A value is valid exactly if the kernel's property gives the name a raw value, and then has that.
abbrev pub IsExact : PropertyRes → EnumValue → Type 0
IsExact prop e = kernel_value prop e.name ≡ (if e.valid then some e.value else none)

fill_value-exact :
    (enums : List (Name × ℕ)) (e : EnumValue)
    → IsInvalid e
    → let f = fill_value enums e in
      enum_named f.name enums ≡ (if f.valid then some f.value else none)
unfolding fill_value
fill_value-exact enums e h = elim (Option-cases (enum_named e.name enums)) [
  | inl gone ↦ rw (h, gone, fill_value) (rw h gone)
  | inr (v, there) ↦ rw (h, there, fill_value) there
]

fill_values-exact :
    (enums : List (Name × ℕ)) (es : List EnumValue)
    → All IsInvalid es
    → All
        (λ f. enum_named f.name enums ≡ (if f.valid then some f.value else none))
        (fill_values enums es)
unfolding fill_values
fill_values-exact enums [] h = tt
fill_values-exact enums (e ∷ es) (i, h) = (fill_value-exact enums e i, fill_values-exact enums es h)

stored-IsExact :
    (prop : PropertyRes) (es : List EnumValue)
    → All IsInvalid es
    → All (IsExact prop) (if prop.is_enum then fill_values prop.enums es else es)
stored-IsExact prop es h =
    if_either (All (IsExact prop)) prop.is_enum (fill_values prop.enums es) es
      (λ e. All-map (λ f k. rw e k) (fill_values prop.enums es) (fill_values-exact prop.enums es h))
      (λ e. All-map (λ f k. rw (e, k) refl) es h)

pub step_cases : (s : Step) → (s ≡ known) ⊎ ((s ≡ complete) ⊎ (s ≡ lookup))
step_cases known = inl refl
step_cases complete = inr (inl refl)
step_cases lookup = inr (inr refl)

pub step_of-known :
    (id : ℕ) (infos : List PropInfo) → step_of id infos ≡ known → is_known id infos ≡ true
unfolding step_of
step_of-known id infos h = ground (arith, h)

pub step_of-complete :
    (id : ℕ) (infos : List PropInfo) → step_of id infos ≡ complete → is_incomplete infos ≡ false
unfolding step_of
step_of-complete id infos h = ground (arith, h)

pub step_of-lookup :
    (id : ℕ) (infos : List PropInfo) → step_of id infos ≡ lookup → is_known id infos ≡ false
unfolding step_of
step_of-lookup id infos h = ground (arith, h)

module _ (get_property : ℕ → Option PropertyRes) where
  -- What the fill of a table with an id it does not have keeps, an update keeps.
  abbrev pub Keeps : (PropInfo → Type 0) → ℕ → Type 0
  Keeps P id =
      (prop : PropertyRes) (info : PropInfo)
      → get_property id ≡ some prop
      → same prop.name info.name ≡ true
      → (info.prop_id == id) ≡ false
      → P info
      → P (fill_info id prop info)

  abbrev pub AllAfter : (PropInfo → Type 0) → Option (List PropInfo × ℕ) → Type 0
  AllAfter P = Ensures (λ (r : List PropInfo × ℕ). All P r.0)

  AllAfter-cons :
      (P : PropInfo → Type 0) (info : PropInfo) (o : Option (List PropInfo × ℕ))
      → P info
      → AllAfter P o
      → AllAfter P (elim o [ none ↦ none | some (filled, j) ↦ some (info ∷ filled, suc j) ])
  AllAfter-cons P info none r h = tt
  AllAfter-cons P info (some (filled, j)) r h = (r, h)

  module _ (P : PropInfo → Type 0) where
    pub fill_named-All :
        (id : ℕ) (prop : PropertyRes) (infos : List PropInfo)
        → Keeps P id
        → get_property id ≡ some prop
        → is_known id infos ≡ false
        → All P infos
        → AllAfter P (fill_named id prop infos)
    unfolding fill_named is_known
    fill_named-All id prop [] k e u h = tt
    fill_named-All id prop (info ∷ infos) k e u (r, h) =
        let mine : (info.prop_id == id) ≡ false = ground (arith, u) in
        let rest : is_known id infos ≡ false = ground (arith, u) in
        elim (Bool-cases (same prop.name info.name)) [
          | inl n ↦ rw n (k prop info e n mine r, h)
          | inr n ↦ rw n (
              AllAfter-cons P info (fill_named id prop infos) r
                (fill_named-All id prop infos k e rest h))
        ]

    pub look_up-All :
        (id : ℕ) (infos : List PropInfo) (mask : Mask)
        → Keeps P id
        → is_known id infos ≡ false
        → All P infos
        → All P (look_up get_property id infos mask).0
    unfolding look_up
    look_up-All id infos mask k u h = elim (Option-cases (get_property id)) [
      | inl e ↦ rw (e, look_up) h
      | inr (prop, e) ↦ elim (Option-cases (fill_named id prop infos)) [
        | inl f ↦ rw (e, f, look_up) h
        | inr ((filled, j), f) ↦
            rw (e, f, look_up) (subst (AllAfter P) f (fill_named-All id prop infos k e u h))
      ]
    ]

    pub update_from-All :
        (infos : List PropInfo) (mask : Mask) (ids : List ℕ)
        → ((id : ℕ) → In id ids → Keeps P id)
        → All P infos
        → All P (update_from get_property infos mask ids).0
    unfolding update_from
    update_from-All infos mask [] k h = h
    update_from-All infos mask (id ∷ ids) k h = elim (step_cases (step_of id infos)) [
      | inl e ↦ rw (e, update_from) (update_from-All infos mask ids (λ j m. k j (inr m)) h)
      | inr (inl e) ↦ rw (e, update_from) h
      | inr (inr e) ↦
          rw (e, update_from)
            (update_from-All (look_up get_property id infos mask).0
              (look_up get_property id infos mask).1 ids (λ j m. k j (inr m))
              (look_up-All id infos mask (k id (inl refl)) (step_of-lookup id infos e) h))
    ]

  module _ (all : List ℕ) where
    -- The property of the object with the id has the name, and its values are those of the table.
    abbrev pub IsFound : PropInfo → PropertyRes → Type 0
    IsFound info prop =
        In info.prop_id all
        × (get_property info.prop_id ≡ some prop)
        × (same prop.name info.name ≡ true)
        × All (IsExact prop) info.enum_values

    abbrev pub IsResolved : PropInfo → Type 0
    IsResolved info = IsFresh info ⊎ ((prop : PropertyRes) × IsFound info prop)

    -- No two properties of the object have the same name.
    abbrev pub HasUniqueNames : Type 0
    HasUniqueNames =
        (i j : ℕ) (p q : PropertyRes) (n : Name)
        → In i all
        → In j all
        → get_property i ≡ some p
        → get_property j ≡ some q
        → same p.name n ≡ true
        → same q.name n ≡ true
        → i ≡ j

    pub Keeps-IsResolved : HasUniqueNames → (id : ℕ) → In id all → Keeps IsResolved id
    unfolding fill_info
    Keeps-IsResolved u id m prop info e n other (inl (z, fresh)) =
        inr (prop, (m, e, n, stored-IsExact prop info.enum_values fresh))
    Keeps-IsResolved u id m prop info e n other (inr (p, (m', e', n', g))) =
        let agree : info.prop_id ≡ id = u info.prop_id id p prop info.name m' m e' e n' n in
        absurd (ground (arith, agree, other))

    pub prop_info_update-IsResolved :
        (infos : List PropInfo)
        → HasUniqueNames
        → All IsFresh infos
        → All IsResolved (prop_info_update get_property infos all).0
    unfolding prop_info_update
    prop_info_update-IsResolved infos u h =
        update_from-All IsResolved infos (λ j. false) all (Keeps-IsResolved u)
          (All-map (λ info f. inl f) infos h)
