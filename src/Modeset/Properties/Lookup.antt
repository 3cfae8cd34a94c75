-- ===== src/Modeset/Properties/Lookup.antt =====
-- What drmmode_prop_get_value of src/drmmode_display.c makes of a table after
-- drmmode_prop_info_update.
use xserver_xorg_video_loong.Base.{
  ℕ, zero, suc, ◌+◌, ◌≡◌, refl, sym, ◌∙◌, ◌⊎◌, inl, inr, true, false, Option, none, some, List, [],
  ◌∷◌, arith, ◌==◌, Bool-cases, Option-cases, All, All-both, get_elem?, In, ◌≢◌, ==_iff,
}
use mathlib.Core.Path.{subst, ap}
use xserver_xorg_video_loong.Modeset.Properties.{
  same, EnumValue, PropInfo, PropertyRes, find_enum, read_value, get_from, prop_get_value,
  prop_info_update,
}
use xserver_xorg_video_loong.Modeset.Properties.Updates.{
  IsFresh, kernel_value, IsExact, IsResolved, HasUniqueNames, prop_info_update-IsResolved,
}
use xserver_xorg_video_loong.Modeset.Properties.Missing.{AreApart, prop_info_update-Lacks}

-- The value and the index that the inner loop found.
abbrev FindsAt : List EnumValue → (raw j r : ℕ) → Type 0
FindsAt es raw j r =
    (i : ℕ) × (e : EnumValue) × (r ≡ j + i)
    × (get_elem? es i ≡ some e)
    × (e.valid ≡ true)
    × (e.value ≡ raw)

FindsAt-cons :
    (e : EnumValue) (es : List EnumValue) (raw j r : ℕ)
    → FindsAt es raw (suc j) r
    → FindsAt (e ∷ es) raw j r
FindsAt-cons e es raw j r (i, f, n, g, v, k) = (suc i, f, omega arith, g, v, k)

find_enum-FindsAt :
    (es : List EnumValue) (raw j r : ℕ) → find_enum es raw j ≡ some r → FindsAt es raw j r
unfolding find_enum
find_enum-FindsAt [] raw j r h = absurd cc
find_enum-FindsAt (e ∷ es) raw j r h = elim (Bool-cases e.valid) [
  | inr off ↦ FindsAt-cons e es raw j r (find_enum-FindsAt es raw (suc j) r (ground arith))
  | inl on ↦ elim (Bool-cases (e.value == raw)) [
    | inr other ↦ FindsAt-cons e es raw j r (find_enum-FindsAt es raw (suc j) r (ground arith))
    | inl hit ↦ (0, e, ground arith, refl, on, ground arith)
  ]
]

get_elem?-All :
    (P : EnumValue → Type 0) (es : List EnumValue) (i : ℕ) (e : EnumValue)
    → All P es
    → get_elem? es i ≡ some e
    → P e
get_elem?-All P [] i e h g = absurd cc
get_elem?-All P (f ∷ es) zero e (p, h) g = let one : f ≡ e = cc in subst P one p
get_elem?-All P (f ∷ es) (suc i) e (p, h) g = get_elem?-All P es i e h g

-- The inner loop finds nothing: the kernel names none of the values for the raw value.
find_enum-none :
    (prop : PropertyRes) (es : List EnumValue) (raw j : ℕ)
    → find_enum es raw j ≡ none
    → All (IsExact prop) es
    → All (λ e. kernel_value prop e.name ≢ some raw) es
unfolding find_enum
find_enum-none prop [] raw j h x = tt
find_enum-none prop (e ∷ es) raw j h (x, xs) = elim (Bool-cases e.valid) [
  | inr off ↦ (
    λ k. let n : kernel_value prop e.name ≡ none = x ∙ rw off refl in cc (k, n),
    find_enum-none prop es raw (suc j) (ground (arith, h, off)) xs,
  )
  | inl on ↦ elim (Bool-cases (e.value == raw)) [
    | inl hit ↦ absurd (ground (arith, h, on, hit))
    | inr other ↦ (
      λ k.
          let v : some e.value ≡ some raw = sym (x ∙ rw on refl) ∙ k in
          let w : e.value ≡ raw = cc in ground (arith, w, other),
      find_enum-none prop es raw (suc j) (ground (arith, h, on, other)) xs,
    )
  ]
]

-- Where the outer loop finds its result, or that it finds none.
abbrev Sees : PropInfo → List (ℕ × ℕ) → (def r : ℕ) → Type 0
Sees info props def r =
    ((r ≡ def)
      × ((raw : ℕ) → In (info.prop_id, raw) props → read_value info.enum_values raw ≡ none))
    ⊎ ((raw : ℕ) × In (info.prop_id, raw) props × (read_value info.enum_values raw ≡ some r))

Sees-later :
    (info : PropInfo) (id raw : ℕ) (props : List (ℕ × ℕ)) (def r : ℕ)
    → ((v : ℕ) → ◌≡◌ {A = ℕ × ℕ} (id, raw) (info.prop_id, v) → read_value info.enum_values v ≡ none)
    → Sees info props def r
    → Sees info ((id, raw) ∷ props) def r
Sees-later info id raw props def r first (inl (e, silent)) =
    inl (e, λ v m. elim m [ inl k ↦ first v k | inr m' ↦ silent v m' ])
Sees-later info id raw props def r first (inr (v, m, f)) = inr (v, inr m, f)

get_from-Sees :
    (info : PropInfo) (props : List (ℕ × ℕ)) (def : ℕ)
    → Sees info props def (get_from info props def)
unfolding get_from
get_from-Sees info [] def = inl (refl, λ raw m. absurd m)
get_from-Sees info ((id, raw) ∷ props) def =
    let rest = get_from info props def in
    elim (Bool-cases (id == info.prop_id)) [
      | inr other ↦
          let differ : (v : ℕ)
              → ◌≡◌ {A = ℕ × ℕ} (id, raw) (info.prop_id, v)
              → read_value info.enum_values v ≡ none =
            λ v k.
              let at : id ≡ info.prop_id = ap (λ (p : ℕ × ℕ). p.0) k in
              absurd (ground (arith, at, other)) in
          rw (other, get_from)
            (Sees-later info id raw props def rest differ (get_from-Sees info props def))
      | inl own ↦
          let here : id ≡ info.prop_id = ground arith in
          elim (Option-cases (read_value info.enum_values raw)) [
            | inl e ↦
                let silent : (v : ℕ)
                    → ◌≡◌ {A = ℕ × ℕ} (id, raw) (info.prop_id, v)
                    → read_value info.enum_values v ≡ none =
                  λ v k.
                    let at : raw ≡ v = ap (λ (p : ℕ × ℕ). p.1) k in
                    subst (λ n. read_value info.enum_values n ≡ none) at e in
                rw (own, e, get_from)
                  (Sees-later info id raw props def rest silent (get_from-Sees info props def))
            | inr (v, e) ↦ inr (raw, inl (ap (λ n. (n, raw)) here), rw (own, get_from) (rw e refl))
          ]
    ]

prop_get_value-Sees :
    (info : PropInfo) (props : List (ℕ × ℕ)) (def : ℕ)
    → info.prop_id ≢ 0
    → Sees info props def (prop_get_value info props def)
unfolding prop_get_value
prop_get_value-Sees info props def nz = elim (Bool-cases (info.prop_id == 0)) [
  | inl e ↦ absurd (nz ((==_iff info.prop_id 0).0 e))
  | inr e ↦ rw e (get_from-Sees info props def)
]

read_value-FindsAt :
    (es : List EnumValue) (raw r : ℕ) → es ≢ [] → read_value es raw ≡ some r → FindsAt es raw 0 r
unfolding read_value
read_value-FindsAt [] raw r n h = absurd (n refl)
read_value-FindsAt (e ∷ es) raw r n h = find_enum-FindsAt (e ∷ es) raw 0 r h

read_value-none :
    (prop : PropertyRes) (es : List EnumValue) (raw : ℕ)
    → read_value es raw ≡ none
    → All (IsExact prop) es
    → All (λ e. kernel_value prop e.name ≢ some raw) es
unfolding read_value
read_value-none prop [] raw h x = tt
read_value-none prop (e ∷ es) raw h x = find_enum-none prop (e ∷ es) raw 0 h x

module _ (get_property : ℕ → Option PropertyRes) (ids : List ℕ) where
  -- The result is the default, and no raw value that the object has for the table's id has a name in
  -- the table; or it is the index of a name of the table to which the kernel gives such a raw value.
  abbrev pub ReadsRaw : PropInfo → List (ℕ × ℕ) → (def : ℕ) → PropertyRes → Type 0
  ReadsRaw info props def prop =
      ((prop_get_value info props def ≡ def)
        × ((raw : ℕ)
            → In (info.prop_id, raw) props
            → All (λ e. kernel_value prop e.name ≢ some raw) info.enum_values))
      ⊎ ((raw : ℕ) × (e : EnumValue) × In (info.prop_id, raw) props
          × (get_elem? info.enum_values (prop_get_value info props def) ≡ some e)
          × (kernel_value prop e.name ≡ some raw))

  -- The object has no property of the name, and the result is the default; or the table has the id of
  -- the object's property of the name.
  abbrev pub NamesRaw : PropInfo → List (ℕ × ℕ) → (def : ℕ) → Type 0
  NamesRaw info props def =
      ((prop_get_value info props def ≡ def)
        × ((k : ℕ) (prop : PropertyRes)
            → In k ids
            → get_property k ≡ some prop
            → same prop.name info.name ≡ false))
      ⊎ ((prop : PropertyRes) × In info.prop_id ids
          × (get_property info.prop_id ≡ some prop)
          × (same prop.name info.name ≡ true)
          × ReadsRaw info props def prop)

  found-ReadsRaw :
      (info : PropInfo) (props : List (ℕ × ℕ)) (def : ℕ) (prop : PropertyRes)
      → info.enum_values ≢ []
      → info.prop_id ≢ 0
      → All (IsExact prop) info.enum_values
      → ReadsRaw info props def prop
  found-ReadsRaw info props def prop enum nz exact =
      let r = prop_get_value info props def in
      elim (prop_get_value-Sees info props def nz) [
        | inl (e, silent) ↦
            inl (e, λ raw m. read_value-none prop info.enum_values raw (silent raw m) exact)
        | inr (raw, m, f) ↦
            let (i, e, n, g, v, k) = read_value-FindsAt info.enum_values raw r enum f in
            let at : r ≡ i = omega (arith, n) in
            let named : kernel_value prop e.name ≡ some e.value =
              get_elem?-All (IsExact prop) info.enum_values i e exact g ∙ rw v refl in
            inr (
              raw,
              e,
              m,
              subst (λ j. get_elem? info.enum_values j ≡ some e) (sym at) g,
              named ∙ ap some k,
            )
      ]

  resolved-NamesRaw :
      (info : PropInfo) (props : List (ℕ × ℕ)) (def : ℕ)
      → info.enum_values ≢ []
      → ((k : ℕ) → In k ids → k ≢ 0)
      → IsResolved get_property ids info
      → ((k : ℕ)
          → In k ids
          → info.prop_id ≡ 0
          → (prop : PropertyRes) → get_property k ≡ some prop
          → same prop.name info.name ≡ false)
      → NamesRaw info props def
  unfolding prop_get_value
  resolved-NamesRaw info props def enum numbered (inl (z, fresh)) missing =
      inl (ground (arith, z), λ k prop m e. missing k m z prop e)
  resolved-NamesRaw info props def enum numbered (inr (prop, (m, e, n, exact))) missing =
      inr (prop, m, e, n, found-ReadsRaw info props def prop enum (numbered info.prop_id m) exact)

  -- Where the object has no two properties of the same name and no id is 0, the tables have different
  -- names, and they hold no id and no valid value, drmmode_prop_info_update leaves every enum of the
  -- tables so that drmmode_prop_get_value is right for any list of ids with raw values. If the object
  -- has no property of the table's name, the result is the default. If it has one, the table has its id,
  -- and the result is the index of a name to which the kernel's property gives a raw value that the list
  -- has for that id, or the default if no name of the table is given such a raw value.
  pub prop_get_value-NamesRaw :
      (infos : List PropInfo)
      → HasUniqueNames get_property ids
      → ((k : ℕ) → In k ids → k ≢ 0)
      → AreApart infos
      → All IsFresh infos
      → All
          (λ info.
            info.enum_values ≢ [] → (props : List (ℕ × ℕ)) (def : ℕ) → NamesRaw info props def)
          (prop_info_update get_property infos ids).0
  prop_get_value-NamesRaw infos u numbered apart h =
      All-both
        (λ info resolved missing enum props def.
          resolved-NamesRaw info props def enum numbered resolved missing)
        (prop_info_update get_property infos ids).0
        (prop_info_update-IsResolved get_property ids infos u h)
        (prop_info_update-Lacks get_property ids u numbered infos h apart)
