-- ===== src/Modeset/Properties/Missing.antt =====
-- A table that has no id after drmmode_prop_info_update of src/drmmode_display.c: the object has no
-- property of its name.
use xserver_xorg_video_loong.Base.{
  ℕ, suc, ◌≡◌, ◌≢◌, refl, sym, ◌∙◌, ◌⊎◌, inl, inr, true, false, Option, none, some, List, [], ◌∷◌,
  arith, ◌==◌, Bool-cases, Option-cases, All, All-map, All-both, In, ==_iff, Ensures,
}
use mathlib.Core.Path.{subst}
use xserver_xorg_video_loong.Modeset.Properties.{
  Name, same, PropInfo, PropertyRes, fill_info, fill_named, is_known, is_incomplete, Mask, step_of,
  look_up, update_from, prop_info_update,
}
use xserver_xorg_video_loong.Modeset.Properties.Updates.{
  IsFresh, step_cases, step_of-known, step_of-complete, step_of-lookup, Keeps, AllAfter,
  fill_named-All, look_up-All, update_from-All, IsResolved, HasUniqueNames, Keeps-IsResolved,
}

-- A name that is the name of the first table is not the name of the second.
abbrev IsApart : PropInfo → PropInfo → Type 0
IsApart i j = (n : Name) → same n i.name ≡ true → same n j.name ≡ false

-- The tables have different names.
abbrev pub AreApart : List PropInfo → Type 0
AreApart [] = Unit {0}
AreApart (i ∷ is) = All (IsApart i) is × AreApart is

All-of : (P : PropInfo → Type 0) → ((i : PropInfo) → P i) → (is : List PropInfo) → All P is
All-of P f [] = tt
All-of P f (i ∷ is) = (f i, All-of P f is)

-- A table with an id has the name.
abbrev HasNamed : Name → List PropInfo → Type 0
HasNamed n [] = ⊥
HasNamed n (i ∷ is) = ((same n i.name ≡ true) × (i.prop_id ≢ 0)) ⊎ HasNamed n is

abbrev IsMissing : Name → PropInfo → Type 0
IsMissing n i = i.prop_id ≡ 0 → same n i.name ≡ false

named_not :
    (n : Name) (is : List PropInfo) → HasNamed n is → All (λ i. same n i.name ≡ false) is → ⊥
named_not n [] h a = h
named_not n (i ∷ is) (inl (s, nz)) (no_one, a) = cc
named_not n (i ∷ is) (inr h) (no_one, a) = named_not n is h a

named-IsMissing :
    (n : Name) (is : List PropInfo) → HasNamed n is → AreApart is → All (IsMissing n) is
named-IsMissing n [] h a = tt
named-IsMissing n (i ∷ is) (inl (s, nz)) (apart, a) =
    (λ z. absurd (nz z), All-map (λ j d z. d n s) is apart)
named-IsMissing n (i ∷ is) (inr h) (apart, a) = (
  λ z. elim (Bool-cases (same n i.name)) [
    | inl s ↦ absurd (named_not n is h (All-map (λ j d. d n s) is apart))
    | inr s ↦ s
  ],
  named-IsMissing n is h a,
)

complete_ids : (is : List PropInfo) → is_incomplete is ≡ false → All (λ i. i.prop_id ≢ 0) is
unfolding is_incomplete
complete_ids [] h = tt
complete_ids (i ∷ is) h = (λ z. ground (arith, h, z), complete_ids is (ground (arith, h)))

module _ (get_property : ℕ → Option PropertyRes) where
  AreApart-cons :
      (i : PropInfo) (o : Option (List PropInfo × ℕ))
      → AllAfter get_property (IsApart i) o
      → Ensures (λ (r : List PropInfo × ℕ). AreApart r.0) o
      → Ensures
          (λ (r : List PropInfo × ℕ). AreApart r.0)
          (elim o [ none ↦ none | some (filled, j) ↦ some (i ∷ filled, suc j) ])
  AreApart-cons i none p a = tt
  AreApart-cons i (some (filled, j)) p a = (p, a)

  -- A fill keeps the names.
  Keeps-IsApart : (i : PropInfo) (id : ℕ) → Keeps get_property (IsApart i) id
  unfolding fill_info
  Keeps-IsApart i id prop info e n other p = p

  fill_named-AreApart :
      (id : ℕ) (prop : PropertyRes) (is : List PropInfo)
      → get_property id ≡ some prop
      → is_known id is ≡ false
      → AreApart is
      → Ensures (λ (r : List PropInfo × ℕ). AreApart r.0) (fill_named id prop is)
  unfolding fill_named fill_info is_known
  fill_named-AreApart id prop [] e k a = tt
  fill_named-AreApart id prop (i ∷ is) e k (apart, a) =
      let rest : is_known id is ≡ false = ground (arith, k) in
      elim (Bool-cases (same prop.name i.name)) [
        | inl s ↦ rw s (apart, a)
        | inr s ↦ rw s (
            AreApart-cons i (fill_named id prop is)
              (fill_named-All get_property (IsApart i) id prop is (Keeps-IsApart i id) e rest apart)
              (fill_named-AreApart id prop is e rest a))
      ]

  HasNamed-cons :
      (n : Name) (i : PropInfo) (o : Option (List PropInfo × ℕ))
      → Ensures (λ (r : List PropInfo × ℕ). HasNamed n r.0) o
      → Ensures
          (λ (r : List PropInfo × ℕ). HasNamed n r.0)
          (elim o [ none ↦ none | some (filled, j) ↦ some (i ∷ filled, suc j) ])
  HasNamed-cons n i none h = tt
  HasNamed-cons n i (some (filled, j)) h = inr h

  fill_named-HasNamed :
      (id : ℕ) (prop : PropertyRes) (is : List PropInfo)
      → id ≢ 0
      → Ensures (λ (r : List PropInfo × ℕ). HasNamed prop.name r.0) (fill_named id prop is)
  unfolding fill_named fill_info
  fill_named-HasNamed id prop [] nz = tt
  fill_named-HasNamed id prop (i ∷ is) nz = elim (Bool-cases (same prop.name i.name)) [
    | inl s ↦ rw s (inl (s, nz))
    | inr s ↦
        rw s (HasNamed-cons prop.name i (fill_named id prop is) (fill_named-HasNamed id prop is nz))
  ]

  fill_named-none :
      (id : ℕ) (prop : PropertyRes) (is : List PropInfo)
      → fill_named id prop is ≡ none
      → All (λ i. same prop.name i.name ≡ false) is
  unfolding fill_named
  fill_named-none id prop [] h = tt
  fill_named-none id prop (i ∷ is) h = elim (Bool-cases (same prop.name i.name)) [
    | inl s ↦ absurd (ground (arith, h, s))
    | inr s ↦ elim (Option-cases (fill_named id prop is)) [
      | inl e ↦ (s, fill_named-none id prop is e)
      | inr (r, e) ↦ absurd (ground (arith, h, s, e))
    ]
  ]

module _ (get_property : ℕ → Option PropertyRes) (all : List ℕ)
    (u : HasUniqueNames get_property all) (numbered : (k : ℕ) → In k all → k ≢ 0) where
  -- The object's property with the id, if there is one, does not have the name of the table.
  abbrev pub Lacks : ℕ → PropInfo → Type 0
  Lacks k i =
      i.prop_id ≡ 0
      → (prop : PropertyRes) → get_property k ≡ some prop
      → same prop.name i.name ≡ false

  lacks :
      (id : ℕ) (prop : PropertyRes) (is : List PropInfo)
      → get_property id ≡ some prop
      → All (IsMissing prop.name) is
      → All (Lacks id) is
  lacks id prop is e h =
      All-map
        (λ i m z q e'.
          let one : q ≡ prop = cc in subst (λ p. same p.name i.name ≡ false) (sym one) (m z))
        is h

  known-HasNamed :
      (id : ℕ) (prop : PropertyRes) (is : List PropInfo)
      → In id all
      → get_property id ≡ some prop
      → is_known id is ≡ true
      → All (IsResolved get_property all) is
      → HasNamed prop.name is
  unfolding is_known
  known-HasNamed id prop [] m e k h = absurd cc
  known-HasNamed id prop (i ∷ is) m e k (r, h) = elim (Bool-cases (i.prop_id == id)) [
    | inr other ↦ inr (known-HasNamed id prop is m e (ground (arith, k, other)) h)
    | inl own ↦
        let here : i.prop_id ≡ id = (==_iff i.prop_id id).0 own in
        elim r [
          | inl (z, fresh) ↦ absurd (numbered id m (sym here ∙ z))
          | inr (p, (m', e', n, g)) ↦
              let one : p ≡ prop = cc in
              inl (subst (λ q. same q.name i.name ≡ true) one n, λ z. numbered id m (sym here ∙ z))
        ]
  ]

  known-Lacks :
      (id : ℕ) (is : List PropInfo)
      → In id all
      → is_known id is ≡ true
      → All (IsResolved get_property all) is
      → AreApart is
      → All (Lacks id) is
  known-Lacks id is m k h a = elim (Option-cases (get_property id)) [
    | inl e ↦ All-of (Lacks id) (λ i z prop e'. absurd (cc (e, e'))) is
    | inr (prop, e) ↦
        lacks id prop is e (named-IsMissing prop.name is (known-HasNamed id prop is m e k h) a)
  ]

  -- What the lookup of an id leaves: the tables that it fills have an id.
  look_up-Lacks :
      (id : ℕ) (is : List PropInfo) (mask : Mask)
      → In id all
      → is_known id is ≡ false
      → AreApart is
      → AreApart (look_up get_property id is mask).0
        × All (Lacks id) (look_up get_property id is mask).0
  unfolding look_up
  look_up-Lacks id is mask m k a = elim (Option-cases (get_property id)) [
    | inl e ↦ rw (e, look_up) (a, All-of (Lacks id) (λ i z prop e'. absurd (cc (e, e'))) is)
    | inr (prop, e) ↦ elim (Option-cases (fill_named id prop is)) [
      | inl f ↦
          rw (e, f, look_up)
            (
              a,
              lacks id prop is e
                  (All-map (λ i d z. d) is (fill_named-none get_property id prop is f)),
            )
      | inr ((filled, j), f) ↦
          let apart : AreApart filled =
            subst (Ensures (λ (r : List PropInfo × ℕ). AreApart r.0)) f
              (fill_named-AreApart get_property id prop is e k a) in
          let has : HasNamed prop.name filled =
            subst (Ensures (λ (r : List PropInfo × ℕ). HasNamed prop.name r.0)) f
              (fill_named-HasNamed get_property id prop is (numbered id m)) in
          rw (e, f, look_up)
            (apart, lacks id prop filled e (named-IsMissing prop.name filled has apart))
    ]
  ]

  Keeps-Lacks : (k id : ℕ) → In id all → Keeps get_property (Lacks k) id
  unfolding fill_info
  Keeps-Lacks k id m prop info e n other p z = absurd (numbered id m z)

  update_from-Lacks :
      (is : List PropInfo) (mask : Mask) (ids : List ℕ)
      → ((k : ℕ) → In k ids → In k all)
      → All (IsResolved get_property all) is
      → AreApart is
      → All (λ i. (k : ℕ) → In k ids → Lacks k i) (update_from get_property is mask ids).0
  unfolding update_from
  update_from-Lacks is mask [] sub h a = All-of _ (λ i k m. absurd m) is
  update_from-Lacks is mask (id ∷ ids) sub h a =
      let later = λ (k : ℕ) (m : In k ids). sub k (inr m) in
      let both : (i : PropInfo)
          → Lacks id i
          → ((k : ℕ) → In k ids → Lacks k i)
          → (k : ℕ) → In k (id ∷ ids)
          → Lacks k i =
        λ i l f k m. elim m [ inl same ↦ subst (λ j. Lacks j i) same l | inr m' ↦ f k m' ] in
      let kept = λ (is' : List PropInfo) (mask' : Mask) (l : All (Lacks id) is').
        update_from-All get_property (Lacks id) is' mask' ids (λ j m. Keeps-Lacks id j (later j m))
          l in
      let here = sub id (inl refl) in
      elim (step_cases (step_of id is)) [
        | inl e ↦
            rw (e, update_from)
              (All-both both (update_from get_property is mask ids).0
                (kept is mask (known-Lacks id is here (step_of-known id is e) h a))
                (update_from-Lacks is mask ids later h a))
        | inr (inl e) ↦
            rw (e, update_from)
              (All-map (λ i nz k m z. absurd (nz z)) is
                (complete_ids is (step_of-complete id is e)))
        | inr (inr e) ↦
            let unknown = step_of-lookup id is e in
            let (apart, gone) = look_up-Lacks id is mask here unknown a in
            let is' = (look_up get_property id is mask).0 in
            let mask' = (look_up get_property id is mask).1 in
            let resolved =
              look_up-All get_property (IsResolved get_property all) id is mask
                (Keeps-IsResolved get_property all u id here) unknown h in
            rw (e, update_from)
              (All-both both (update_from get_property is' mask' ids).0 (kept is' mask' gone)
                (update_from-Lacks is' mask' ids later resolved apart))
      ]

  -- After the update, no property of the object has the name of a table without an id.
  pub prop_info_update-Lacks :
      (is : List PropInfo)
      → All IsFresh is
      → AreApart is
      → All (λ i. (k : ℕ) → In k all → Lacks k i) (prop_info_update get_property is all).0
  unfolding prop_info_update
  prop_info_update-Lacks is h a =
      update_from-Lacks is (λ j. false) all (λ k m. m) (All-map (λ i f. inl f) is h) a
