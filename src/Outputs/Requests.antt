-- ===== src/Outputs/Requests.antt =====
-- What the kernel is asked when a property of an output is set.
use xserver_xorg_video_loong.Base.{
  ℕ, ◌≡◌, refl, ◌⊎◌, inl, inr, Bool, true, false, not, ◌||◌, Option, none, some, List, [], ◌∷◌,
  ◌==◌, arith, Bool-cases, if_either, Option-cases, Yields, Yields-map, All, In, ◌>>=◌,
}
use xserver_xorg_video_loong.Modeset.Properties.{Name, same, enum_named}
use xserver_xorg_video_loong.Outputs.{
  ModeProp, OutputProp, property_ignore, name_prop, keep_props, create_resources, PropertyValue,
  is_integer, is_atom, Answer, set_range, set_named, set_enum, set_prop, output_set_property,
}

-- Some element satisfies `P`.
abbrev pub Any : (OutputProp → Type 0) → List OutputProp → Type 0
Any P [] = ⊥
Any P (p ∷ ps) = P p ⊎ Any P ps

same-≡ : (m n : Name) → same m n ≡ true → m ≡ n
unfolding same
same-≡ [] [] h = refl
same-≡ [] (d ∷ ds) h = absurd cc
same-≡ (c ∷ cs) [] h = absurd cc
same-≡ (c ∷ cs) (d ∷ ds) h = ground (arith, same-≡ cs ds)

enum_named-In :
    (n : Name) (es : List (Name × ℕ)) (value : ℕ) → enum_named n es ≡ some value → In (n, value) es
unfolding enum_named
enum_named-In n [] value h = absurd cc
enum_named-In n ((m, x) ∷ es) value h = elim (Bool-cases (same m n)) [
  | inl e ↦ inl (let k = same-≡ m n e in ground (arith, h, e, k))
  | inr e ↦ inr (enum_named-In n es value (ground (arith, h, e)))
]

same_refl : (n : Name) → same n n ≡ true
unfolding same
same_refl [] = refl
same_refl (c ∷ cs) = ground (arith, same_refl cs)

enum_named-none :
    (n : Name) (es : List (Name × ℕ)) (value : ℕ) → enum_named n es ≡ none → In (n, value) es → ⊥
unfolding enum_named
enum_named-none n [] value h i = i
enum_named-none n ((m, x) ∷ es) value h i = elim i [
  | inl e ↦ let k = same_refl m in ground (arith, h, e, k)
  | inr i ↦ enum_named-none n es value (ground (arith, h)) i
]

bind-some :
    (P : Answer → Type 0) {o : Option ℕ} (a : ℕ) (f : ℕ → Option Answer)
    → o ≡ some a
    → Yields P (f a)
    → Yields P (o >>= f)
bind-some P a f e h = rw e h

module _ (name_for_atom : ℕ → Option Name) (property : ℕ) (v : PropertyValue) where
  -- A value asks this of a property: its number, in a range, or the enum that its atom names.
  abbrev pub Means : ModeProp → (value : ℕ) → Type 0
  Means p value =
      ((p.range ≡ true) × (is_integer v.kind ≡ true) × (value ≡ v.word))
      ⊎ ((p.range ≡ false)
          × (p.enumerated ≡ true)
          × (is_atom v.kind ≡ true)
          × (n : Name) × (name_for_atom v.word ≡ some n)
          × In (n, value) p.enums)

  -- The value is one word of 32 bits and asks this of the property, which the atom names.
  abbrev pub Asks : OutputProp → (prop_id value : ℕ) → Type 0
  Asks p prop_id value =
      (p.first_atom ≡ some property)
      × (p.mode_prop.prop_id ≡ prop_id)
      × (v.format ≡ 32)
      × (v.size ≡ 1)
      × Means p.mode_prop value

  -- It asks nothing of the property.
  abbrev pub AsksNone : OutputProp → Type 0
  AsksNone p = (prop_id value : ℕ) → Asks p prop_id value → ⊥

  -- What the kernel is asked for is what the value asks of one of the properties. Where it is asked
  -- for nothing, the value asks for nothing, or, in a failure, for nothing of one that the atom names.
  abbrev pub Answers : List OutputProp → Answer → Type 0
  Answers ps (some (prop_id, value), ok) = (ok ≡ true) × Any (λ p. Asks p prop_id value) ps
  Answers ps (none, true) = All AsksNone ps
  Answers ps (none, false) = Any (λ p. (p.first_atom ≡ some property) × AsksNone p) ps

  Answers-skip :
      (p : OutputProp) (ps : List OutputProp) (r : Answer)
      → AsksNone p
      → Answers ps r
      → Answers (p ∷ ps) r
  Answers-skip p ps (some (prop_id, value), ok) unasked (good, h) = (good, inr h)
  Answers-skip p ps (none, true) unasked h = (unasked, h)
  Answers-skip p ps (none, false) unasked h = inr h

  set_range-Answers :
      (p : OutputProp) (ps : List OutputProp)
      → p.first_atom ≡ some property
      → p.mode_prop.range ≡ true
      → Answers (p ∷ ps) (set_range p.mode_prop v)
  unfolding set_range is_integer
  set_range-Answers p ps a range =
      elim (Bool-cases (not (is_integer v.kind) || not (v.format == 32) || not (v.size == 1))) [
        | inl e ↦ rw e (inl (a, λ i x asks. ground (arith, asks)))
        | inr e ↦
            rw e (refl, inl (a, refl, ground arith, ground arith, inl (range, ground arith, refl)))
      ]

  -- A name that the enumeration lacks asks nothing.
  not_asked :
      (p : OutputProp) (n : Name)
      → enum_named n p.mode_prop.enums ≡ none
      → name_for_atom v.word ≡ some n
      → p.mode_prop.range ≡ false
      → AsksNone p
  not_asked p n missing named range i x (a, e, f, g, inl (r, k, q)) = ground (arith, range, r)
  not_asked p n missing named range i x (a, e, f, g, inr (r, u, k, m, q, there)) =
      enum_named-none m p.mode_prop.enums x (cc) there

  set_enum-Answers :
      (p : OutputProp) (ps : List OutputProp) (rest : Option Answer)
      → p.first_atom ≡ some property
      → p.mode_prop.range ≡ false
      → p.mode_prop.enumerated ≡ true
      → Yields (Answers ps) rest
      → Yields (Answers (p ∷ ps)) (set_enum name_for_atom p.mode_prop v rest)
  unfolding set_enum is_atom set_named
  set_enum-Answers p ps rest a range enumerated h =
      elim (Bool-cases (not (is_atom v.kind) || not (v.format == 32) || not (v.size == 1))) [
        | inl e ↦ rw e (inl (a, λ i x asks. ground (arith, asks)))
        | inr e ↦ rw e (elim (Option-cases (name_for_atom v.word)) [
          | inl unnamed ↦ rw unnamed (inl (a, λ i x asks. ground (arith, asks)))
          | inr (n, named) ↦ rw named (elim (Option-cases (enum_named n p.mode_prop.enums)) [
            | inl missing ↦
                rw (missing, set_named)
                  (Yields-map
                    (λ r.
                      Answers-skip p ps r (λ i x asks. not_asked p n missing named range i x asks))
                    rest h)
            | inr (x, found) ↦
                rw (found, set_named)
                  (
                    refl,
                    inl (
                      a,
                      refl,
                      ground arith,
                      ground arith,
                      inr (
                        range,
                        enumerated,
                        ground arith,
                        n,
                        named,
                        enum_named-In n p.mode_prop.enums x found,
                      ),
                    ),
                  )
          ])
        ])
      ]

  set_prop-Answers :
      (p : OutputProp) (ps : List OutputProp) (rest : Option Answer)
      → p.first_atom ≡ some property
      → Yields (Answers ps) rest
      → Yields (Answers (p ∷ ps)) (set_prop name_for_atom p.mode_prop v rest)
  unfolding set_prop
  set_prop-Answers p ps rest a h =
      if_either (Yields (Answers (p ∷ ps))) p.mode_prop.range _ _ (set_range-Answers p ps a)
        (λ range.
          if_either (Yields (Answers (p ∷ ps))) p.mode_prop.enumerated _ _
            (λ enumerated. set_enum-Answers p ps rest a range enumerated h)
            (λ neither.
              Yields-map (λ r. Answers-skip p ps r (λ i x asks. ground (arith, asks))) rest h))

  -- The list of atoms is there.
  abbrev pub HasAtoms : OutputProp → Type 0
  HasAtoms p = (a : ℕ) × (p.first_atom ≡ some a)

  output_set_property-Answers :
      (ps : List OutputProp)
      → All HasAtoms ps
      → Yields (Answers ps) (output_set_property name_for_atom ps property v)
  unfolding output_set_property
  output_set_property-Answers [] h = tt
  output_set_property-Answers (p ∷ ps) ((a, e), h) =
      let rest = output_set_property-Answers ps h in
      bind-some (Answers (p ∷ ps)) a _ e (
        if_either (Yields (Answers (p ∷ ps))) (a == property) _ _
          (λ same. set_prop-Answers p ps _ (ground (arith, e)) rest)
          (λ apart.
            Yields-map (λ r. Answers-skip p ps r (λ i x asks. ground (arith, asks))) _ rest))

-- A property that is kept is a range or an enumeration.
abbrev pub IsKnown : Option ModeProp × ℕ → Type 0
IsKnown (none, value) = Unit
IsKnown (some p, value) = property_ignore (some p) ≡ false → (p.range || p.enumerated) ≡ true

module _ (make_atom : Name → ℕ) (got_atoms : ModeProp → Bool)
    (memory : (p : ModeProp) → got_atoms p ≡ true) where
  keep_props-HasAtoms :
      (name_for_atom : ℕ → Option Name) (property : ℕ) (v : PropertyValue)
      (props : List (Option ModeProp × ℕ))
      → All IsKnown props
      → All (HasAtoms name_for_atom property v) (keep_props make_atom got_atoms props)
  unfolding keep_props name_prop
  keep_props-HasAtoms name_for_atom property v [] h = tt
  keep_props-HasAtoms name_for_atom property v ((none, value) ∷ props) (known, h) =
      keep_props-HasAtoms name_for_atom property v props h
  keep_props-HasAtoms name_for_atom property v ((some p, value) ∷ props) (known, h) =
      let rest = keep_props-HasAtoms name_for_atom property v props h in
      elim (Bool-cases (property_ignore (some p))) [
        | inl e ↦ rw e rest
        | inr e ↦ rw e ((make_atom p.name, rw (known e, memory p) refl), rest)
      ]

  -- While there is memory, and every property of the connector that is not ignored is a range or an
  -- enumeration, setting a property of an output returns a result. What it asks the kernel for is what the
  -- value asks of a property of that atom: the number of a range, or the value that the enumeration
  -- gives the name. Where it asks for nothing and succeeds, the value asks nothing of any property;
  -- where it fails, nothing of one that has the atom.
  pub create_resources-Answers :
      (name_for_atom : ℕ → Option Name) (property : ℕ) (v : PropertyValue) (got_props : Bool)
      (props : List (Option ModeProp × ℕ))
      → All IsKnown props
      → let ps = create_resources make_atom got_atoms got_props props in
        Yields
          (Answers name_for_atom property v ps)
          (output_set_property name_for_atom ps property v)
  unfolding create_resources
  create_resources-Answers name_for_atom property v false props h =
      output_set_property-Answers name_for_atom property v [] tt
  create_resources-Answers name_for_atom property v true props h =
      output_set_property-Answers name_for_atom property v _
        (keep_props-HasAtoms name_for_atom property v props h)
