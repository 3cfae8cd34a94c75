-- ===== src/Formats/Modifiers/Members.antt =====
-- Which modifiers are in the set.
use xserver_xorg_video_loong.Base.{
  ℕ, suc, ◌≡◌, ◌⊎◌, inl, inr, ◌↔◌, Bool, true, false, not, ◌&&◌, ◌||◌, List, [], ◌∷◌, ◌++◌, some,
  ◌==◌, ltb, if◌then◌else◌, length, arith, Bool-cases, In, Yields, Yields->>=, Yields-map,
  Option-cases,
}
use mathlib.Core.Path.{subst}
use xserver_xorg_video_loong.Formats.{get_opaque_format, Format, CrtcFormats, contains}
use xserver_xorg_video_loong.Formats.Modifiers.{
  add_modifiers, add_formats, add_crtcs, get_modifiers_set,
}

-- A format list has a modifier for the format.
abbrev pub Lists : (format m : ℕ) → List Format → Type 0
Lists format m [] = ⊥
Lists format m (f ∷ fs) = ((f.format ≡ format) × In m f.modifiers) ⊎ Lists format m fs

-- Some CRTC that counts lists the modifier.
abbrev pub SomeLists : (enabled_crtc_only : Bool) (format m : ℕ) → List CrtcFormats → Type 0
SomeLists only format m [] = ⊥
SomeLists only format m (c ∷ cs) =
    (((only && not c.enabled) ≡ false) × Lists format m c.formats) ⊎ SomeLists only format m cs

contains-In : (m : ℕ) (xs : List ℕ) → (contains m xs ≡ true) ↔ In m xs
unfolding contains
contains-In m [] = (λ h. cc, λ h. elim h [ ])
contains-In m (x ∷ xs) = ground (arith, contains-In m xs)

In-snoc : (m k : ℕ) (xs : List ℕ) → In m (xs ++ (k ∷ [])) ↔ (In m xs ⊎ (k ≡ m))
In-snoc m k [] = ground arith
In-snoc m k (x ∷ xs) = ground (arith, In-snoc m k xs)

module _ (plane_count : (format modifier : ℕ) → ℕ) (got_memory : (size : ℕ) → Bool)
    (memory : (n : ℕ) → got_memory n ≡ true) where
  -- gbm can show the modifier in as many planes as are wanted.
  abbrev pub Fits : (exclude_multiplane : Bool) (format m : ℕ) → Type 0
  Fits exclude format m = (exclude && ltb 1 (plane_count format m)) ≡ false

  -- The new list has the old modifiers and the new ones that fit.
  abbrev Adds : (exclude : Bool) (format : ℕ) (New : ℕ → Type 0) (found found' : List ℕ) → Type 0
  Adds exclude format New found found' =
      (m : ℕ) → In m found' ↔ (In m found ⊎ (New m × Fits exclude format m))

  -- A modifier that is skipped is already there, or does not fit.
  skip-Adds :
      (exclude : Bool) (format k : ℕ) (ms found found' : List ℕ)
      → ((exclude && ltb 1 (plane_count format k)) || contains k found) ≡ true
      → Adds exclude format (λ m. In m ms) found found'
      → Adds exclude format (λ m. In m (k ∷ ms)) found found'
  skip-Adds exclude format k ms found found' skip h m =
      let there : k ≡ m → Fits exclude format m → In m found = λ e fits.
        let fits_k : Fits exclude format k = rw e fits in
        let in_k : In k found = (contains-In k found).0 (ground arith) in rw (← e) in_k in
      (
        λ i. elim ((h m).0 i) [ inl old ↦ inl old | inr (new, fits) ↦ inr (inr new, fits) ],
        λ o. (h m).1 (elim o [
          | inl old ↦ inl old
          | inr (inl e, fits) ↦ inl (there e fits)
          | inr (inr new, fits) ↦ inr (new, fits)
        ]),
      )

  add-Adds :
      (exclude : Bool) (format k : ℕ) (ms found found' : List ℕ)
      → ((exclude && ltb 1 (plane_count format k)) || contains k found) ≡ false
      → Adds exclude format (λ m. In m ms) (found ++ (k ∷ [])) found'
      → Adds exclude format (λ m. In m (k ∷ ms)) found found'
  add-Adds exclude format k ms found found' add h m =
      let fits_k : Fits exclude format k = ground arith in
      let fits_at : k ≡ m → Fits exclude format m = λ e. rw (← e) fits_k in
      let (apart, join) = In-snoc m k found in
      (
        λ i. elim ((h m).0 i) [
          | inl grown ↦ elim (apart grown) [ inl old ↦ inl old | inr e ↦ inr (inl e, fits_at e) ]
          | inr (new, fits) ↦ inr (inr new, fits)
        ],
        λ o. (h m).1 (elim o [
          | inl old ↦ inl (join (inl old))
          | inr (inl e, fits) ↦ inl (join (inr e))
          | inr (inr new, fits) ↦ inr (new, fits)
        ]),
      )

  add_modifiers-Adds :
      (exclude : Bool) (format : ℕ) (ms found : List ℕ)
      → Yields
          (Adds exclude format (λ m. In m ms) found)
          (add_modifiers plane_count got_memory exclude format ms found)
  unfolding add_modifiers
  add_modifiers-Adds exclude format [] found = λ m. ground arith
  add_modifiers-Adds exclude format (k ∷ ms) found =
      elim (Bool-cases ((exclude && ltb 1 (plane_count format k)) || contains k found)) [
        | inl skip ↦
            rw (skip, add_modifiers)
              (Yields-map (λ l h. skip-Adds exclude format k ms found l skip h)
                (add_modifiers plane_count got_memory exclude format ms found)
                (add_modifiers-Adds exclude format ms found))
        | inr add ↦
            rw (add, memory (suc (length found)), add_modifiers)
              (Yields-map (λ l h. add-Adds exclude format k ms found l add h)
                (add_modifiers plane_count got_memory exclude format ms (found ++ (k ∷ [])))
                (add_modifiers-Adds exclude format ms (found ++ (k ∷ []))))
      ]

  -- Two additions one after the other.
  Adds-both :
      (exclude : Bool) (format : ℕ) (P Q R : ℕ → Type 0) (l l' l'' : List ℕ)
      → ((m : ℕ) → R m ↔ (P m ⊎ Q m))
      → Adds exclude format P l l'
      → Adds exclude format Q l' l''
      → Adds exclude format R l l''
  Adds-both exclude format P Q R l l' l'' r p q m = ground (arith, r m, p m, q m)

  Adds-none :
      (exclude : Bool) (format : ℕ) (P : ℕ → Type 0) (l : List ℕ)
      → ((m : ℕ) → P m → ⊥)
      → Adds exclude format P l l
  Adds-none exclude format P l n m = ground (arith, n m)

  format-Adds :
      (exclude : Bool) (format : ℕ) (f : Format) (found : List ℕ)
      → Yields (Adds exclude format (λ m. (f.format ≡ format) × In m f.modifiers) found) (
          if f.format == format
          then add_modifiers plane_count got_memory exclude format f.modifiers found
          else some found)
  format-Adds exclude format f found = elim (Bool-cases (f.format == format)) [
    | inl e ↦ rw e (
        Yields-map (λ l h m. ground (arith, h m))
          (add_modifiers plane_count got_memory exclude format f.modifiers found)
          (add_modifiers-Adds exclude format f.modifiers found))
    | inr e ↦ rw e (Adds-none exclude format _ found (λ m p. ground arith))
  ]

  add_formats-Adds :
      (exclude : Bool) (format : ℕ) (fs : List Format) (found : List ℕ)
      → Yields
          (Adds exclude format (λ m. Lists format m fs) found)
          (add_formats plane_count got_memory exclude format fs found)
  unfolding add_formats
  add_formats-Adds exclude format [] found = Adds-none exclude format _ found (λ m p. p)
  add_formats-Adds exclude format (f ∷ fs) found =
      Yields->>= (Adds exclude format (λ m. (f.format ≡ format) × In m f.modifiers) found)
        (Adds exclude format (λ m. Lists format m (f ∷ fs)) found) _ _
        (format-Adds exclude format f found)
        (λ l h.
          Yields-map
            (λ l' h'.
              Adds-both exclude format (λ m. (f.format ≡ format) × In m f.modifiers)
                (λ m. Lists format m fs) (λ m. Lists format m (f ∷ fs)) found l l'
                (λ m. (λ p. p, λ p. p)) h h')
            (add_formats plane_count got_memory exclude format fs l)
            (add_formats-Adds exclude format fs l))

  crtc-Adds :
      (only exclude : Bool) (format : ℕ) (c : CrtcFormats) (found : List ℕ)
      → Yields
          (Adds exclude format
            (λ m. ((only && not c.enabled) ≡ false) × Lists format m c.formats)
            found)
          (if only && not c.enabled
            then some found
            else add_formats plane_count got_memory exclude format c.formats found)
  crtc-Adds only exclude format c found = elim (Bool-cases (only && not c.enabled)) [
    | inl e ↦ rw e (Adds-none exclude format _ found (λ m p. ground arith))
    | inr e ↦ rw e (
        Yields-map (λ l h m. ground (arith, h m))
          (add_formats plane_count got_memory exclude format c.formats found)
          (add_formats-Adds exclude format c.formats found))
  ]

  add_crtcs-Adds :
      (only exclude : Bool) (format : ℕ) (cs : List CrtcFormats) (found : List ℕ)
      → Yields
          (Adds exclude format (λ m. SomeLists only format m cs) found)
          (add_crtcs plane_count got_memory only exclude format cs found)
  unfolding add_crtcs
  add_crtcs-Adds only exclude format [] found = Adds-none exclude format _ found (λ m p. p)
  add_crtcs-Adds only exclude format (c ∷ cs) found =
      let P : ℕ → Type 0 = λ m. ((only && not c.enabled) ≡ false) × Lists format m c.formats in
      Yields->>= (Adds exclude format P found)
        (Adds exclude format (λ m. SomeLists only format m (c ∷ cs)) found) _ _
        (crtc-Adds only exclude format c found)
        (λ l h.
          Yields-map
            (λ l' h'.
              Adds-both exclude format P (λ m. SomeLists only format m cs)
                (λ m. SomeLists only format m (c ∷ cs)) found l l' (λ m. (λ p. p, λ p. p)) h h')
            (add_crtcs plane_count got_memory only exclude format cs l)
            (add_crtcs-Adds only exclude format cs l))

  -- While there is memory, a modifier is in the set of get_modifiers_set exactly if some CRTC (one
  -- that is on, where only those count) lists it for the opaque form of the format, and it needs one
  -- plane only, where others are excluded.
  pub get_modifiers_set-In :
      (crtcs : List CrtcFormats) (format : ℕ) (only exclude : Bool) (m : ℕ)
      → In m (get_modifiers_set plane_count got_memory crtcs format only exclude) ↔ (
          SomeLists only (get_opaque_format format) m crtcs
          × Fits exclude (get_opaque_format format) m)
  unfolding get_modifiers_set
  get_modifiers_set-In crtcs format only exclude m =
      let opaque = get_opaque_format format in
      elim (Option-cases (add_crtcs plane_count got_memory only exclude opaque crtcs [])) [
        | inl e ↦
            elim (subst (Yields (Adds exclude opaque (λ k. SomeLists only opaque k crtcs) [])) e
              (add_crtcs-Adds only exclude opaque crtcs [])) [ ]
        | inr (found, e) ↦
            let h =
              subst (Yields (Adds exclude opaque (λ k. SomeLists only opaque k crtcs) [])) e
                (add_crtcs-Adds only exclude opaque crtcs []) in
            rw (e, get_modifiers_set) (ground (arith, h m))
      ]
