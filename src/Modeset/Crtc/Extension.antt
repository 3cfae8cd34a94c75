-- ===== src/Modeset/Crtc/Extension.antt =====
-- What the parts of a request leave as it is: the properties of other objects.
use xserver_xorg_video_loong.Base.{
  ℕ, ◌≡◌, ◌≢◌, refl, ◌∙◌, inl, inr, Bool, true, false, ◌&&◌, ◌||◌, Option, none, some, List, [],
  ◌∷◌, arith, ◌==◌, if◌then◌else◌, Bool-cases, Option-cases, All, ◌>>=◌,
}
use xserver_xorg_video_loong.Modeset.Mode.{KMode, convert_to_kmode}
use xserver_xorg_video_loong.Modeset.Atomic.{
  Assign, Request, Crtc, Output, Kernel, add_prop, plane_add_prop, plane_add_props, crtc_add_prop,
  ensure_blob,
}
use xserver_xorg_video_loong.Modeset.Crtc.{
  add_mode, add_off, add_active, is_orphan, disable_orphans,
}

-- The values of the kernel's properties, by object and property.
abbrev pub Values : Type 0
Values = ℕ → ℕ → ℕ

-- A request that is carried out; its newest property is first.
abbrev pub applied : List Assign → Values → Values
applied [] v object prop = v object prop
applied (a ∷ assigns) v object prop =
    if object == a.object && prop == a.prop then a.value else applied assigns v object prop

abbrev pub after : List (List Assign) → Values → Values
after [] v = v
after (r ∷ requests) v = applied r (after requests v)

-- A later request says the same of the object, and failed if the earlier one had.
pub record Extends (object : ℕ) (req req' : Request) : Type 0 where
  pub works : req'.failed ≡ false → req.failed ≡ false
  pub agrees :
      (v : Values) (prop : ℕ)
      → applied req'.assigns v object prop ≡ applied req.assigns v object prop

pub Extends-refl : (object : ℕ) (req : Request) → Extends object req req
Extends-refl object req = record { works = λ e. e; agrees = λ v prop. refl }

pub Extends-trans :
    (object : ℕ) (req req' req'' : Request)
    → Extends object req req'
    → Extends object req' req''
    → Extends object req req''
Extends-trans object req req' req'' h h' = record {
  works = λ e. h.works (h'.works e);
  agrees = λ v prop. h'.agrees v prop ∙ h.agrees v prop;
}

-- The mode that a CRTC is to have is the same.
abbrev pub SameMode : Crtc → Crtc → Type 0
SameMode c d = (d.mode ≡ c.mode) × (d.x ≡ c.x) × (d.y ≡ c.y) × (d.rotation ≡ c.rotation)

-- ensure_blob keeps what tells the CRTC apart, and the mode.
abbrev pub SameIds : Crtc → Crtc → Type 0
SameIds c d =
    (d.address ≡ c.address) × (d.crtc_id ≡ c.crtc_id) × (d.plane_id ≡ c.plane_id) × SameMode c d

-- What add_active makes of a request.
abbrev pub Activates : (other : ℕ) → Crtc → Request → Option (Request × Crtc × Bool) → Type 0
Activates other c req none = Unit {0}
Activates other c req (some (req', d, active)) = SameIds c d × Extends other req req'

module _ (k : Kernel) where
  pub add_prop-Extends :
      (other : ℕ) (req : Request) (object prop value : ℕ)
      → other ≢ object
      → Extends other req (add_prop k req object prop value)
  unfolding add_prop
  add_prop-Extends other req object prop value n =
      elim (Bool-cases
        (k.accepts req.assigns (record { object = object; prop = prop; value = value }))) [
          | inl e ↦ rw e (record { works = λ f. f; agrees = λ v p. ground arith })
          | inr e ↦ rw e (record { works = λ f. absurd cc; agrees = λ v p. refl })
        ]

  then_add :
      (other object prop value : ℕ) (start req : Request)
      → other ≢ object
      → Extends other start req
      → Extends other start (add_prop k req object prop value)
  then_add other object prop value start req n h =
      Extends-trans other start req (add_prop k req object prop value) h
        (add_prop-Extends other req object prop value n)

  add_off-Extends :
      (other : ℕ) (req : Request) (c : Crtc)
      → other ≢ c.crtc_id
      → Extends other req (add_off k req c)
  unfolding add_off crtc_add_prop
  add_off-Extends other req c n =
      then_add _ _ _ _ _ _ n (then_add _ _ _ _ _ _ n (Extends-refl other req))

  pub plane_add_props-Extends :
      (other : ℕ) (req : Request) (c : Crtc) (fb x y : ℕ)
      → other ≢ c.plane_id
      → Extends other req (plane_add_props k req c fb x y)
  unfolding plane_add_props plane_add_prop
  plane_add_props-Extends other req c fb x y n = then_add _ _ _ _ _ _ n (
      then_add _ _ _ _ _ _ n (
        then_add _ _ _ _ _ _ n (
          then_add _ _ _ _ _ _ n (
            then_add _ _ _ _ _ _ n (
              then_add _ _ _ _ _ _ n (
                then_add _ _ _ _ _ _ n (
                  then_add _ _ _ _ _ _ n (
                    then_add _ _ _ _ _ _ n (then_add _ _ _ _ _ _ n (Extends-refl other req))))))))))

  pub disable_orphans-Extends :
      (other c : ℕ) (outputs : List Output) (ds : List Crtc) (req : Request)
      → All (λ d. other ≢ d.crtc_id) ds
      → Extends other req (disable_orphans k c outputs ds req)
  unfolding disable_orphans
  disable_orphans-Extends other c outputs [] req n = Extends-refl other req
  disable_orphans-Extends other c outputs (d ∷ ds) req (m, n) =
      elim (Bool-cases (is_orphan c d.address outputs)) [
        | inl e ↦
            rw (e, disable_orphans)
              (Extends-trans other req (add_off k req d)
                (disable_orphans k c outputs ds (add_off k req d)) (add_off-Extends other req d m)
                (disable_orphans-Extends other c outputs ds (add_off k req d) n))
        | inr e ↦ rw (e, disable_orphans) (disable_orphans-Extends other c outputs ds req n)
      ]

  ensure_blob-SameIds : (c : Crtc) (info : KMode) → SameIds c (ensure_blob k c info).0
  unfolding ensure_blob
  ensure_blob-SameIds c info = ground arith

  add_mode-Activates :
      (other : ℕ) (c d : Crtc) (failed : Bool) (req : Request)
      → SameIds c d
      → other ≢ c.crtc_id
      → Activates other c req (add_mode k (d, failed) req >>= λ (req, c). some (req, c, true))
  unfolding add_mode crtc_add_prop
  add_mode-Activates other c d failed req (a, i, p, m) n = elim (Option-cases d.current_mode) [
    | inl e ↦ rw e tt
    | inr (mode, e) ↦
        let l : other ≢ d.crtc_id = rw i n in
        let start : Extends other req (record req { failed = req.failed || failed }) = record {
          works = λ f. ground arith;
          agrees = λ v p. refl;
        } in
        rw e ((a, i, p, m), then_add _ _ _ _ _ _ l (then_add _ _ _ _ _ _ l start))
  ]

  pub add_active-Activates :
      (other : ℕ) (c : Crtc) (req : Request) (active : Bool)
      → other ≢ c.crtc_id
      → Activates other c req (add_active k c (req, active))
  unfolding add_active
  add_active-Activates other c req false n =
      ((refl, refl, refl, (refl, refl, refl, refl)), add_off-Extends other req c n)
  add_active-Activates other c req true n =
      let (d, failed) = ensure_blob k c (convert_to_kmode c.mode) in
      add_mode-Activates other c d failed req (ensure_blob-SameIds c (convert_to_kmode c.mode)) n
