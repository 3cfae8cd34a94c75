-- ===== src/Modeset/Crtc/Connectors.antt =====
-- What crtc_add_dpms_props says of the connectors, in drmmode_display.c.
use xserver_xorg_video_loong.Base.{
  ℕ, ◌≡◌, ◌≢◌, sym, ap, ◌∙◌, All-both, inl, inr, Bool, false, List, [], ◌∷◌, arith, ◌==◌,
  if◌then◌else◌, Bool-cases, All, All-map,
}
use xserver_xorg_video_loong.Modeset.Atomic.{
  Request, Crtc, Output, no_id, dpms_on, Kernel, is_at, add_prop, connector_add_prop,
}
use xserver_xorg_video_loong.Modeset.Crtc.{connect_one, connect}
use xserver_xorg_video_loong.Modeset.Crtc.Extension.{
  Values, applied, Extends, Extends-refl, Extends-trans, add_prop-Extends,
}

abbrev pub IsReal : Output → Type 0
IsReal o = o.output_id ≢ no_id

-- No two connectors have the same id.
abbrev pub AreDistinct : List Output → Type 0
AreDistinct [] = Unit
AreDistinct (o ∷ os) = All (λ p. IsReal p → p.output_id ≢ o.output_id) os × AreDistinct os

apart :
    (o p : Output) → IsReal o → (IsReal p → p.output_id ≢ o.output_id) → o.output_id ≢ p.output_id
apart o p real h = λ e. h (λ z. real (e ∙ z)) (sym e)

-- What the request says of a connector that had the value `old`.
abbrev pub wanted : Crtc → Output → (old : ℕ) → ℕ
wanted c o old =
    if is_at o.crtc c.address then c.crtc_id else if is_at o.current_crtc c.address then 0 else old

module _ (k : Kernel) where
  connect_one-Extends :
      (other : ℕ) (c : Crtc) (dpms : ℕ) (o : Output) (req : Request) (active : Bool)
      → other ≢ o.output_id
      → Extends other req (connect_one k c dpms o (req, active)).0
  unfolding connect_one connector_add_prop
  connect_one-Extends other c dpms o req active n = elim (Bool-cases (is_at o.crtc c.address)) [
    | inl on ↦ elim (Bool-cases (o.output_id == no_id)) [
      | inl unreal ↦ rw (on, unreal) (Extends-refl other req)
      | inr real ↦ rw (on, real) (add_prop-Extends k other req _ _ _ n)
    ]
    | inr off ↦ elim (Bool-cases (is_at o.current_crtc c.address)) [
      | inl was ↦ rw (off, was) (add_prop-Extends k other req _ _ _ n)
      | inr never ↦ rw (off, never) (Extends-refl other req)
    ]
  ]

  pub connect-Extends :
      (other : ℕ) (c : Crtc) (dpms : ℕ) (os : List Output) (r : Request × Bool)
      → All (λ o. other ≢ o.output_id) os
      → Extends other r.0 (connect k c dpms os r).0
  unfolding connect
  connect-Extends other c dpms [] r n = Extends-refl other r.0
  connect-Extends other c dpms (o ∷ os) (req, active) (m, n) =
      Extends-trans other req (connect_one k c dpms o (req, active)).0
        (connect k c dpms os (connect_one k c dpms o (req, active))).0
        (connect_one-Extends other c dpms o req active m)
        (connect-Extends other c dpms os (connect_one k c dpms o (req, active)) n)

  connect_one-wanted :
      (c : Crtc) (o : Output) (req : Request) (active : Bool) (v : Values)
      → IsReal o
      → let req' = (connect_one k c dpms_on o (req, active)).0 in
        req'.failed ≡ false
        → applied req'.assigns v o.output_id o.crtc_id_prop
          ≡ wanted c o (applied req.assigns v o.output_id o.crtc_id_prop)
  unfolding connect_one connector_add_prop add_prop
  connect_one-wanted c o req active v n h = ground arith

  pub connect-wanted :
      (c : Crtc) (os : List Output) (r : Request × Bool) (v : Values)
      → AreDistinct os
      → (connect k c dpms_on os r).0.failed ≡ false
      → All
          (λ o.
            IsReal o
            → applied (connect k c dpms_on os r).0.assigns v o.output_id o.crtc_id_prop
              ≡ wanted c o (applied r.0.assigns v o.output_id o.crtc_id_prop))
          os
  unfolding connect
  connect-wanted c [] r v d f = tt
  connect-wanted c (o ∷ os) (req, active) v (d, ds) f =
      let r1 = connect_one k c dpms_on o (req, active) in
      (
        λ real.
            let rest =
              connect-Extends o.output_id c dpms_on os r1 (All-map (λ p. apart o p real) os d) in
            rest.agrees v o.crtc_id_prop ∙ connect_one-wanted c o req active v real (rest.works f),
        All-both
            (λ p apart_p ih real.
              let first = connect_one-Extends p.output_id c dpms_on o req active (apart_p real) in
              ih real ∙ ap (wanted c p) (first.agrees v p.crtc_id_prop))
            os d (connect-wanted c os r1 v ds f),
      )
