-- ===== src/Modeset/Crtc/Sync.antt =====
-- The outputs of the driver and those of the kernel, over drmmode_crtc_set_mode.
use xserver_xorg_video_loong.Base.{
  ℕ, suc, if_either, ◌≡◌, ◌≢◌, ◌∙◌, All-both, inl, inr, Bool, true, false, not, ◌&&◌, Option, none,
  some, List, [], ◌∷◌, arith, if◌then◌else◌, Bool-cases, Option-cases, All, All-map, ◌>>=◌,
}
use mathlib.Core.Path.{subst}
use xserver_xorg_video_loong.Modeset.Atomic.{
  Assign, Request, empty_request, Crtc, Output, dpms_on, Kernel, is_at, plane_add_props,
}
use xserver_xorg_video_loong.Modeset.Crtc.{
  State, connect, add_active, crtc_add_dpms_props, crtc_get_fb_id, settle, disable_orphans,
  mode_request, committed, commit_mode, set_at_fb, crtc_set_mode,
}
use xserver_xorg_video_loong.Modeset.Crtc.Connectors.{IsReal, AreDistinct, wanted, connect-wanted}
use xserver_xorg_video_loong.Modeset.Crtc.Extension.{
  Values, applied, after, Extends, Extends-trans, plane_add_props-Extends, disable_orphans-Extends,
  SameIds, Activates, add_active-Activates,
}

-- The kernel's CRTC for what the driver holds, by the ids of the CRTCs at their addresses.
abbrev pub driven : (ℕ → ℕ) → Option ℕ → ℕ
driven id_of none = 0
driven id_of (some a) = id_of a

-- The kernel drives every connector from the CRTC that the driver holds.
abbrev pub InSync : (ℕ → ℕ) → Values → List Output → Type 0
InSync id_of v = All (λ o. IsReal o → v o.output_id o.crtc_id_prop ≡ driven id_of o.current_crtc)

-- The ids of the state: connectors, CRTCs and the plane have different ones.
pub record HasIds (id_of : ℕ → ℕ) (s : State) : Type 0 where
  pub own : id_of s.crtc.address ≡ s.crtc.crtc_id
  pub distinct : AreDistinct s.outputs
  pub separate :
      All
        (λ o.
          IsReal o
          → (o.output_id ≢ s.crtc.crtc_id)
            × (o.output_id ≢ s.crtc.plane_id)
            × All (λ d. o.output_id ≢ d.crtc_id) s.others)
        s.outputs

-- What a request says of all connectors.
abbrev Wants : Crtc → Values → List Assign → List Output → Type 0
Wants c v assigns = All (λ o.
    IsReal o
    → applied assigns v o.output_id o.crtc_id_prop ≡ wanted c o (v o.output_id o.crtc_id_prop))

settle-InSync :
    (id_of : ℕ → ℕ) (c : Crtc) (v : Values) (assigns : List Assign) (os : List Output)
    → id_of c.address ≡ c.crtc_id
    → Wants c v assigns os
    → InSync id_of v os
    → InSync id_of (applied assigns v) (settle c.address os)
unfolding settle
settle-InSync id_of c v assigns [] own w h = tt
settle-InSync id_of c v assigns (o ∷ os) own (w, ws) (h, hs) =
    let rest = settle-InSync id_of c v assigns os own ws hs in
    elim (Bool-cases (is_at o.crtc c.address)) [
      | inl on ↦ rw on (λ real. ground (arith, w real), rest)
      | inr off ↦ elim (Bool-cases (is_at o.current_crtc c.address)) [
        | inl was ↦ rw (off, was) (λ real. ground (arith, w real), rest)
        | inr never ↦ rw (off, never) (λ real. ground (arith, w real, h real), rest)
      ]
    ]

module _ (k : Kernel) (s : State) (fb x y : ℕ) where
  -- The request and the CRTC, if there are any.
  abbrev IsRight : (v : Values) → Option (Request × Crtc) → Type 0
  IsRight v none = Unit {0}
  IsRight v (some (req, d)) =
      SameIds s.crtc d × (req.failed ≡ false → Wants s.crtc v req.assigns s.outputs)

  -- The rest of the request once the connectors and the CRTC are in it.
  rest_IsRight :
      (id_of : ℕ → ℕ) (v : Values) (req0 req : Request) (d : Crtc) (planes : ℕ)
      → HasIds id_of s
      → SameIds s.crtc d
      → ((o : ℕ) → o ≢ s.crtc.crtc_id → Extends o req0 req)
      → (req0.failed ≡ false → Wants s.crtc v req0.assigns s.outputs)
      → IsRight v (
          some (
            disable_orphans k d.address s.outputs s.others (plane_add_props k req d planes x y),
            d,
          ))
  rest_IsRight id_of v req0 req d planes ids (a, i, p, same) ext w =
      let req1 = plane_add_props k req d planes x y in
      let req2 = disable_orphans k d.address s.outputs s.others req1 in
      let whole : (o : ℕ)
          → o ≢ s.crtc.crtc_id
          → o ≢ s.crtc.plane_id
          → All (λ e. o ≢ e.crtc_id) s.others
          → Extends o req0 req2 =
        λ o n m l. Extends-trans o req0 req req2 (ext o n) (
          Extends-trans o req req1 req2 (plane_add_props-Extends k o req d planes x y (rw p m))
            (disable_orphans-Extends k o d.address s.outputs s.others req1 l)) in
      (
        (a, i, p, same),
        λ f. elim (Bool-cases req0.failed) [
          | inl bad ↦
              All-map
                (λ o sep real.
                  let (n, m, l) = sep real in
                  let good : req0.failed ≡ false = (whole o.output_id n m l).works f in absurd cc)
                s.outputs ids.separate
          | inr good ↦
              All-both
                (λ o sep said real.
                  let (n, m, l) = sep real in
                  (whole o.output_id n m l).agrees v o.crtc_id_prop ∙ said real)
                s.outputs ids.separate (w good)
        ],
      )

  mode_request-IsRight :
      (id_of : ℕ → ℕ) (v : Values) → HasIds id_of s → IsRight v (mode_request k s fb x y)
  unfolding mode_request crtc_add_dpms_props
  mode_request-IsRight id_of v ids =
      let r = connect k s.crtc dpms_on s.outputs (empty_request, false) in
      let step : (o : ℕ) → o ≢ s.crtc.crtc_id → Activates o s.crtc r.0 (add_active k s.crtc r) =
        λ o n. add_active-Activates k o s.crtc r.0 r.1 n in
      elim (Option-cases (add_active k s.crtc r)) [
        | inl e ↦ rw e tt
        | inr ((req, d, active), e) ↦
            let at : (o : ℕ) → o ≢ s.crtc.crtc_id → SameIds s.crtc d × Extends o r.0 req =
              λ o n. subst (Activates o s.crtc r.0) e (step o n) in
            rw e (
              rest_IsRight id_of v r.0 req d (if active then fb else 0) ids
                (at (suc s.crtc.crtc_id) (ground arith)).0 (λ o n. (at o n).1)
                (λ f. connect-wanted k s.crtc s.outputs (empty_request, false) v ids.distinct f))
      ]

module _ (k : Kernel) (id_of : ℕ → ℕ) (v : Values) where
  -- The values of the kernel after all that it has carried out.
  abbrev pub IsInSync : State → Type 0
  IsInSync s = InSync id_of (after s.requests v) s.outputs

  -- If there is a result, its state is in step.
  abbrev pub EndsInSync : Option (State × Bool) → Type 0
  EndsInSync none = Unit {0}
  EndsInSync (some (s, ok)) = IsInSync s

  commit_mode-InSync :
      (s : State) (test_only : Bool) (req : Request) (d : Crtc)
      → id_of s.crtc.address ≡ s.crtc.crtc_id
      → SameIds s.crtc d
      → (req.failed ≡ false → Wants s.crtc (after s.requests v) req.assigns s.outputs)
      → IsInSync s
      → IsInSync (commit_mode k s test_only (req, d)).0
  unfolding commit_mode committed
  commit_mode-InSync s test_only req d own (a, i, p, same) w h =
      elim (Bool-cases (not req.failed && k.commits test_only req.assigns)) [
        | inr refused ↦ rw refused h
        | inl taken ↦ elim (Bool-cases test_only) [
          | inl test ↦ rw (taken, test) h
          | inr real ↦
              rw (taken, real, a)
                (settle-InSync id_of s.crtc (after s.requests v) req.assigns s.outputs own
                  (w (ground arith)) h)
        ]
      ]

  set_at_fb-InSync :
      (s : State) (test_only : Bool) (fb_id fb x y : ℕ)
      → s.atomic ≡ true
      → HasIds id_of s
      → IsInSync s
      → EndsInSync (set_at_fb k s test_only (fb_id, fb, x, y))
  unfolding set_at_fb
  set_at_fb-InSync s test_only fb_id fb x y atomic ids h =
      let s' = record s { fb_id = fb_id } in
      let ids' : HasIds id_of s' = record {
        own = ids.own;
        distinct = ids.distinct;
        separate = ids.separate;
      } in
      let right = mode_request-IsRight k s' fb x y id_of (after s.requests v) ids' in
      let asked : EndsInSync
          (mode_request k s' fb x y >>= λ r. some (commit_mode k s' test_only r)) =
        elim (Option-cases (mode_request k s' fb x y)) [
          | inl e ↦ rw e tt
          | inr ((req, d), e) ↦
              let (same, w) = subst (IsRight k s' fb x y (after s.requests v)) e right in
              rw e (commit_mode-InSync s' test_only req d ids.own same w h)
        ] in
      if_either EndsInSync s.atomic _ _
        (λ e. if_either EndsInSync k.got_request _ _ (λ e. asked) (λ e. h)) (λ e. absurd cc)

  -- If connectors, CRTCs and the plane have different ids, and the kernel drives every connector from
  -- the CRTC that the driver holds for it, then so it does after drmmode_crtc_set_mode with an atomic
  -- request, whether this is a test, is refused, or is carried out.
  pub crtc_set_mode-InSync :
      (s : State) (test_only : Bool)
      → s.atomic ≡ true
      → HasIds id_of s
      → IsInSync s
      → EndsInSync (crtc_set_mode k s test_only)
  unfolding crtc_set_mode
  crtc_set_mode-InSync s test_only atomic ids h =
      elim (Option-cases (crtc_get_fb_id k s.fb_id s.crtc)) [
        | inl e ↦ rw (e, crtc_set_mode) h
        | inr ((fb_id, fb, x, y), e) ↦
            rw (e, crtc_set_mode) (set_at_fb-InSync s test_only fb_id fb x y atomic ids h)
      ]
