-- ===== src/Modeset/Dpms.antt =====
-- drmmode_output_disable, drmmode_crtc_disable, drmmode_crtc_dpms and drmmode_set_dpms of
-- drmmode_display.c. The server's xf86DPMSSet is not modelled; it runs with pending_modeset set.
use xserver_xorg_video_loong.Base.{
  ℕ, Bool, true, false, not, ◌&&◌, ◌||◌, Option, none, some, List, [], ◌∷◌, ◌==◌, if◌then◌else◌,
  ◌>>=◌, is_some,
}
use xserver_xorg_video_loong.Modeset.Atomic.{
  Assign, Request, empty_request, LegacyCrtc, Crtc, Output, dpms_on, Kernel, plane_add_props,
  connector_add_prop,
}
use xserver_xorg_video_loong.Modeset.Crtc.{add_off, crtc_add_dpms_props, crtc_get_fb_id}

-- DPMSModeOff.
abbrev pub dpms_off : ℕ
dpms_off = 3

-- An output that is turned off, with the CRTC that it was on, what the kernel carried out, and
-- whether the result is 0.
pub record Disabled : Type 0 where
  pub output : Output
  pub crtc : Option Crtc
  pub requests : List (List Assign)
  pub ok : Bool

abbrev off_legacy : Crtc → LegacyCrtc
off_legacy c = record { crtc_id = c.crtc_id; fb_id = 0; x = 0; y = 0; output_ids = []; mode = none }

module _ (k : Kernel) where
  -- The request and the CRTC as it is after it is made.
  unfoldable pub disable_request :
      List Output → Output → Option Crtc → Option (Request × Option Crtc)
  unfolding crtc_add_dpms_props connector_add_prop
  disable_request outputs o none = some (connector_add_prop k empty_request o 0, none)
  disable_request outputs o (some c) =
      crtc_add_dpms_props k (connector_add_prop k empty_request o 0) outputs c dpms_off
      >>= λ (req, c, active). some (req, some c)

  unfoldable pub commit_disable : Output → Request × Option Crtc → Disabled
  commit_disable o (req, c) =
      if not req.failed && k.commits false req.assigns
      then record {
        output = record o { current_crtc = none };
        crtc = c;
        requests = req.assigns ∷ [];
        ok = true;
      }
      else record { output = o; crtc = c; requests = []; ok = false }

  -- drmmode_output_disable, for the current CRTC of the output.
  unfoldable pub output_disable : List Output → Output → Option Crtc → Option Disabled
  unfolding disable_request commit_disable
  output_disable outputs o c =
      if k.got_request
      then (disable_request outputs o c >>= λ r. some (commit_disable o r))
      else some (record { output = o; crtc = c; requests = []; ok = false })

  -- drmmode_crtc_disable: what the kernel carried out, if anything; it is the result 0 then.
  unfoldable pub crtc_disable : Crtc → Option (List Assign)
  unfolding add_off
  crtc_disable c =
      let req = add_off k empty_request c in
      if k.got_request && not req.failed && k.commits false req.assigns
      then some req.assigns
      else none

  -- drmmode_crtc_dpms: the CRTC, and what the kernel carried out.
  unfoldable pub crtc_dpms :
      (atomic pending_modeset : Bool)
      → Crtc
      → (dpms : ℕ) → Crtc × Option (List Assign) × Option LegacyCrtc
  unfolding crtc_disable
  crtc_dpms atomic pending_modeset c dpms =
      let c = record c { dpms_mode = dpms } in
      if atomic
      then if dpms == dpms_on || pending_modeset then (c, none, none) else (c, crtc_disable c, none)
      else if c.enabled
      then (c, none, none)
      else (c, none, some (off_legacy c))

  -- The loop over the outputs without CRTC; each round forgets the failures before it.
  unfoldable pub detach_unused : List Output → Request → Request
  unfolding connector_add_prop
  detach_unused [] req = req
  detach_unused (o ∷ os) req =
      detach_unused os
        (if is_some o.crtc then req else connector_add_prop k (record req { failed = false }) o 0)

  -- The CRTC that is on and waits for its mode gets its plane.
  unfoldable pub show_plane : (fb_id : ℕ) → (dpms : ℕ) → Request × Crtc × Bool → Request × Crtc × ℕ
  unfolding plane_add_props crtc_get_fb_id
  show_plane fb_id dpms (req, c, active) =
      if dpms == dpms_on && active && c.need_modeset
      then elim (crtc_get_fb_id k fb_id c) [
        | none ↦ (req, c, fb_id)
        | some (screen_fb, fb, x, y) ↦
            (plane_add_props k req c fb x y, record c { need_modeset = false }, screen_fb)
      ]
      else (req, c, fb_id)

  -- The loop over the CRTCs: the request, the CRTCs, and the frame buffer of the screen.
  unfoldable pub dpms_crtcs :
      List Output
      → (dpms : ℕ) → List Crtc
      → Request
      → (fb_id : ℕ) → Option (Request × List Crtc × ℕ)
  unfolding crtc_add_dpms_props show_plane
  dpms_crtcs outputs dpms [] req fb_id = some (req, [], fb_id)
  dpms_crtcs outputs dpms (c ∷ cs) req fb_id = crtc_add_dpms_props k req outputs c dpms >>= λ r.
      let (req, c, fb_id) = show_plane fb_id dpms r in
      dpms_crtcs outputs dpms cs req fb_id >>= λ (req, cs, fb_id). some (req, c ∷ cs, fb_id)

  -- The commit, whose result is not used: what the kernel carried out.
  unfoldable pub commit_dpms : Request × List Crtc × ℕ → List Crtc × ℕ × Option (List Assign)
  commit_dpms (req, cs, fb_id) =
      if not req.failed && k.commits false req.assigns
      then (cs, fb_id, some req.assigns)
      else (cs, fb_id, none)

  -- drmmode_set_dpms up to xf86DPMSSet.
  unfoldable pub set_dpms :
      List Output → List Crtc → (fb_id dpms : ℕ) → Option (List Crtc × ℕ × Option (List Assign))
  unfolding detach_unused dpms_crtcs commit_dpms
  set_dpms outputs crtcs fb_id dpms =
      if k.got_request
      then (dpms_crtcs outputs dpms crtcs (detach_unused outputs empty_request) fb_id >>= λ r.
          some (commit_dpms r))
      else some (crtcs, fb_id, none)
