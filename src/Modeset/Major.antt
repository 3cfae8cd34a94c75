-- ===== src/Modeset/Major.antt =====
-- drmmode_set_mode_major, drmmode_crtc_flip and drmmode_crtc_destroy of drmmode_display.c. The
-- server's answer to a rotation is an argument; gamma and the flipping of shared pixmaps, which touch
-- none of this state, are left out.
pub mod Outcomes
pub mod Failures
pub mod Blobs
use xserver_xorg_video_loong.Base.{
  ℕ, Bool, true, false, not, ◌&&◌, ◌||◌, Option, none, some, List, [], ◌∷◌, ◌==◌, if◌then◌else◌,
  ◌>>=◌,
}
use xserver_xorg_video_loong.Modeset.Mode.{DisplayMode}
use xserver_xorg_video_loong.Modeset.Atomic.{
  Assign, Request, empty_request, ModeRec, Crtc, Output, no_id, dpms_on, Kernel, is_at,
  plane_add_props,
}
use xserver_xorg_video_loong.Modeset.Crtc.{State, crtc_set_mode}
use xserver_xorg_video_loong.Modeset.Dpms.{crtc_dpms}

-- What set_mode_major is asked for.
pub record Asked : Type 0 where
  pub mode : Option DisplayMode
  pub rotation : ℕ
  pub x : ℕ
  pub y : ℕ

-- The CRTC with the mode that is asked for.
abbrev pub with_mode : Crtc → DisplayMode → Asked → Crtc
with_mode c mode a = record c { mode = mode; x = a.x; y = a.y; rotation = a.rotation }

-- The CRTC with the mode of another.
abbrev pub restored : (saved : Crtc) → Crtc → Crtc
restored saved c = record c {
  mode = saved.mode;
  x = saved.x;
  y = saved.y;
  rotation = saved.rotation;
}

-- The outputs of the CRTC are on.
unfoldable pub outputs_on : (c : ℕ) → List Output → List Output
outputs_on c [] = []
outputs_on c (o ∷ os) =
    let rest = outputs_on c os in
    if is_at o.crtc c && not (o.output_id == no_id) && o.has_connector
    then record o { dpms = dpms_on } ∷ rest
    else o ∷ rest

-- The label done.
unfoldable pub done : (saved : Crtc) → State × Bool → State × Bool
done saved (s, true) = (record s { crtc = record s.crtc { active = true } }, true)
done saved (s, false) = (record s { crtc = restored saved s.crtc }, false)

-- The kernel may answer the test and the mode itself in different ways.
module _ (first second : Kernel) where
  -- What follows a mode that could be set, or in atomic mode tested. A need for a mode is met, and
  -- DPMS is on; the result of the last call is not used.
  unfoldable pub after_mode : State → Option State
  unfolding outputs_on crtc_dpms crtc_set_mode
  after_mode s =
      let c = (crtc_dpms first s.atomic true (record s.crtc { need_modeset = false }) dpms_on).0 in
      let s = record s { crtc = c; outputs = outputs_on s.crtc.address s.outputs } in
      if s.atomic then (crtc_set_mode second s false >>= λ (s, ok). some s) else some s

  unfoldable pub try_mode : State → Option (State × Bool)
  unfolding after_mode crtc_set_mode
  try_mode s = crtc_set_mode first s s.atomic >>= λ (s, ok).
      if ok then (after_mode s >>= λ s. some (s, true)) else some (s, false)

  -- The rotation is tried with the new mode in place, and its failure is not the function's.
  unfoldable pub rotate_mode : State → (rotated : Bool) → Option (State × Bool)
  unfolding try_mode
  rotate_mode s rotated = if rotated then try_mode s else some (s, true)

  unfoldable pub set_mode_major : State → (rotated : Bool) → Asked → Option (State × Bool)
  unfolding rotate_mode done
  set_mode_major s rotated a = elim a.mode [
    | none ↦ some (done s.crtc (s, true))
    | some mode ↦ rotate_mode (record s { crtc = with_mode s.crtc mode a }) rotated >>= λ r.
        some (done s.crtc r)
  ]

-- drmmode_crtc_flip with an atomic request: what the kernel carried out, if anything.
unfoldable pub crtc_flip : Kernel → Crtc → (fb_id : ℕ) → Option (List Assign)
unfolding plane_add_props
crtc_flip k c fb_id =
    let req = plane_add_props k empty_request c fb_id c.x c.y in
    if k.got_request && not req.failed && k.commits false req.assigns
    then some req.assigns
    else none

-- The blobs that drm_mode_destroy gives back for the modes of the list.
unfoldable pub destroy_modes : List ModeRec → List ℕ
destroy_modes [] = []
destroy_modes (m ∷ ms) =
    let rest = destroy_modes ms in if m.blob_id == 0 then rest else m.blob_id ∷ rest

-- drmmode_crtc_destroy: the CRTC without its modes, and the blobs that are given back.
unfoldable pub crtc_destroy : (atomic : Bool) → Crtc → Crtc × List ℕ
unfolding destroy_modes
crtc_destroy atomic c =
    if atomic then (record c { mode_list = [] }, destroy_modes c.mode_list) else (c, [])
