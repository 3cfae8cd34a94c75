-- ===== src/Modeset/Atomic.antt =====
-- Requests for atomic mode setting in drmmode_display.c: the state of CRTCs and outputs, the
-- properties that are added to a request, mode blobs, and the frame buffer of a CRTC. libdrm's
-- answers are a record.
use xserver_xorg_video_loong.Base.{
  ℕ, ◌-◌, ◌*◌, ◌^◌, Bool, true, false, not, Option, none, some, List, [], ◌∷◌, ◌==◌, if◌then◌else◌,
}
use xserver_xorg_video_loong.Modeset.Mode.{KMode, DisplayMode, compare_kmodes}

-- One property of a request.
pub record Assign : Type 0 where
  pub object : ℕ
  pub prop : ℕ
  pub value : ℕ

-- drmModeAtomicReq with the newest property first, and whether ret is not 0.
pub record Request : Type 0 where
  pub assigns : List Assign
  pub failed : Bool

abbrev pub empty_request : Request
empty_request = record { assigns = []; failed = false }

-- A call of drmModeSetCrtc.
pub record LegacyCrtc : Type 0 where
  pub crtc_id : ℕ
  pub fb_id : ℕ
  pub x : ℕ
  pub y : ℕ
  pub output_ids : List ℕ
  pub mode : Option KMode

pub data PlaneProp : Type 0 where
  plane_fb_id plane_crtc_id src_x src_y src_w src_h crtc_x crtc_y crtc_w crtc_h : PlaneProp

pub data CrtcProp : Type 0 where
  crtc_active crtc_mode_id : CrtcProp

-- drmmode_mode_rec.
pub record ModeRec : Type 0 where
  pub mode_info : KMode
  pub blob_id : ℕ

-- What scans out: a shared pixmap with its own frame buffer, one of an offload screen, a rotated
-- frame buffer (0 where there is none), or the screen.
pub data Scanout : Type 0 where
  prime : (pixmap_fb_id : ℕ) → Scanout
  offload : (prime_pixmap_x : ℕ) → Scanout
  screen : (rotate_fb_id : ℕ) → Scanout

-- xf86CrtcRec with its private record; `address` tells CRTCs apart as their pointers do.
pub record Crtc : Type 0 where
  pub address : ℕ
  pub crtc_id : ℕ
  pub props : CrtcProp → ℕ
  pub plane_id : ℕ
  pub props_plane : PlaneProp → ℕ
  pub mode : DisplayMode
  pub x : ℕ
  pub y : ℕ
  pub rotation : ℕ
  pub enabled : Bool
  pub active : Bool
  pub dpms_mode : ℕ
  pub need_modeset : Bool
  pub current_mode : Option ModeRec
  pub mode_list : List ModeRec
  pub scanout : Scanout

-- xf86OutputRec with its private record; CRTCs by their addresses.
pub record Output : Type 0 where
  pub output_id : ℕ
  pub crtc_id_prop : ℕ
  pub has_connector : Bool
  pub dpms : ℕ
  pub crtc : Option ℕ
  pub current_crtc : Option ℕ

-- The output_id -1 as the kernel would take it.
abbrev pub no_id : ℕ
no_id = 2 ^ 32 - 1

-- DPMSModeOn.
abbrev pub dpms_on : ℕ
dpms_on = 0

-- The answers of allocators and libdrm. Whether a property is taken may depend on those before it;
-- a commit is asked with whether it is a test only.
pub record Kernel : Type 0 where
  pub got_request : Bool
  pub accepts : List Assign → Assign → Bool
  pub got_mode : (crtc : ℕ) → Bool
  pub create_blob : (crtc : ℕ) → KMode → Option ℕ
  pub add_fb : Option ℕ
  pub commits : (test_only : Bool) → List Assign → Bool
  pub got_output_ids : Bool
  pub sets_crtc : LegacyCrtc → Bool

abbrev pub is_at : Option ℕ → ℕ → Bool
is_at none a = false
is_at (some b) a = b == a

-- The mode of the CRTC is already the one that is asked for.
unfoldable pub has_mode : Crtc → KMode → Bool
unfolding compare_kmodes
has_mode c info = elim c.current_mode [
  | none ↦ false
  | some mode ↦ compare_kmodes mode.mode_info info
]

-- The new mode becomes the current one whether or not the kernel made the blob.
abbrev pub new_mode : Crtc → ModeRec → Crtc
new_mode c mode = record c { current_mode = some mode; mode_list = mode ∷ c.mode_list }

module _ (k : Kernel) where
  -- drmModeAtomicAddProperty, whose failure stays in ret.
  unfoldable pub add_prop : Request → (object prop value : ℕ) → Request
  add_prop req object prop value =
      let a : Assign = record { object = object; prop = prop; value = value } in
      if k.accepts req.assigns a
      then record req { assigns = a ∷ req.assigns }
      else record req { failed = true }

  unfoldable pub plane_add_prop : Request → Crtc → PlaneProp → (value : ℕ) → Request
  unfolding add_prop
  plane_add_prop req c prop value = add_prop req c.plane_id (c.props_plane prop) value

  unfoldable pub crtc_add_prop : Request → Crtc → CrtcProp → (value : ℕ) → Request
  unfolding add_prop
  crtc_add_prop req c prop value = add_prop req c.crtc_id (c.props prop) value

  unfoldable pub connector_add_prop : Request → Output → (value : ℕ) → Request
  unfolding add_prop
  connector_add_prop req o value = add_prop req o.output_id o.crtc_id_prop value

  -- Positions are small enough that the shifts stay in an int.
  unfoldable pub plane_add_props : Request → Crtc → (fb_id x y : ℕ) → Request
  unfolding plane_add_prop
  plane_add_props req c fb_id x y =
      let req1 = plane_add_prop req c plane_fb_id fb_id in
      let req2 = plane_add_prop req1 c plane_crtc_id (if fb_id == 0 then 0 else c.crtc_id) in
      let req3 = plane_add_prop req2 c src_x (x * 2 ^ 16) in
      let req4 = plane_add_prop req3 c src_y (y * 2 ^ 16) in
      let req5 = plane_add_prop req4 c src_w (c.mode.hdisplay * 2 ^ 16) in
      let req6 = plane_add_prop req5 c src_h (c.mode.vdisplay * 2 ^ 16) in
      let req7 = plane_add_prop req6 c crtc_x 0 in
      let req8 = plane_add_prop req7 c crtc_y 0 in
      let req9 = plane_add_prop req8 c crtc_w c.mode.hdisplay in
      plane_add_prop req9 c crtc_h c.mode.vdisplay

  -- The CRTC, and whether the result is not 0.
  unfoldable pub ensure_blob : Crtc → KMode → Crtc × Bool
  unfolding has_mode
  ensure_blob c info =
      if has_mode c info
      then (c, false)
      else if not (k.got_mode c.address)
      then (c, true)
      else elim (k.create_blob c.address info) [
        | none ↦ (new_mode c (record { mode_info = info; blob_id = 0 }), true)
        | some id ↦ (new_mode c (record { mode_info = info; blob_id = id }), false)
      ]
