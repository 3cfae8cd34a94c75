-- ===== src/Modeset/Crtc.antt =====
-- crtc_add_dpms_props, drmmode_crtc_get_fb_id and drmmode_crtc_set_mode of drmmode_display.c.
pub mod Extension
pub mod Connectors
pub mod Sync
use xserver_xorg_video_loong.Base.{
  ℕ, suc, ◌+◌, Bool, true, false, not, ◌&&◌, ◌||◌, Option, none, some, List, [], ◌∷◌, ◌==◌, ltb,
  if◌then◌else◌, ◌>>=◌,
}
use xserver_xorg_video_loong.Modeset.Mode.{convert_to_kmode}
use xserver_xorg_video_loong.Modeset.Atomic.{
  Assign, Request, empty_request, LegacyCrtc, crtc_active, crtc_mode_id, prime, offload, screen,
  Crtc, Output, no_id, dpms_on, Kernel, is_at, plane_add_props, crtc_add_prop, connector_add_prop,
  ensure_blob,
}

-- What a mode is set on: the frame buffer of the screen, the outputs, the CRTC, and the others in
-- their order; and the requests that the kernel has carried out, newest first.
pub record State : Type 0 where
  pub atomic : Bool
  pub fb_id : ℕ
  pub outputs : List Output
  pub crtc : Crtc
  pub others : List Crtc
  pub requests : List (List Assign)

module _ (k : Kernel) where
  -- One round of the loop over the outputs; the Bool is crtc_active.
  unfoldable pub connect_one : Crtc → (dpms : ℕ) → Output → Request × Bool → Request × Bool
  unfolding connector_add_prop
  connect_one c dpms o (req, active) =
      let now = active || dpms == dpms_on in
      if is_at o.crtc c.address
      then if o.output_id == no_id
        then (req, active)
        else (connector_add_prop k req o (if now then c.crtc_id else 0), now)
      else if is_at o.current_crtc c.address
      then (connector_add_prop k req o 0, active)
      else (req, active)

  unfoldable pub connect : Crtc → (dpms : ℕ) → List Output → Request × Bool → Request × Bool
  unfolding connect_one
  connect c dpms [] r = r
  connect c dpms (o ∷ os) r = connect c dpms os (connect_one c dpms o r)

  -- An active CRTC gets the blob of its mode; without a current mode that is a null pointer.
  unfoldable pub add_mode : Crtc × Bool → Request → Option (Request × Crtc)
  unfolding crtc_add_prop
  add_mode (c, failed) req =
      let req = crtc_add_prop k (record req { failed = req.failed || failed }) c crtc_active 1 in
      elim c.current_mode [
        | none ↦ none
        | some mode ↦ some (crtc_add_prop k req c crtc_mode_id mode.blob_id, c)
      ]

  unfoldable pub add_off : Request → Crtc → Request
  unfolding crtc_add_prop
  add_off req c = crtc_add_prop k (crtc_add_prop k req c crtc_active 0) c crtc_mode_id 0

  -- The part after the loop.
  unfoldable pub add_active : Crtc → Request × Bool → Option (Request × Crtc × Bool)
  unfolding ensure_blob add_mode add_off
  add_active c (req, false) = some (add_off req c, c, false)
  add_active c (req, true) =
      add_mode (ensure_blob k c (convert_to_kmode c.mode)) req >>= λ (req, c). some (req, c, true)

  -- crtc_add_dpms_props.
  unfoldable pub crtc_add_dpms_props :
      Request → List Output → Crtc → (dpms : ℕ) → Option (Request × Crtc × Bool)
  unfolding connect add_active
  crtc_add_dpms_props req outputs c dpms = add_active c (connect c dpms outputs (req, false))

  -- drmmode_crtc_get_fb_id: the frame buffer of the screen and that of the CRTC, with its position.
  unfoldable pub wanted_fb : (fb_id : ℕ) → Crtc → ℕ × ℕ × ℕ
  wanted_fb fb_id c = elim c.scanout [
    | prime pixmap_fb_id ↦ (pixmap_fb_id, 0, 0)
    | offload prime_pixmap_x ↦ (0, prime_pixmap_x, 0)
    | screen rotate_fb_id ↦ if rotate_fb_id == 0 then (fb_id, c.x, c.y) else (rotate_fb_id, 0, 0)
  ]

  unfoldable pub import_fb : (fb_id : ℕ) → ℕ × ℕ × ℕ → Option (ℕ × ℕ × ℕ × ℕ)
  import_fb fb_id (fb, x, y) =
      if fb == 0
      then elim k.add_fb [ none ↦ none | some new ↦ some (new, new, x, y) ]
      else some (fb_id, fb, x, y)

  unfoldable pub crtc_get_fb_id : (fb_id : ℕ) → Crtc → Option (ℕ × ℕ × ℕ × ℕ)
  unfolding wanted_fb import_fb
  crtc_get_fb_id fb_id c = import_fb fb_id (wanted_fb fb_id c)

-- How many outputs move from the CRTC `d` to `c`, and how many of `d` do not.
unfoldable pub lost_outputs : (c d : ℕ) → List Output → ℕ
lost_outputs c d [] = 0
lost_outputs c d (o ∷ os) =
    let rest = lost_outputs c d os in
    if is_at o.current_crtc d && is_at o.crtc c then suc rest else rest

unfoldable pub remaining_outputs : (c d : ℕ) → List Output → ℕ
remaining_outputs c d [] = 0
remaining_outputs c d (o ∷ os) =
    let rest = remaining_outputs c d os in
    if is_at o.current_crtc d && not (is_at o.crtc c) then suc rest else rest

unfoldable pub is_orphan : (c d : ℕ) → List Output → Bool
unfolding lost_outputs remaining_outputs
is_orphan c d outputs = ltb 0 (lost_outputs c d outputs) && remaining_outputs c d outputs == 0

-- The new CRTC of an output once the request is committed.
unfoldable pub settle : (c : ℕ) → List Output → List Output
settle c [] = []
settle c (o ∷ os) =
    let rest = settle c os in
    if is_at o.crtc c
    then record o { current_crtc = some c } ∷ rest
    else if is_at o.current_crtc c
    then record o { current_crtc = none } ∷ rest
    else o ∷ rest

-- The ids of the outputs of a CRTC.
unfoldable pub ids_on : (c : ℕ) → List Output → List ℕ
ids_on c [] = []
ids_on c (o ∷ os) =
    let rest = ids_on c os in
    if is_at o.crtc c && not (o.output_id == no_id) then o.output_id ∷ rest else rest

module _ (k : Kernel) where
  -- The loop that turns orphaned CRTCs off.
  unfoldable pub disable_orphans : (c : ℕ) → List Output → List Crtc → Request → Request
  unfolding is_orphan add_off
  disable_orphans c outputs [] req = req
  disable_orphans c outputs (d ∷ ds) req =
      disable_orphans c outputs ds (if is_orphan c d.address outputs then add_off k req d else req)

  -- The request of an atomic mode.
  unfoldable pub mode_request : State → (fb x y : ℕ) → Option (Request × Crtc)
  unfolding crtc_add_dpms_props plane_add_props disable_orphans
  mode_request s fb x y =
      crtc_add_dpms_props k empty_request s.outputs s.crtc dpms_on >>= λ (req, c, active).
      let req = plane_add_props k req c (if active then fb else 0) x y in
      some (disable_orphans c.address s.outputs s.others req, c)

  -- A commit that the kernel has taken; a test changes nothing.
  unfoldable pub committed : State → (test_only : Bool) → List Assign → State
  unfolding settle
  committed s test_only assigns =
      if test_only
      then s
      else record s { outputs = settle s.crtc.address s.outputs; requests = assigns ∷ s.requests }

  -- The Bool is whether the result is 0.
  unfoldable pub commit_mode : State → (test_only : Bool) → Request × Crtc → State × Bool
  unfolding committed
  commit_mode s test_only (req, c) =
      if not req.failed && k.commits test_only req.assigns
      then (committed (record s { crtc = c }) test_only req.assigns, true)
      else (record s { crtc = c }, false)

  unfoldable pub legacy_request : State → (fb x y : ℕ) → LegacyCrtc
  unfolding ids_on
  legacy_request s fb x y = record {
    crtc_id = s.crtc.crtc_id;
    fb_id = fb;
    x = x;
    y = y;
    output_ids = ids_on s.crtc.address s.outputs;
    mode = some (convert_to_kmode s.crtc.mode);
  }

  unfoldable pub set_at_fb : State → (test_only : Bool) → ℕ × ℕ × ℕ × ℕ → Option (State × Bool)
  unfolding mode_request commit_mode legacy_request
  set_at_fb s test_only (fb_id, fb, x, y) =
      let s = record s { fb_id = fb_id } in
      if s.atomic
      then if k.got_request
        then (mode_request s fb x y >>= λ r. some (commit_mode s test_only r))
        else some (s, false)
      else some (s, k.got_output_ids && k.sets_crtc (legacy_request s fb x y))

  -- drmmode_crtc_set_mode; none is the use of a null pointer.
  unfoldable pub crtc_set_mode : State → (test_only : Bool) → Option (State × Bool)
  unfolding crtc_get_fb_id set_at_fb
  crtc_set_mode s test_only = elim (crtc_get_fb_id k s.fb_id s.crtc) [
    | none ↦ some (s, false)
    | some fb ↦ set_at_fb s test_only fb
  ]
