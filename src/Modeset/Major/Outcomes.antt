-- ===== src/Modeset/Major/Outcomes.antt =====
-- What drmmode_set_mode_major leaves on each path.
use xserver_xorg_video_loong.Base.{
  ℕ, suc, ◌≡◌, refl, inl, inr, Bool, true, false, none, some, arith, Bool-cases, Option-cases,
  if_either, not, ◌&&◌, ◌||◌, ◌==◌, ◌∙◌, Ensures, Ensures->>=,
}
use mathlib.Core.Path.{subst}
use xserver_xorg_video_loong.Modeset.Atomic.{Request, empty_request, Crtc, dpms_on, Kernel}
use xserver_xorg_video_loong.Modeset.Crtc.{
  State, connect, add_active, crtc_add_dpms_props, crtc_get_fb_id, mode_request, committed,
  commit_mode, set_at_fb, crtc_set_mode,
}
use xserver_xorg_video_loong.Modeset.Crtc.Extension.{SameMode, Activates, add_active-Activates}
use xserver_xorg_video_loong.Modeset.Dpms.{crtc_dpms}
use xserver_xorg_video_loong.Modeset.Major.{
  Asked, with_mode, outputs_on, done, after_mode, try_mode, rotate_mode, set_mode_major,
}

-- The CRTC of a state is to have the mode of `c`.
abbrev Keeps : Crtc → State × Bool → Type 0
Keeps c r = SameMode c r.0.crtc

module _ (k : Kernel) where
  mode_request-Keeps :
      (s : State) (fb x y : ℕ)
      → Ensures (λ (r : Request × Crtc). SameMode s.crtc r.1) (mode_request k s fb x y)
  unfolding mode_request crtc_add_dpms_props
  mode_request-Keeps s fb x y =
      let r = connect k s.crtc dpms_on s.outputs (empty_request, false) in
      let other = suc s.crtc.crtc_id in
      let step = add_active-Activates k other s.crtc r.0 r.1 (ground arith) in
      elim (Option-cases (add_active k s.crtc r)) [
        | inl e ↦ rw e tt
        | inr ((req, d, active), e) ↦
            let ((a, i, p, m), ext) = subst (Activates other s.crtc r.0) e step in rw e m
      ]

  commit_mode-Keeps :
      (s : State) (test_only : Bool) (r : Request × Crtc)
      → SameMode s.crtc r.1
      → Keeps s.crtc (commit_mode k s test_only r)
  unfolding commit_mode committed
  commit_mode-Keeps s test_only (req, d) m =
      elim (Bool-cases (not req.failed && k.commits test_only req.assigns)) [
        | inr refused ↦ rw refused m
        | inl taken ↦ elim (Bool-cases test_only) [
          | inl test ↦ rw (taken, test) m
          | inr real ↦ rw (taken, real) m
        ]
      ]

  set_at_fb-Keeps :
      (s : State) (test_only : Bool) (fbs : ℕ × ℕ × ℕ × ℕ)
      → Ensures (Keeps s.crtc) (set_at_fb k s test_only fbs)
  unfolding set_at_fb
  set_at_fb-Keeps s test_only (fb_id, fb, x, y) =
      let t = record s { fb_id = fb_id } in
      let same : SameMode s.crtc s.crtc = (refl, refl, refl, refl) in
      let asked =
        Ensures->>= (λ (r : Request × Crtc). SameMode s.crtc r.1) (Keeps s.crtc)
          (mode_request k t fb x y) (λ r. some (commit_mode k t test_only r))
          (mode_request-Keeps t fb x y) (commit_mode-Keeps t test_only) in
      if_either (Ensures (Keeps s.crtc)) s.atomic _ _
        (λ e. if_either (Ensures (Keeps s.crtc)) k.got_request _ _ (λ f. asked) (λ f. same))
        (λ e. same)

  crtc_set_mode-Keeps :
      (s : State) (test_only : Bool) → Ensures (Keeps s.crtc) (crtc_set_mode k s test_only)
  unfolding crtc_set_mode
  crtc_set_mode-Keeps s test_only = elim (Option-cases (crtc_get_fb_id k s.fb_id s.crtc)) [
    | inl e ↦ rw (e, crtc_set_mode) (refl, refl, refl, refl)
    | inr (fbs, e) ↦ rw (e, crtc_set_mode) (set_at_fb-Keeps s test_only fbs)
  ]

-- The CRTC after TRUE is active and has the mode that was tried; after FALSE it has the old one.
abbrev pub IsSettled : (saved tried : Crtc) → State × Bool → Type 0
IsSettled saved tried (s, true) = (s.crtc.active ≡ true) × SameMode tried s.crtc
IsSettled saved tried (s, false) = SameMode saved s.crtc

-- The mode that is tried: the one that is asked for, or the old one where there is none.
abbrev pub tried : Crtc → Asked → Crtc
tried c a = elim a.mode [ none ↦ c | some mode ↦ with_mode c mode a ]

SameMode-trans : (c d e : Crtc) → SameMode c d → SameMode d e → SameMode c e
SameMode-trans c d e (m, x, y, r) (m', x', y', r') = (m' ∙ m, x' ∙ x, y' ∙ y, r' ∙ r)

crtc_dpms-SameMode :
    (k : Kernel) (atomic pending_modeset : Bool) (c : Crtc) (dpms : ℕ)
    → SameMode c (crtc_dpms k atomic pending_modeset c dpms).0
unfolding crtc_dpms
crtc_dpms-SameMode k atomic pending_modeset c dpms = elim (Bool-cases atomic) [
  | inl e ↦ elim (Bool-cases (dpms == dpms_on || pending_modeset)) [
    | inl f ↦ rw (e, f) (refl, refl, refl, refl)
    | inr f ↦ rw (e, f) (refl, refl, refl, refl)
  ]
  | inr e ↦ elim (Bool-cases c.enabled) [
    | inl f ↦ rw (e, f) (refl, refl, refl, refl)
    | inr f ↦ rw (e, f) (refl, refl, refl, refl)
  ]
]

module _ (first second : Kernel) where
  after_mode-Keeps :
      (s : State) → Ensures (λ (t : State). SameMode s.crtc t.crtc) (after_mode first second s)
  unfolding after_mode
  after_mode-Keeps s =
      let c = (crtc_dpms first s.atomic true (record s.crtc { need_modeset = false }) dpms_on).0 in
      let t = record s { crtc = c; outputs = outputs_on s.crtc.address s.outputs } in
      let m : SameMode s.crtc c =
        crtc_dpms-SameMode first s.atomic true (record s.crtc { need_modeset = false }) dpms_on in
      if_either (Ensures (λ (t : State). SameMode s.crtc t.crtc)) s.atomic _ _
        (λ e.
          Ensures->>= (Keeps c) (λ (t : State). SameMode s.crtc t.crtc)
            (crtc_set_mode second t false) (λ r. some r.0) (crtc_set_mode-Keeps second t false)
            (λ r h. SameMode-trans s.crtc c r.0.crtc m h))
        (λ e. m)

  try_mode-Keeps : (s : State) → Ensures (Keeps s.crtc) (try_mode first second s)
  unfolding try_mode
  try_mode-Keeps s =
      Ensures->>= (Keeps s.crtc) (Keeps s.crtc) (crtc_set_mode first s s.atomic) _
        (crtc_set_mode-Keeps first s s.atomic)
        (λ (t, ok) h.
          if_either (Ensures (Keeps s.crtc)) ok _ _
            (λ e.
              Ensures->>= (λ (u : State). SameMode t.crtc u.crtc) (Keeps s.crtc)
                (after_mode first second t) _ (after_mode-Keeps t)
                (λ u g. SameMode-trans s.crtc t.crtc u.crtc h g))
            (λ e. h))

  rotate_mode-Keeps :
      (s : State) (rotated : Bool) → Ensures (Keeps s.crtc) (rotate_mode first second s rotated)
  unfolding rotate_mode
  rotate_mode-Keeps s true = try_mode-Keeps s
  rotate_mode-Keeps s false = (refl, refl, refl, refl)

  done-IsSettled :
      (saved c : Crtc) (r : State × Bool) → Keeps c r → IsSettled saved c (done saved r)
  unfolding done
  done-IsSettled saved c (s, true) h = (refl, h)
  done-IsSettled saved c (s, false) h = (refl, refl, refl, refl)

  -- Where drmmode_set_mode_major returns TRUE, the CRTC is active and has the mode, the position and
  -- the rotation that it was asked for (the old ones if no mode was given); where it returns FALSE, it
  -- has those that it had before.
  pub set_mode_major-IsSettled :
      (s : State) (rotated : Bool) (a : Asked)
      → Ensures (IsSettled s.crtc (tried s.crtc a)) (set_mode_major first second s rotated a)
  unfolding set_mode_major
  set_mode_major-IsSettled s rotated a = elim (Option-cases a.mode) [
    | inl e ↦
        rw (e, set_mode_major) (done-IsSettled s.crtc s.crtc (s, true) (refl, refl, refl, refl))
    | inr (mode, e) ↦
        let c = with_mode s.crtc mode a in
        rw (e, set_mode_major)
          (Ensures->>= (Keeps c) (IsSettled s.crtc c)
            (rotate_mode first second (record s { crtc = c }) rotated) (λ r. some (done s.crtc r))
            (rotate_mode-Keeps (record s { crtc = c }) rotated) (done-IsSettled s.crtc c))
  ]
