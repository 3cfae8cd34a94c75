-- ===== src/Modeset/Major/Blobs.antt =====
-- The blobs of modes: drm_mode_ensure_blob makes them, drmmode_crtc_destroy gives them back.
use xserver_xorg_video_loong.Base.{
  ℕ, ◌≡◌, ◌≢◌, refl, ◌∙◌, ap, inl, inr, true, false, not, none, some, List, [], ◌∷◌, ◌++◌, arith,
  ◌==◌, if◌then◌else◌, Option-cases, Bool-cases, All, sym,
}
use mathlib.Core.List.{append_assoc, append-nil}
use xserver_xorg_video_loong.Modeset.Mode.{KMode}
use xserver_xorg_video_loong.Modeset.Atomic.{Crtc, Kernel, has_mode, ensure_blob}
use xserver_xorg_video_loong.Modeset.Major.{destroy_modes, crtc_destroy}

-- A mode for the CRTC, with the answers of the allocator and the kernel.
abbrev pub Wish : Type 0
Wish = Kernel × KMode

-- The blob that the kernel makes for a mode, if it is asked for one.
abbrev made : Crtc → Wish → List ℕ
made c (k, info) =
    if has_mode c info
    then []
    else if not (k.got_mode c.address)
    then []
    else elim (k.create_blob c.address info) [ none ↦ [] | some id ↦ id ∷ [] ]

-- A CRTC that takes modes one after the other; and all blobs made for it, the newest first.
abbrev pub take_modes : Crtc → List Wish → Crtc
take_modes c [] = c
take_modes c ((k, info) ∷ wishes) = take_modes (ensure_blob k c info).0 wishes

abbrev pub all_made : Crtc → List Wish → List ℕ
all_made c [] = []
all_made c ((k, info) ∷ wishes) = all_made (ensure_blob k c info).0 wishes ++ made c (k, info)

-- The kernel's blobs have ids other than 0.
abbrev pub GivesIds : Kernel → Type 0
GivesIds k = (a : ℕ) (info : KMode) (id : ℕ) → k.create_blob a info ≡ some id → id ≢ 0

ensure_blob-destroy :
    (k : Kernel) (c : Crtc) (info : KMode)
    → GivesIds k
    → destroy_modes (ensure_blob k c info).0.mode_list
      ≡ made c (k, info) ++ destroy_modes c.mode_list
unfolding ensure_blob destroy_modes
ensure_blob-destroy k c info g = elim (Bool-cases (has_mode c info)) [
  | inl same ↦ rw same refl
  | inr other ↦ elim (Bool-cases (k.got_mode c.address)) [
    | inr poor ↦ rw (other, poor) refl
    | inl got ↦ elim (Option-cases (k.create_blob c.address info)) [
      | inl e ↦ rw (other, got, e) refl
      | inr (id, e) ↦
          let fits : (id == 0) ≡ false = ground (arith, g c.address info id e) in
          rw (other, got, e, fits) refl
    ]
  ]
]

abbrev AllGiveIds : List Wish → Type 0
AllGiveIds = All (λ w. GivesIds w.0)

destroy-take_modes :
    (c : Crtc) (wishes : List Wish)
    → AllGiveIds wishes
    → destroy_modes (take_modes c wishes).mode_list ≡ all_made c wishes ++ destroy_modes c.mode_list
destroy-take_modes c [] g = refl
destroy-take_modes c ((k, info) ∷ wishes) (g, gs) =
    let d = (ensure_blob k c info).0 in
    destroy-take_modes d wishes gs
    ∙ ap (λ l. all_made d wishes ++ l) (ensure_blob-destroy k c info g)
    ∙ sym (append_assoc (all_made d wishes) (made c (k, info)) (destroy_modes c.mode_list))

-- Whatever modes a CRTC takes and whatever fails meanwhile, drmmode_crtc_destroy gives back all the
-- blobs that the kernel made for it, each once, the newest first, if the CRTC began without modes and
-- the kernel's blobs have ids other than 0.
pub crtc_destroy-take_modes :
    (c : Crtc) (wishes : List Wish)
    → AllGiveIds wishes
    → c.mode_list ≡ []
    → (crtc_destroy true (take_modes c wishes)).1 ≡ all_made c wishes
unfolding crtc_destroy destroy_modes
crtc_destroy-take_modes c wishes g e =
    let start : destroy_modes c.mode_list ≡ [] = rw e refl in
    destroy-take_modes c wishes g
    ∙ ap (λ l. all_made c wishes ++ l) start
    ∙ append-nil (all_made c wishes)
