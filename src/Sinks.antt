-- ===== src/Sinks.antt =====
-- Flipping between two shared pixmaps on a slave screen, in src/drmmode_display.c and src/driver.c:
-- the events of shared pixmaps in a queue of their own, the private records of the pixmaps, and the
-- two pixmaps of each CRTC. What the master screen, calloc and the kernel answer is an argument; none
-- is the use of a pixmap that is not there.
pub mod Presents
pub mod Turns
pub mod Stops
pub mod Progress
pub mod Histories
pub mod Endless
use xserver_xorg_video_loong.Base.{
  ℕ, Bool, true, false, not, ◌&&◌, ◌||◌, Option, none, some, List, [], ◌∷◌, ◌==◌, if◌then◌else◌,
  ◌>>=◌, is_some,
}
use xserver_xorg_video_loong.Vblank.Queue.{DrmQueue, alloc, take_seq}

-- The sink's part of msPixmapPrivRec; a flip_seq or a fb_id of 0 is none.
pub record PixmapPriv : Type 0 where
  pub flip_seq : ℕ
  pub wait_for_damage : Bool
  pub fb_id : ℕ
  pub has_damage : Bool

-- struct vblank_event_args.
pub record EventArgs : Type 0 where
  pub front_target : ℕ
  pub back_target : Option ℕ
  pub crtc : ℕ
  pub flip : Bool

-- The part of drmmode_crtc_private_rec.
pub record PrimeCrtc : Type 0 where
  pub prime_pixmap : Option ℕ
  pub prime_pixmap_back : Option ℕ
  pub enable_flipping : Bool
  pub flipping_active : Bool

pub record Sink : Type 0 where
  pub queue : DrmQueue EventArgs
  pub pixmaps : ℕ → PixmapPriv
  pub crtcs : ℕ → PrimeCrtc

unfoldable pub set_pixmap : Sink → ℕ → PixmapPriv → Sink
set_pixmap s p v = record s { pixmaps = λ q. if q == p then v else s.pixmaps q }

unfoldable pub set_crtc : Sink → ℕ → PrimeCrtc → Sink
set_crtc s i c = record s { crtcs = λ j. if j == i then c else s.crtcs j }

-- ms_drm_abort_seq with drmmode_SharedPixmapVBlankEventAbort.
unfoldable pub event_abort : Sink → EventArgs → Sink
unfolding set_pixmap
event_abort s a = set_pixmap s a.front_target (record (s.pixmaps a.front_target) { flip_seq = 0 })

unfoldable pub abort_seq : Sink → (seq : ℕ) → Sink
unfolding event_abort
abort_seq s seq = elim (take_seq seq s.queue.entries) [
  | none ↦ s
  | some (e, rest) ↦ event_abort (record s { queue = record s.queue { entries = rest } }) e.payload
]

-- What a request is answered: memory for the arguments and for the entry, and the kernel. A refusal
-- of ms_queue_vblank has aborted the entry, as has the failure of drmModePageFlip.
pub record Answer : Type 0 where
  pub got_args : Bool
  pub got_entry : Bool
  pub accepted : Bool

unfoldable pub settle : Sink → (seq : ℕ) → (accepted : Bool) → Sink × Bool
unfolding abort_seq
settle s seq true = (s, true)
settle s seq false = (abort_seq s seq, false)

-- The entry on the queue, whose number the front pixmap keeps, and the answer of the kernel.
unfoldable pub queue_event : Sink → EventArgs → Answer → Sink × Bool
unfolding alloc set_pixmap settle
queue_event s a k =
    if k.got_args
    then (let (queue, seq) = alloc s.queue k.got_entry 0 a.crtc a in
        let v = s.pixmaps a.front_target in
        settle
          (set_pixmap (record s { queue = queue }) a.front_target (record v { flip_seq = seq })) seq
          k.accepted)
    else (s, false)

abbrev pub is_target : Option ℕ → ℕ → Bool
is_target none p = false
is_target (some q) p = q == p

-- drmmode_SharedPixmapPresentOnVBlank and drmmode_SharedPixmapFlip.
unfoldable pub present_on_vblank : Sink → (ppix crtc : ℕ) → Answer → Sink × Bool
unfolding queue_event
present_on_vblank s ppix crtc k =
    let c = s.crtcs crtc in
    let back = c.prime_pixmap in
    if is_target back ppix
    then (s, false)
    else if not (is_target c.prime_pixmap_back ppix)
    then (s, false)
    else queue_event s
        (record { front_target = ppix; back_target = back; crtc = crtc; flip = false }) k

unfoldable pub shared_pixmap_flip : Sink → (front_target crtc : ℕ) → Answer → Sink × Bool
unfolding queue_event
shared_pixmap_flip s front_target crtc k =
    queue_event s
      (record {
        front_target = front_target;
        back_target = (s.crtcs crtc).prime_pixmap;
        crtc = crtc;
        flip = true;
      })
      k

-- What the master answers to PresentSharedPixmap and to RequestSharedPixmapNotifyDamage, where it has
-- that, and the answers to a flip and to a vblank event.
pub record Master : Type 0 where
  pub presents : Bool
  pub requests : Option Bool
  pub flip : Answer
  pub vblank : Answer

-- drmmode_SharedPixmapPresent.
unfoldable pub flip_or_retry : Sink → (ppix crtc : ℕ) → Master → Sink × Bool
unfolding shared_pixmap_flip present_on_vblank
flip_or_retry s ppix crtc m =
    let (t, flipped) = shared_pixmap_flip s ppix crtc m.flip in
    if flipped then (t, true) else present_on_vblank t ppix crtc m.vblank

unfoldable pub wait_for : Sink → (ppix : ℕ) → Bool → Sink
unfolding set_pixmap
wait_for s ppix b = set_pixmap s ppix (record (s.pixmaps ppix) { wait_for_damage = b })

unfoldable pub wait_or_retry : Sink → (ppix crtc : ℕ) → Master → Sink × Bool
unfolding wait_for present_on_vblank
wait_or_retry s ppix crtc m = elim m.requests [
  | none ↦ present_on_vblank s ppix crtc m.vblank
  | some true ↦ (wait_for s ppix true, true)
  | some false ↦ present_on_vblank (wait_for (wait_for s ppix true) ppix false) ppix crtc m.vblank
]

unfoldable pub shared_pixmap_present : Sink → (ppix crtc : ℕ) → Master → Sink × Bool
unfolding flip_or_retry wait_or_retry
shared_pixmap_present s ppix crtc m =
    if m.presents then flip_or_retry s ppix crtc m else wait_or_retry s ppix crtc m

-- drmmode_SharedPixmapVBlankEventHandler, and ms_drm_sequence_handler, which unlinks the entry first.
unfoldable pub event_handler : Sink → EventArgs → Master → Option Sink
unfolding set_crtc shared_pixmap_present
event_handler s a m =
    if a.flip
    then (let c = s.crtcs a.crtc in
        let flipped = record c {
          prime_pixmap = some a.front_target;
          prime_pixmap_back = a.back_target;
        } in
        a.back_target >>= λ back.
        some (shared_pixmap_present (set_crtc s a.crtc flipped) back a.crtc m).0)
    else some (shared_pixmap_present s a.front_target a.crtc m).0

unfoldable pub sequence_handler : Sink → (seq : ℕ) → Master → Option Sink
unfolding event_handler
sequence_handler s seq m = elim (take_seq seq s.queue.entries) [
  | none ↦ some s
  | some (e, rest) ↦
      event_handler (record s { queue = record s.queue { entries = rest } }) e.payload m
]

-- drmmode_InitSharedPixmapFlipping and drmmode_FiniSharedPixmapFlipping.
unfoldable pub init_flipping : Sink → (crtc : ℕ) → Master → Option (Sink × Bool)
unfolding shared_pixmap_present set_crtc
init_flipping s crtc m =
    let c = s.crtcs crtc in
    if not c.enable_flipping
    then some (s, false)
    else if c.flipping_active
    then some (s, true)
    else (c.prime_pixmap_back >>= λ back.
        let (t, active) = shared_pixmap_present s back crtc m in
        some (set_crtc t crtc (record (t.crtcs crtc) { flipping_active = active }), active))

unfoldable pub abort_flip : Sink → (ppix : ℕ) → Sink
unfolding abort_seq
abort_flip s ppix = let seq = (s.pixmaps ppix).flip_seq in if seq == 0 then s else abort_seq s seq

unfoldable pub fini_flipping : Sink → (crtc : ℕ) → Option Sink
unfolding abort_flip set_crtc
fini_flipping s crtc =
    let c = s.crtcs crtc in
    if not c.flipping_active
    then some s
    else (c.prime_pixmap >>= λ front. c.prime_pixmap_back >>= λ back.
        let s = set_crtc s crtc (record c { flipping_active = false }) in
        some (abort_flip (abort_flip s front) back))

-- drmmode_set_target_scanout_pixmap_cpu: the release of the old target, and the new one, for which
-- `fb_id` is what drmModeAddFB gives.
unfoldable pub release_target : Sink → Option ℕ → Sink
unfolding set_pixmap
release_target s none = s
release_target s (some p) = set_pixmap s p (record (s.pixmaps p) { fb_id = 0; has_damage = false })

unfoldable pub set_target_scanout_pixmap :
    Sink → (target ppix : Option ℕ) → (fb_id : ℕ) → Sink × Option ℕ
unfolding release_target set_pixmap
set_target_scanout_pixmap s target none fb_id = (release_target s target, none)
set_target_scanout_pixmap s target (some p) fb_id =
    let s = release_target s target in
    let v = s.pixmaps p in
    (
      set_pixmap s p
          (record v { fb_id = if v.fb_id == 0 then fb_id else v.fb_id; has_damage = true }),
      some p,
    )

-- drmmode_EnableSharedPixmapFlipping, where the targets cannot be refused, and
-- drmmode_DisableSharedPixmapFlipping.
unfoldable pub enable_flipping_on : Sink → (crtc front back : ℕ) → (front_fb back_fb : ℕ) → Sink
unfolding set_target_scanout_pixmap set_crtc
enable_flipping_on s crtc front back front_fb back_fb =
    let c = s.crtcs crtc in
    let (s, first) = set_target_scanout_pixmap s c.prime_pixmap (some front) front_fb in
    let (s, second) = set_target_scanout_pixmap s c.prime_pixmap_back (some back) back_fb in
    set_crtc s crtc (record (s.crtcs crtc) {
      enable_flipping = true;
      prime_pixmap = first;
      prime_pixmap_back = second;
    })

unfoldable pub disable_flipping : Sink → (crtc : ℕ) → Option Sink
unfolding fini_flipping set_target_scanout_pixmap set_crtc
disable_flipping s crtc =
    let c = s.crtcs crtc in
    fini_flipping (set_crtc s crtc (record c { enable_flipping = false })) crtc >>= λ s.
    let c = s.crtcs crtc in
    let (s, first) = set_target_scanout_pixmap s c.prime_pixmap none 0 in
    let (s, second) = set_target_scanout_pixmap s c.prime_pixmap_back none 0 in
    some (set_crtc s crtc (record c { prime_pixmap = first; prime_pixmap_back = second }))

-- drmmode_set_scanout_pixmap.
unfoldable pub set_scanout_pixmap : Sink → (crtc : ℕ) → Option ℕ → (fb_id : ℕ) → Sink × Bool
unfolding set_target_scanout_pixmap set_crtc
set_scanout_pixmap s crtc ppix fb_id =
    let c = s.crtcs crtc in
    if c.enable_flipping
    then (s, false)
    else (let (s, target) = set_target_scanout_pixmap s c.prime_pixmap ppix fb_id in
        (set_crtc s crtc (record c { prime_pixmap = target }), true))

-- msSharedPixmapNotifyDamage over the CRTCs of the screen, each with its answer.
unfoldable pub present_damaged : Sink → (ppix : ℕ) → List (ℕ × Answer) → Sink × Bool
unfolding present_on_vblank
present_damaged s ppix [] = (s, false)
present_damaged s ppix ((crtc, k) ∷ cs) =
    let c = s.crtcs crtc in
    let has_both = is_some c.prime_pixmap && is_some c.prime_pixmap_back in
    let (s, queued) = if has_both then present_on_vblank s ppix crtc k else (s, false) in
    let (s, rest) = present_damaged s ppix cs in (s, queued || rest)

unfoldable pub notify_damage : Sink → (ppix : ℕ) → List (ℕ × Answer) → Sink × Bool
unfolding wait_for present_damaged
notify_damage s ppix cs =
    if (s.pixmaps ppix).wait_for_damage
    then present_damaged (wait_for s ppix false) ppix cs
    else (s, false)
