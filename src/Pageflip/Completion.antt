-- ===== src/Pageflip/Completion.antt =====
-- What the client of a flip is told when the CRTCs complete it.
use xserver_xorg_video_loong.Base.{
  ℕ, suc, ◌/◌, ◌%◌, ◌^◌, ◌≡◌, refl, ◌∙◌, inl, inr, Bool-cases, Bool, true, false, Option, none,
  some, List, [], ◌∷◌, ◌++◌, arith, if◌then◌else◌, length, ◌>>=◌,
}
use xserver_xorg_video_loong.Vblank.Msc.{kernel_msc_to_crtc_msc}
use xserver_xorg_video_loong.Vblank.Queue.{Entry, take_first, take_seq}
use xserver_xorg_video_loong.Vblank.Events.{set_crtc}
use xserver_xorg_video_loong.Pageflip.{
  Payload, crtc_flip, unlink, KernelEvent, sequence_handler, Client, present, dri2, FlipData,
  Effect, event_notify, swap_complete, rm_fb, free_event, World, set_flip, present_vblank_handler,
  event_handler, pageflip_free, pageflip_handler,
}

-- The completion of a flip on one CRTC: whether that is the reference, and its time.
pub record Completion : Type 0 where
  pub on_reference_crtc : Bool
  pub msc : ℕ
  pub ust : ℕ

-- Completions in the order in which they come.
pub complete : ℕ → List Completion → World → Option World
complete p [] w = some w
complete p (c ∷ cs) w = do
  w' ← pageflip_handler c.on_reference_crtc p c.msc c.ust w
  complete p cs w'

-- The time that the client is told: that of the last completion on the reference CRTC.
abbrev pub reference_time : ℕ × ℕ → List Completion → ℕ × ℕ
reference_time t [] = t
reference_time t (c ∷ cs) = reference_time (if c.on_reference_crtc then (c.msc, c.ust) else t) cs

-- What the client is told, and the free of its event.
abbrev pub reports : Client → ℕ × ℕ → List Effect
reports (present event_id unflip) (msc, ust) =
    free_event (present event_id unflip) ∷ event_notify event_id ust msc ∷ []
reports (dri2 drawable true) (msc, ust) =
    free_event (dri2 drawable true)
    ∷ swap_complete drawable (msc % 2 ^ 32) (ust / 1000000 % 2 ^ 32) (ust % 1000000)
    ∷ []
reports (dri2 drawable false) t = free_event (dri2 drawable false) ∷ []

pub event_handler_log :
    (c : Client) (msc ust : ℕ) (w : World)
    → (event_handler c msc ust w).log ≡ reports c (msc, ust) ++ w.log
unfolding event_handler present_vblank_handler
event_handler_log (present event_id unflip) msc ust w = refl
event_handler_log (dri2 drawable true) msc ust w = refl
event_handler_log (dri2 drawable false) msc ust w = refl

abbrev time_of : FlipData → ℕ × ℕ
time_of fd = (fd.fe_msc, fd.fe_usec)

abbrev stamped : FlipData → Completion → FlipData
stamped fd c = if c.on_reference_crtc then record fd { fe_msc = c.msc; fe_usec = c.ust } else fd

-- The last reference reports to the client, removes the old framebuffer and frees the flipdata.
handler_last :
    (p : ℕ) (c : Completion) (w : World) (fd : FlipData)
    → w.flips p ≡ some fd
    → fd.flip_count ≡ 1
    → (w' : World) × (pageflip_handler c.on_reference_crtc p c.msc c.ust w ≡ some w')
      × (w'.flips p ≡ none)
      × (w'.log
          ≡ rm_fb (stamped fd c).old_fb_id ∷ reports (stamped fd c).client (time_of (stamped fd c))
            ++ w.log)
unfolding pageflip_handler pageflip_free
handler_last p c w fd e one =
    let fd' : FlipData = stamped fd c in
    let stored : World = record w { flips = set_flip w.flips p (some fd') } in
    let told : World = event_handler fd'.client fd'.fe_msc fd'.fe_usec stored in
    let w' : World = record told {
      flips = set_flip told.flips p none;
      log = rm_fb fd'.old_fb_id ∷ told.log;
    } in
    (
      w',
      ground (arith),
      ground arith,
      ground (arith, event_handler_log fd'.client fd'.fe_msc fd'.fe_usec stored),
    )

-- Another reference only takes the time, if it is that of the reference CRTC.
handler_more :
    (p : ℕ) (c : Completion) (w : World) (fd : FlipData) (n : ℕ)
    → w.flips p ≡ some fd
    → fd.flip_count ≡ suc (suc n)
    → (w' : World) × (pageflip_handler c.on_reference_crtc p c.msc c.ust w ≡ some w')
      × (w'.flips p ≡ some (record (stamped fd c) { flip_count = suc n }))
      × (w'.log ≡ w.log)
unfolding pageflip_handler pageflip_free
handler_more p c w fd n e more =
    let fd' : FlipData = stamped fd c in
    let stored : World = record w { flips = set_flip w.flips p (some fd') } in
    let w' : World = record stored {
      flips = set_flip stored.flips p (some (record fd' { flip_count = suc n }));
    } in
    (w', ground arith, ground arith, refl)

-- A completion that only takes the time leaves what the client will be told.
reports-stamped :
    (fd : FlipData) (c : Completion) (cs : List Completion) (log : List Effect)
    → rm_fb (stamped fd c).old_fb_id
          ∷ reports (stamped fd c).client (reference_time (time_of (stamped fd c)) cs)
        ++ log
      ≡ rm_fb fd.old_fb_id ∷ reports fd.client (reference_time (time_of fd) (c ∷ cs)) ++ log
reports-stamped fd c cs log = elim (Bool-cases c.on_reference_crtc) [
  | inl on ↦ rw on
  | inr off ↦ rw off
]

-- As many completions as the flipdata counts references, in any order of the CRTCs, end without a
-- fault: the client is told once, after the last, with the time of the reference CRTC; its event
-- and the flipdata are freed, and the framebuffer that was shown before the flip is removed.
pub complete-reports :
    (p : ℕ) (c : Completion) (cs : List Completion) (w : World) (fd : FlipData)
    → w.flips p ≡ some fd
    → fd.flip_count ≡ length (c ∷ cs)
    → (w' : World) × (complete p (c ∷ cs) w ≡ some w')
      × (w'.flips p ≡ none)
      × (w'.log
          ≡ rm_fb fd.old_fb_id ∷ reports fd.client (reference_time (fd.fe_msc, fd.fe_usec) (c ∷ cs))
            ++ w.log)
unfolding complete
complete-reports p c [] w fd e n =
    let (w', h, freed, told) = handler_last p c w fd e n in
    (w', rw h, freed, told ∙ reports-stamped fd c [] w.log)
complete-reports p c (d ∷ cs) w fd e n =
    let (v, h, live, same) = handler_more p c w fd (length cs) e n in
    let fd' : FlipData = record (stamped fd c) { flip_count = suc (length cs) } in
    let (w', k, freed, told) = complete-reports p d cs v fd' live refl in
    (w', rw h k, freed, told ∙ rw same (reports-stamped fd c (d ∷ cs) w.log))

found_head :
    {seq : ℕ} (es : List (Entry Payload)) (q : Entry Payload) (rest : List (Entry Payload))
    → es ≡ q ∷ rest
    → seq ≡ q.seq
    → take_seq seq es ≡ some (q, rest)
unfolding take_seq take_first
found_head es q rest head number = ground arith

-- The newest entry is the last flip of a flipdata, not on the reference CRTC: its event reports with
-- the time that the flipdata holds.
pub sequence_handler_last :
    (w : World) (e : KernelEvent) (q : Entry Payload) (rest : List (Entry Payload)) (p : ℕ)
    (fd : FlipData)
    → w.queue.entries ≡ q ∷ rest
    → q.payload ≡ crtc_flip false p
    → e.seq ≡ q.seq
    → w.flips p ≡ some fd
    → fd.flip_count ≡ 1
    → (w' : World) × (sequence_handler w e ≡ some w')
      × (w'.flips p ≡ none)
      × (w'.log ≡ rm_fb fd.old_fb_id ∷ reports fd.client (fd.fe_msc, fd.fe_usec) ++ w.log)
unfolding sequence_handler
sequence_handler_last w e q rest p fd head flip number live one =
    let (c, msc) = kernel_msc_to_crtc_msc (w.crtcs q.crtc) e.frame e.is64bit in
    let v : World = record (unlink w rest) { crtcs = set_crtc w.crtcs q.crtc c } in
    let now : Completion = record { on_reference_crtc = false; msc = msc; ust = e.ns / 1000 } in
    let (w', h, freed, told) = handler_last p now v fd live one in
    let found : take_seq e.seq w.queue.entries ≡ some (q, rest) =
      found_head w.queue.entries q rest head number in
    (w', rw (found, sequence_handler) (ground (arith, h)), freed, told)
