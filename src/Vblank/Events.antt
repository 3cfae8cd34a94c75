-- ===== src/Vblank/Events.antt =====
-- What happens to queued events in vblank.c: ms_drm_sequence_handler with its two entry points,
-- and the three abort functions. The log lists the callbacks that ran, newest first.
pub mod Conservation
pub mod Numbers
pub mod Delivery
pub mod Entries
pub mod Refinement
use xserver_xorg_video_loong.Base.{
  ℕ, ◌+◌, ◌*◌, ◌/◌, Bool, true, false, Option, none, some, List, [], ◌∷◌, ◌==◌,
}
use xserver_xorg_video_loong.Vblank.Msc.{CrtcMsc, kernel_msc_to_crtc_msc}
use xserver_xorg_video_loong.Vblank.Queue.{Entry, DrmQueue, alloc, take_seq, take_match, take_scrn}

pub data Outcome (D : Type 0) : Type 0 where
  handled : Entry D → (msc ust : ℕ) → Outcome D
  aborted : Entry D → Outcome D

abbrev pub entry_of : {D : Type 0} → Outcome D → Entry D
entry_of (handled e msc ust) = e
entry_of (aborted e) = e

pub record Events (D : Type 0) : Type 0 where
  pub queue : DrmQueue D
  pub crtcs : ℕ → CrtcMsc
  pub log : List (Outcome D)

-- The counters of one CRTC change.
abbrev pub set_crtc : (ℕ → CrtcMsc) → ℕ → CrtcMsc → ℕ → CrtcMsc
set_crtc crtcs i c j = elim (j == i) [ true ↦ c | false ↦ crtcs j ]

-- The calls that reach the queue, from the driver and from the kernel.
pub data Call (D : Type 0) : Type 0 where
  allocs : Bool → (scrn crtc : ℕ) → D → Call D
  vblank : (frame sec usec seq : ℕ) → Call D
  sequence : (frame ns seq : ℕ) → Call D
  aborts : ℕ → Call D
  matches : (D → Bool) → Call D
  closes : ℕ → Call D

-- free(q) follows each callback: the entry has left the list before that.
module _ {D : Type 0} where
  unlink : Events D → List (Entry D) → Outcome D → Events D
  unlink s rest outcome = record s {
    queue = record (s.queue) { entries = rest };
    log = outcome ∷ s.log;
  }

  deliver : Events D → Entry D → List (Entry D) → (frame ns : ℕ) → Bool → Events D
  unfolding unlink
  deliver s e rest frame ns is64bit =
      let (c, msc) = kernel_msc_to_crtc_msc (s.crtcs e.crtc) frame is64bit in
      record (unlink s rest (handled e msc (ns / 1000))) { crtcs = set_crtc s.crtcs e.crtc c }

  -- ms_drm_sequence_handler; `user_data` comes as the uint32_t that it is cast to.
  unfoldable pub sequence_handler : Events D → (frame ns : ℕ) → Bool → (seq : ℕ) → Events D
  unfolding deliver
  sequence_handler s frame ns is64bit seq = elim (take_seq seq s.queue.entries) [
    | none ↦ s
    | some (e, rest) ↦ deliver s e rest frame ns is64bit
  ]

  unfoldable pub sequence_handler_64bit : Events D → (frame ns seq : ℕ) → Events D
  unfolding sequence_handler
  sequence_handler_64bit s frame ns seq = sequence_handler s frame ns true seq

  -- ms_drm_handler, for classic vblank and page flip events.
  unfoldable pub drm_handler : Events D → (frame sec usec seq : ℕ) → Events D
  unfolding sequence_handler
  drm_handler s frame sec usec seq =
      sequence_handler s frame ((sec * 1000000 + usec) * 1000) false seq

  -- ms_drm_abort_one for the entry that a search found.
  abort_one : Events D → Option (Entry D × List (Entry D)) → Events D
  unfolding unlink
  abort_one s none = s
  abort_one s (some (e, rest)) = unlink s rest (aborted e)

  unfoldable pub abort_seq : Events D → ℕ → Events D
  unfolding abort_one
  abort_seq s seq = abort_one s (take_seq seq s.queue.entries)

  unfoldable pub abort_match : Events D → (D → Bool) → Events D
  unfolding abort_one
  abort_match s match = abort_one s (take_match match s.queue.entries)

  abbrev abort_all : List (Entry D) → List (Outcome D) → List (Outcome D)
  abort_all [] log = log
  abort_all (e ∷ es) log = abort_all es (aborted e ∷ log)

  unfoldable pub abort_scrn : Events D → ℕ → Events D
  abort_scrn s scrn =
      let (gone, kept) = take_scrn scrn s.queue.entries in
      record s { queue = record (s.queue) { entries = kept }; log = abort_all gone s.log }

  unfoldable pub step : Events D → Call D → Events D
  step s (allocs got scrn crtc payload) = record s {
    queue = (alloc s.queue got scrn crtc payload).0;
  }
  step s (vblank frame sec usec seq) = drm_handler s frame sec usec seq
  step s (sequence frame ns seq) = sequence_handler_64bit s frame ns seq
  step s (aborts seq) = abort_seq s seq
  step s (matches match) = abort_match s match
  step s (closes scrn) = abort_scrn s scrn

  unfoldable pub run : Events D → List (Call D) → Events D
  run s [] = s
  run s (c ∷ cs) = run (step s c) cs
