-- ===== src/Vblank/Events/Delivery.antt =====
-- What ms_drm_sequence_handler of vblank.c does for the entry with the number of a kernel event.
use xserver_xorg_video_loong.Base.{ℕ, ◌/◌, ◌≡◌, Bool, none, List, ◌∷◌, ◌++◌, inl, inr, Option-cases}
use xserver_xorg_video_loong.Vblank.Msc.{kernel_msc_to_crtc_msc}
use xserver_xorg_video_loong.Vblank.Queue.{Entry, next_seq, take_seq}
use xserver_xorg_video_loong.Vblank.Events.{
  handled, Events, unlink, deliver, sequence_handler, abort_one, abort_seq, set_crtc,
}
use xserver_xorg_video_loong.Vblank.Events.Numbers.{IsNumbered, take_seq_mem, take_seq_gone}

module _ {D : Type 0} where
  -- Where the numbers of the queued entries fall along the list, a kernel event whose number is
  -- that of a queued entry runs that entry's handler, wherever the entry stands: with the 64-bit
  -- count of the entry's own CRTC, whose counters alone move on, and with the time in microseconds.
  -- That entry leaves the queue, and nothing else changes.
  pub sequence_handler_mem :
      (s : Events D) (xs : List (Entry D)) (e : Entry D) (ys : List (Entry D)) (frame ns : ℕ)
      (is64bit : Bool)
      → IsNumbered s.queue
      → s.queue.entries ≡ xs ++ e ∷ ys
      → let converted = kernel_msc_to_crtc_msc (s.crtcs e.crtc) frame is64bit in
        sequence_handler s frame ns is64bit e.seq ≡ record {
          queue = record { entries = xs ++ ys; drm_seq = s.queue.drm_seq };
          crtcs = set_crtc s.crtcs e.crtc converted.0;
          log = handled e converted.1 (ns / 1000) ∷ s.log;
        }
  unfolding sequence_handler deliver unlink
  sequence_handler_mem s xs e ys frame ns is64bit f h =
      let found = take_seq_mem (next_seq s.queue.drm_seq) xs e ys (rw h at f) in
      rw (h, found, sequence_handler)

  sequence_handler_gone :
      (s : Events D) (frame ns : ℕ) (is64bit : Bool) (seq : ℕ)
      → IsNumbered s.queue
      → take_seq seq (sequence_handler s frame ns is64bit seq).queue.entries ≡ none
  unfolding sequence_handler deliver unlink
  sequence_handler_gone s frame ns is64bit seq f =
      elim (Option-cases (take_seq seq s.queue.entries)) [
        | inl e ↦ rw (e, sequence_handler) e
        | inr ((e, rest), found) ↦
            rw (found, sequence_handler)
              (take_seq_gone seq (next_seq s.queue.drm_seq) s.queue.entries e rest f found)
      ]

  unknown_number :
      (s : Events D) (frame ns : ℕ) (is64bit : Bool) (seq : ℕ)
      → take_seq seq s.queue.entries ≡ none
      → (sequence_handler s frame ns is64bit seq ≡ s) × (abort_seq s seq ≡ s)
  unfolding sequence_handler abort_seq abort_one
  unknown_number s frame ns is64bit seq e = (rw (e, sequence_handler), rw (e, abort_seq))

  -- Where the numbers of the queued entries fall along the list, a number is good for one callback:
  -- after a kernel event with it, a second event or an abort with the same number changes nothing.
  pub sequence_handler_once :
      (s : Events D) (frame ns frame' ns' seq : ℕ) (is64bit is64bit' : Bool)
      → IsNumbered s.queue
      → let t = sequence_handler s frame ns is64bit seq in
        (sequence_handler t frame' ns' is64bit' seq ≡ t) × (abort_seq t seq ≡ t)
  sequence_handler_once s frame ns frame' ns' seq is64bit is64bit' f =
      unknown_number (sequence_handler s frame ns is64bit seq) frame' ns' is64bit' seq
        (sequence_handler_gone s frame ns is64bit seq f)
