-- ===== src/Vblank/Requests/Outcomes.antt =====
-- How the loop of ms_queue_vblank ends.
use xserver_xorg_video_loong.Base.{
  ℕ, ◌+◌, ◌^◌, ◌<◌, ◌≡◌, ◌≢◌, sym, ap, Bool, true, false, not, none, List, [], ◌∷◌, ◌++◌, arith,
  inl, inr, All, Bool-cases,
}
use xserver_xorg_video_loong.Vblank.Queue.{Entry, take_seq, next_seq}
use xserver_xorg_video_loong.Vblank.Events.{aborted, abort_seq}
use xserver_xorg_video_loong.Vblank.Events.Numbers.{
  IsNumbered, all_requests, run-IsNumbered, run-drm_seq, abort_seq_gone, abort_seq_head,
}
use xserver_xorg_video_loong.Vblank.Requests.{
  Reply, done, fails, Caps, Request, queue_sequence, wait_vblank, Driver, Target, Round, refused,
  waiting, Attempt, succeeds, checks, goes_on, is_busy, convert, attempt, give_up, after_round,
  queue_vblank,
}

abbrev pub busy_reply : Reply ℕ → Bool
busy_reply (done n) = false
busy_reply (fails minus_one e) = is_busy e

abbrev is_final : Attempt → Bool
is_final (succeeds msc) = true
is_final (checks e) = not (is_busy e)
is_final goes_on = false

-- An error of the kernel other than EBUSY.
abbrev pub fatal_reply : Reply ℕ → Bool
fatal_reply (done n) = false
fatal_reply (fails minus_one e) = not (is_busy e)

abbrev is_fatal : Attempt → Bool
is_fatal (succeeds msc) = false
is_fatal (checks e) = not (is_busy e)
is_fatal goes_on = false

abbrev pub IsClassic : Request → Type 0
IsClassic (wait_vblank pipe flags sequence seq) = Unit {0}
IsClassic (queue_sequence flags msc seq) = ⊥

-- The kernel was found to lack drmCrtcQueueSequence.
abbrev pub LacksSequence : Caps → Type 0
LacksSequence c = (c.has_queue_sequence ≡ false) × (c.tried_queue_sequence ≡ true)

module _ {D : Type 0} where
  attempt_final :
      (d : Driver D) (t : Target) (r : Round D)
      → busy_reply r.sequence_reply ≡ false
      → busy_reply r.vblank_reply ≡ false
      → is_final (attempt d t r).1 ≡ true
  unfolding attempt convert
  attempt_final d t r h k = ground arith

  attempt_goes : (d : Driver D) (t : Target) (r : Round D) → (attempt d t r).1 ≢ goes_on
  unfolding attempt convert
  attempt_goes d t r = ground arith

  -- After any number of rounds, one in which neither ioctl fails with EBUSY ends the loop.
  pub queue_vblank_ends :
      (d : Driver D) (t : Target) (rs : List (Round D)) (r : Round D)
      → busy_reply r.sequence_reply ≡ false
      → busy_reply r.vblank_reply ≡ false
      → (queue_vblank d t (rs ++ r ∷ [])).1 ≢ waiting
  unfolding queue_vblank
  queue_vblank_ends d t [] r h k = ground (arith, attempt_final d t r h k)
  queue_vblank_ends d t (q ∷ rs) r h k =
      ground (arith, attempt_goes d t q, queue_vblank_ends (after_round d t q) t rs r h k)

  attempt_queue :
      (d : Driver D) (t : Target) (r : Round D) → (attempt d t r).0.events.queue ≡ d.events.queue
  unfolding attempt convert
  attempt_queue d t r = ground arith

  -- The allocations that run while the loop flushes events.
  abbrev pub flushed_requests : List (Round D) → ℕ
  flushed_requests [] = 0
  flushed_requests (r ∷ rs) = all_requests r.flushed + flushed_requests rs

  -- After FALSE from ms_queue_vblank, as long as the counter of the queue cannot wrap and the
  -- numbers of its entries fall along the list, no entry with the number of the request is left in
  -- the queue.
  pub queue_vblank_refused :
      (d : Driver D) (t : Target) (rs : List (Round D))
      → next_seq d.events.queue.drm_seq + flushed_requests rs < 2 ^ 32
      → IsNumbered d.events.queue
      → (queue_vblank d t rs).1 ≡ refused
      → take_seq t.seq (queue_vblank d t rs).0.events.queue.entries ≡ none
  unfolding queue_vblank give_up after_round
  queue_vblank_refused d t [] h f e = cc
  queue_vblank_refused d t (r ∷ rs) h f e = elim (Bool-cases (is_final (attempt d t r).1)) [
    | inl final ↦
        let same = attempt_queue d t r in
        ground (
          arith,
          final,
          attempt_goes d t r,
          abort_seq_gone (attempt d t r).0.events t.seq (rw same f),
        )
    | inr busy ↦
        let same = attempt_queue d t r in
        let events = (attempt d t r).0.events in
        let f' = run-IsNumbered events r.flushed (rw same (omega arith)) (rw same f) in
        let below = run-drm_seq events r.flushed (rw same (omega arith)) in
        ground (
          arith,
          busy,
          attempt_goes d t r,
          queue_vblank_refused (after_round d t r) t rs
              (omega (arith, below, ap (λ q. next_seq q.drm_seq) same)) f',
        )
  ]

  attempt-IsClassic :
      (d : Driver D) (t : Target) (r : Round D)
      → LacksSequence d.caps
      → All IsClassic d.issued
      → LacksSequence (attempt d t r).0.caps × All IsClassic (attempt d t r).0.issued
  unfolding attempt convert
  attempt-IsClassic d t r l a = ground arith

  -- Once the kernel was found to lack drmCrtcQueueSequence, no round calls it again.
  pub queue_vblank-IsClassic :
      (d : Driver D) (t : Target) (rs : List (Round D))
      → LacksSequence d.caps
      → All IsClassic d.issued
      → LacksSequence (queue_vblank d t rs).0.caps × All IsClassic (queue_vblank d t rs).0.issued
  unfolding queue_vblank give_up after_round
  queue_vblank-IsClassic d t [] l a = (l, a)
  queue_vblank-IsClassic d t (r ∷ rs) l a =
      let (l', a') = attempt-IsClassic d t r l a in
      ground (arith, l', a', queue_vblank-IsClassic (after_round d t r) t rs l' a')

  attempt_fatal :
      (d : Driver D) (t : Target) (r : Round D)
      → fatal_reply r.sequence_reply ≡ true
      → fatal_reply r.vblank_reply ≡ true
      → (is_fatal (attempt d t r).1 ≡ true) × ((attempt d t r).0.events ≡ d.events)
  unfolding attempt convert
  attempt_fatal d t r h k = ground arith

  -- When both ioctls fail for good, the newest entry, if it is the one of the request, is aborted.
  pub queue_vblank_fatal :
      (d : Driver D) (t : Target) (r : Round D) (rs : List (Round D)) (e : Entry D)
      (es : List (Entry D))
      → d.events.queue.entries ≡ e ∷ es
      → e.seq ≡ t.seq
      → fatal_reply r.sequence_reply ≡ true
      → fatal_reply r.vblank_reply ≡ true
      → ((queue_vblank d t (r ∷ rs)).1 ≡ refused)
        × ((queue_vblank d t (r ∷ rs)).0.events.log ≡ aborted e ∷ d.events.log)
  unfolding queue_vblank give_up
  queue_vblank_fatal d t r rs e es h same f g =
      let (fatal, events) = attempt_fatal d t r f g in
      let log : (abort_seq (attempt d t r).0.events t.seq).log ≡ aborted e ∷ d.events.log =
        rw events (rw (sym same) (abort_seq_head d.events e es h)) in
      ground (arith, fatal, log)
