-- ===== src/Vblank/Events/Numbers.antt =====
-- The numbers of queued events of vblank.c, as long as the uint32_t counter has not wrapped: they
-- fall along the list, and so a number names one entry.
use xserver_xorg_video_loong.Base.{
  ℕ, ◌+◌, ◌*◌, ◌^◌, ◌≤◌, ◌<◌, ◌≡◌, refl, Bool, true, false, none, some, List, [], ◌∷◌, ◌++◌, arith,
  ◌==◌, inl, inr, Bool-cases, Option-cases, ==_refl,
}
use xserver_xorg_video_loong.Vblank.Queue.{
  Entry, DrmQueue, next_seq, alloc, take_first, take_seq, take_match, take_scrn,
}
use xserver_xorg_video_loong.Vblank.Events.{
  aborted, Events, Call, allocs, vblank, sequence, aborts, matches, closes, unlink,
  sequence_handler, sequence_handler_64bit, drm_handler, abort_one, abort_seq, abort_match,
  abort_scrn, step, run,
}

module _ {D : Type 0} where
  -- The numbers fall along the list and stay under `n`.
  abbrev pub Falls : ℕ → List (Entry D) → Type 0
  Falls n [] = Unit {0}
  Falls n (e ∷ es) = (e.seq < n) × Falls e.seq es

  abbrev pub IsNumbered : DrmQueue D → Type 0
  IsNumbered q = Falls (next_seq q.drm_seq) q.entries

  Falls-mono : (m n : ℕ) (es : List (Entry D)) → m ≤ n → Falls m es → Falls n es
  Falls-mono m n [] h f = tt
  Falls-mono m n (e ∷ es) h (lt, f) = (omega arith, f)

  take_first-Falls :
      (test : Entry D → Bool) (n : ℕ) (es : List (Entry D)) (e : Entry D) (rest : List (Entry D))
      → take_first test es ≡ some (e, rest)
      → Falls n es
      → Falls n rest
  unfolding take_first
  take_first-Falls test n [] e rest h f = cc
  take_first-Falls test n (x ∷ es) e rest h (lt, f) = elim (Bool-cases (test x)) [
    | inl hit ↦ ground (arith, Falls-mono x.seq n es)
    | inr miss ↦ elim (Option-cases (take_first test es)) [
      | inl e0 ↦ ground arith
      | inr ((g, tail), e1) ↦ ground (arith, take_first-Falls test x.seq es g tail e1 f)
    ]
  ]

  take_scrn-Falls : (scrn n : ℕ) (es : List (Entry D)) → Falls n es → Falls n (take_scrn scrn es).1
  unfolding take_scrn
  take_scrn-Falls scrn n [] f = tt
  take_scrn-Falls scrn n (e ∷ es) (lt, f) =
      let kept = take_scrn-Falls scrn e.seq es f in
      ground (arith, kept, Falls-mono e.seq n (take_scrn scrn es).1)

  -- No entry at or above the bound is found.
  take_seq_above : (seq n : ℕ) (es : List (Entry D)) → Falls n es → n ≤ seq → take_seq seq es ≡ none
  unfolding take_seq take_first
  take_seq_above seq n [] f h = refl
  take_seq_above seq n (e ∷ es) (lt, f) h = ground (arith, take_seq_above seq e.seq es f)

  Falls-lt :
      (n : ℕ) (xs : List (Entry D)) (e : Entry D) (ys : List (Entry D))
      → Falls n (xs ++ e ∷ ys)
      → e.seq < n
  Falls-lt n [] e ys f = f.0
  Falls-lt n (x ∷ xs) e ys (lt, f) = omega (arith, Falls-lt x.seq xs e ys f)

  -- An entry is found by its number, wherever it stands.
  pub take_seq_mem :
      (n : ℕ) (xs : List (Entry D)) (e : Entry D) (ys : List (Entry D))
      → Falls n (xs ++ e ∷ ys)
      → take_seq e.seq (xs ++ e ∷ ys) ≡ some (e, xs ++ ys)
  unfolding take_seq take_first
  take_seq_mem n [] e ys f = ground arith
  take_seq_mem n (x ∷ xs) e ys (lt, f) =
      ground (arith, take_seq_mem x.seq xs e ys f, Falls-lt x.seq xs e ys f)

  pub alloc-IsNumbered :
      (q : DrmQueue D) (got : Bool) (scrn crtc : ℕ) (payload : D)
      → IsNumbered q
      → next_seq q.drm_seq + 1 < 2 ^ 32
      → IsNumbered (alloc q got scrn crtc payload).0
  unfolding alloc
  alloc-IsNumbered q false scrn crtc payload f h = f
  alloc-IsNumbered q true scrn crtc payload f h = ground arith

  -- What a search by number leaves holds that number no more.
  pub take_seq_gone :
      (seq n : ℕ) (es : List (Entry D)) (e : Entry D) (rest : List (Entry D))
      → Falls n es
      → take_seq seq es ≡ some (e, rest)
      → take_seq seq rest ≡ none
  unfolding take_seq take_first
  take_seq_gone seq n [] e rest f h = cc
  take_seq_gone seq n (x ∷ es) e rest (lt, f) h = elim (Bool-cases (x.seq == seq)) [
    | inl hit ↦ ground (arith, take_seq_above seq x.seq es f)
    | inr miss ↦ elim (Option-cases (take_seq seq es)) [
      | inl e0 ↦ ground arith
      | inr ((g, tail), e1) ↦ ground (arith, take_seq_gone seq x.seq es g tail f e1)
    ]
  ]

  sequence_handler-IsNumbered :
      (s : Events D) (frame ns : ℕ) (is64bit : Bool) (seq : ℕ)
      → IsNumbered s.queue
      → IsNumbered (sequence_handler s frame ns is64bit seq).queue
  unfolding sequence_handler take_seq unlink
  sequence_handler-IsNumbered s frame ns is64bit seq f =
      elim (Option-cases (take_seq seq s.queue.entries)) [
        | inl e ↦ rw (e, sequence_handler) f
        | inr ((e, rest), found) ↦
            rw (found, sequence_handler)
              (take_first-Falls (λ x. x.seq == seq) (next_seq s.queue.drm_seq) s.queue.entries e
                rest found f)
      ]

  abort_one-IsNumbered :
      (s : Events D) (test : Entry D → Bool)
      → IsNumbered s.queue
      → IsNumbered (abort_one s (take_first test s.queue.entries)).queue
  unfolding abort_one unlink
  abort_one-IsNumbered s test f = elim (Option-cases (take_first test s.queue.entries)) [
    | inl e ↦ rw (e, abort_one) f
    | inr ((e, rest), found) ↦
        rw (found, abort_one)
          (take_first-Falls test (next_seq s.queue.drm_seq) s.queue.entries e rest found f)
  ]

  -- How many calls ask for an entry.
  abbrev pub requests : Call D → ℕ
  requests (allocs got scrn crtc payload) = 1
  requests _ = 0

  abbrev pub all_requests : List (Call D) → ℕ
  all_requests [] = 0
  all_requests (c ∷ cs) = requests c + all_requests cs

  step-IsNumbered :
      (s : Events D) (c : Call D)
      → next_seq s.queue.drm_seq + requests c < 2 ^ 32
      → IsNumbered s.queue
      → IsNumbered (step s c).queue
  unfolding step drm_handler sequence_handler_64bit abort_seq abort_match abort_scrn take_seq
      take_match
  step-IsNumbered s (allocs got scrn crtc payload) h f =
      alloc-IsNumbered s.queue got scrn crtc payload f h
  step-IsNumbered s (vblank frame sec usec seq) h f = sequence_handler-IsNumbered s _ _ false seq f
  step-IsNumbered s (sequence frame ns seq) h f = sequence_handler-IsNumbered s frame ns true seq f
  step-IsNumbered s (aborts seq) h f = abort_one-IsNumbered s (λ e. e.seq == seq) f
  step-IsNumbered s (matches match) h f = abort_one-IsNumbered s (λ e. match e.payload) f
  step-IsNumbered s (closes scrn) h f =
      take_scrn-Falls scrn (next_seq s.queue.drm_seq) s.queue.entries f

  sequence_handler-drm_seq :
      (s : Events D) (frame ns : ℕ) (is64bit : Bool) (seq : ℕ)
      → (sequence_handler s frame ns is64bit seq).queue.drm_seq ≡ s.queue.drm_seq
  unfolding sequence_handler unlink
  sequence_handler-drm_seq s frame ns is64bit seq = ground arith

  step-drm_seq :
      (s : Events D) (c : Call D)
      → next_seq s.queue.drm_seq + requests c < 2 ^ 32
      → next_seq (step s c).queue.drm_seq ≤ next_seq s.queue.drm_seq + requests c
  unfolding step drm_handler sequence_handler_64bit abort_seq abort_match abort_scrn abort_one
      unlink alloc
  step-drm_seq s (allocs true scrn crtc payload) h = ground arith
  step-drm_seq s (allocs false scrn crtc payload) h = ground arith
  step-drm_seq s (vblank frame sec usec seq) h =
      rw (sequence_handler-drm_seq s frame ((sec * 1000000 + usec) * 1000) false seq) (omega arith)
  step-drm_seq s (sequence frame ns seq) h =
      rw (sequence_handler-drm_seq s frame ns true seq) (omega arith)
  step-drm_seq s (aborts seq) h = ground arith
  step-drm_seq s (matches match) h = ground arith
  step-drm_seq s (closes scrn) h = omega arith

  -- While the counter cannot wrap, every history of allocations, kernel events, aborts and screen
  -- closes keeps the numbers of the queued events falling along the list, below the next number.
  pub run-IsNumbered :
      (s : Events D) (cs : List (Call D))
      → next_seq s.queue.drm_seq + all_requests cs < 2 ^ 32
      → IsNumbered s.queue
      → IsNumbered (run s cs).queue
  unfolding run
  run-IsNumbered s [] h f = f
  run-IsNumbered s (c ∷ cs) h f =
      run-IsNumbered (step s c) cs (omega (arith, step-drm_seq s c))
        (step-IsNumbered s c (omega arith) f)

  pub run-drm_seq :
      (s : Events D) (cs : List (Call D))
      → next_seq s.queue.drm_seq + all_requests cs < 2 ^ 32
      → next_seq (run s cs).queue.drm_seq ≤ next_seq s.queue.drm_seq + all_requests cs
  unfolding run
  run-drm_seq s [] h = omega arith
  run-drm_seq s (c ∷ cs) h = omega (arith, step-drm_seq s c, run-drm_seq (step s c) cs)

  pub abort_seq_gone :
      (s : Events D) (seq : ℕ)
      → IsNumbered s.queue
      → take_seq seq (abort_seq s seq).queue.entries ≡ none
  unfolding abort_seq abort_one unlink
  abort_seq_gone s seq f = elim (Option-cases (take_seq seq s.queue.entries)) [
    | inl e ↦ rw (e, abort_seq) e
    | inr ((e, rest), found) ↦
        rw (found, abort_seq)
          (take_seq_gone seq (next_seq s.queue.drm_seq) s.queue.entries e rest f found)
  ]

  pub abort_seq_head :
      (s : Events D) (e : Entry D) (es : List (Entry D))
      → s.queue.entries ≡ e ∷ es
      → (abort_seq s e.seq).log ≡ aborted e ∷ s.log
  unfolding abort_seq abort_one unlink take_seq take_first
  abort_seq_head s e es h = rw (h, ==_refl e.seq, abort_seq) refl
