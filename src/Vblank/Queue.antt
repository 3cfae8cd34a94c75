-- ===== src/Vblank/Queue.antt =====
-- The queue of outstanding events of vblank.c: ms_drm_queue_alloc, ms_drm_abort_one,
-- ms_drm_abort_scrn, ms_drm_abort_seq, ms_drm_abort and the search of ms_drm_sequence_handler.
-- The handler and the abort function of an entry, with their data, are one payload of a type `D`;
-- a removal hands the entry to its caller, which runs the callback.
use xserver_xorg_video_loong.Base.{
  ℕ, ◌+◌, ◌%◌, ◌^◌, Bool, true, false, Option, none, some, List, [], ◌∷◌, ◌==◌, if◌then◌else◌,
}

-- struct ms_drm_queue.
pub record Entry (D : Type 0) : Type 0 where
  pub seq : ℕ
  pub scrn : ℕ
  pub crtc : ℕ
  pub payload : D

-- The list head, newest entry first, and the static counter ms_drm_seq (uint32_t).
pub record DrmQueue (D : Type 0) : Type 0 where
  pub entries : List (Entry D)
  pub drm_seq : ℕ

-- The number that the next entry gets: zero is left out.
abbrev pub next_seq : ℕ → ℕ
next_seq n = if n == 0 then 1 else n

module _ {D : Type 0} where
  -- ms_drm_queue_alloc; `got` says whether calloc gave memory. The result is the entry's number,
  -- or 0.
  unfoldable pub alloc : DrmQueue D → (got : Bool) → (scrn crtc : ℕ) → D → DrmQueue D × ℕ
  alloc q false scrn crtc payload = (q, 0)
  alloc q true scrn crtc payload =
      let seq = next_seq q.drm_seq in
      let entry : Entry D = record { seq = seq; scrn = scrn; crtc = crtc; payload = payload } in
      (record { entries = entry ∷ q.entries; drm_seq = (seq + 1) % 2 ^ 32 }, seq)

  -- The first entry that meets a test, and the list without it.
  unfoldable pub take_first : (Entry D → Bool) → List (Entry D) → Option (Entry D × List (Entry D))
  take_first test [] = none
  take_first test (e ∷ es) =
      if test e
      then some (e, es)
      else elim (take_first test es) [ none ↦ none | some (f, rest) ↦ some (f, e ∷ rest) ]

  -- The loop of ms_drm_abort_seq and of ms_drm_sequence_handler: unlink the entry numbered `seq`.
  unfoldable pub take_seq : ℕ → List (Entry D) → Option (Entry D × List (Entry D))
  unfolding take_first
  take_seq seq = take_first (λ e. e.seq == seq)

  -- The loop of ms_drm_abort: unlink the first entry whose payload matches.
  unfoldable pub take_match : (D → Bool) → List (Entry D) → Option (Entry D × List (Entry D))
  unfolding take_first
  take_match match = take_first (λ e. match e.payload)

  -- The loop of ms_drm_abort_scrn: the entries that it unlinks, in order, and those that stay.
  unfoldable pub take_scrn : ℕ → List (Entry D) → List (Entry D) × List (Entry D)
  take_scrn scrn [] = ([], [])
  take_scrn scrn (e ∷ es) =
      let (gone, kept) = take_scrn scrn es in
      if e.scrn == scrn then (e ∷ gone, kept) else (gone, e ∷ kept)
