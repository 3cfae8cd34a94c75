-- ===== src/Vblank/Events/Conservation.antt =====
-- No queued event of vblank.c is lost or answered twice.
use mathlib.Core.List.{perm_middle, append_assoc}
use mathlib.Core.List.{Perm}
use mathlib.Core.List.Perm
use xserver_xorg_video_loong.Base.{
  ℕ, ◌≡◌, Bool, true, false, some, List, [], ◌∷◌, ◌++◌, map, arith, ◌==◌, inl, inr, Bool-cases,
  Option-cases,
}
use xserver_xorg_video_loong.Vblank.Queue.{
  Entry, alloc, take_first, take_seq, take_match, take_scrn,
}
use xserver_xorg_video_loong.Vblank.Events.{
  Outcome, handled, aborted, entry_of, Events, Call, allocs, vblank, sequence, aborts, matches,
  closes, unlink, sequence_handler, sequence_handler_64bit, drm_handler, abort_one, abort_all,
  abort_seq, abort_match, abort_scrn, step, run,
}

module _ {D : Type 0} where
  pub take_first-perm :
      (test : Entry D → Bool) (es : List (Entry D)) (e : Entry D) (rest : List (Entry D))
      → take_first test es ≡ some (e, rest)
      → Perm es (e ∷ rest)
  unfolding take_first
  take_first-perm test [] e rest h = cc
  take_first-perm test (x ∷ es) e rest h = elim (Bool-cases (test x)) [
    | inl hit ↦ ground (arith, Perm.refl (x ∷ es))
    | inr miss ↦ elim (Option-cases (take_first test es)) [
      | inl e0 ↦ ground arith
      | inr ((f, tail), e1) ↦
          let step =
            Perm.trans (Perm.cons x (take_first-perm test es f tail e1)) (Perm.swap f x tail) in
          ground (arith, step)
    ]
  ]

  take_scrn-perm :
      (scrn : ℕ) (es : List (Entry D)) → Perm es ((take_scrn scrn es).0 ++ (take_scrn scrn es).1)
  unfolding take_scrn
  take_scrn-perm scrn [] = Perm.nil
  take_scrn-perm scrn (e ∷ es) =
      let tail = Perm.cons e (take_scrn-perm scrn es) in
      let mid =
        Perm.trans tail (Perm.symm (perm_middle (take_scrn scrn es).0 (take_scrn scrn es).1)) in
      elim (Bool-cases (e.scrn == scrn)) [ inl hit ↦ rw hit tail | inr miss ↦ rw miss mid ]

  -- The entries that are queued, and those whose callback has run.
  abbrev pub held : Events D → List (Entry D)
  held s = s.queue.entries ++ map entry_of s.log

  abort_all-perm :
      (gone kept : List (Entry D)) (log : List (Outcome D))
      → Perm (kept ++ map entry_of (abort_all gone log)) (gone ++ (kept ++ map entry_of log))
  abort_all-perm [] kept log = Perm.refl _
  abort_all-perm (e ∷ gone) kept log = Perm.trans (abort_all-perm gone kept (aborted e ∷ log)) (
      Perm.trans (Perm.append_left gone (perm_middle kept (map entry_of log)))
        (perm_middle gone (kept ++ map entry_of log)))

  unlink-perm :
      (s : Events D) (o : Outcome D) (rest : List (Entry D))
      → Perm s.queue.entries (entry_of o ∷ rest)
      → Perm (held (unlink s rest o)) (held s)
  unfolding unlink
  unlink-perm s o rest h =
      Perm.trans (perm_middle rest (map entry_of s.log)) (Perm.append_right _ (Perm.symm h))

  sequence_handler-perm :
      (s : Events D) (frame ns : ℕ) (is64bit : Bool) (seq : ℕ)
      → Perm (held (sequence_handler s frame ns is64bit seq)) (held s)
  unfolding sequence_handler take_seq
  sequence_handler-perm s frame ns is64bit seq =
      elim (Option-cases (take_seq seq s.queue.entries)) [
        | inl e ↦ rw (e, sequence_handler) (Perm.refl _)
        | inr ((e, rest), found) ↦
            rw (found, sequence_handler)
              (unlink-perm s (handled e 0 0) rest (take_first-perm _ _ e rest found))
      ]

  abort_one-perm :
      (s : Events D) (test : Entry D → Bool)
      → Perm (held (abort_one s (take_first test s.queue.entries))) (held s)
  unfolding abort_one
  abort_one-perm s test = elim (Option-cases (take_first test s.queue.entries)) [
    | inl e ↦ rw (e, abort_one) (Perm.refl _)
    | inr ((e, rest), found) ↦
        rw (found, abort_one) (unlink-perm s (aborted e) rest (take_first-perm _ _ e rest found))
  ]

  abort_scrn-perm : (s : Events D) (scrn : ℕ) → Perm (held (abort_scrn s scrn)) (held s)
  unfolding abort_scrn
  abort_scrn-perm s scrn =
      let (gone, kept) = take_scrn scrn s.queue.entries in
      Perm.trans (abort_all-perm gone kept s.log) (
        rw (← append_assoc) (
          Perm.append_right (map entry_of s.log) (Perm.symm (take_scrn-perm scrn s.queue.entries))))

  -- The payloads whose entry a call allocates.
  abbrev pub allocated : Call D → List D
  allocated (allocs true scrn crtc payload) = payload ∷ []
  allocated _ = []

  abbrev pub payloads : List (Entry D) → List D
  payloads = map (λ e. e.payload)

  step-perm :
      (s : Events D) (c : Call D)
      → Perm (payloads (held (step s c))) (allocated c ++ payloads (held s))
  unfolding step alloc drm_handler sequence_handler_64bit abort_seq abort_match take_seq take_match
  step-perm s (allocs true scrn crtc payload) = Perm.refl _
  step-perm s (allocs false scrn crtc payload) = Perm.refl _
  step-perm s (vblank frame sec usec seq) = Perm.map _ (sequence_handler-perm s _ _ false seq)
  step-perm s (sequence frame ns seq) = Perm.map _ (sequence_handler-perm s frame ns true seq)
  step-perm s (aborts seq) = Perm.map _ (abort_one-perm s (λ e. e.seq == seq))
  step-perm s (matches match) = Perm.map _ (abort_one-perm s (λ e. match e.payload))
  step-perm s (closes scrn) = Perm.map _ (abort_scrn-perm s scrn)

  abbrev pub all_allocated : List (Call D) → List D
  all_allocated [] = []
  all_allocated (c ∷ cs) = all_allocated cs ++ allocated c

  -- Over any sequence of allocations, kernel events, aborts and screen closes, the payloads that are
  -- still queued and those whose handler or abort function has run are together a rearrangement of
  -- the payloads that were there before and those whose allocation succeeded: none is dropped, none
  -- is answered twice.
  pub run-perm :
      (s : Events D) (cs : List (Call D))
      → Perm (payloads (held (run s cs))) (all_allocated cs ++ payloads (held s))
  unfolding run
  run-perm s [] = Perm.refl _
  run-perm s (c ∷ cs) =
      rw append_assoc
        (Perm.trans (run-perm (step s c) cs) (Perm.append_left (all_allocated cs) (step-perm s c)))
