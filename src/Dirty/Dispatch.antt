-- ===== src/Dirty/Dispatch.antt =====
-- What is left of the damage after it was dispatched.
use mathlib.Core.List.{append_assoc}
use xserver_xorg_video_loong.Base.{
  ◌++◌, sym, ap, ◌∙◌, ℕ, ◌≡◌, refl, ◌⊎◌, inl, inr, Bool, true, false, not, ◌&&◌, ◌||◌, List, [],
  ◌∷◌, arith, if◌then◌else◌, Bool-cases,
}
use xserver_xorg_video_loong.Dirty.{
  Answers, Clip, Errno, good, einval, enosys, enomem, other, Damage, is_good, send, send_each,
  after_answer, dispatch_clips, dispatch_dirty_region, DirtyEntry, DirtyCall, notify, redisplay,
  DirtyState, redisplay_dirty, notify_damage, update_master, update_entry, update_entries,
  dirty_update,
}

-- The kernel took each rectangle in a call of its own, one after the other.
abbrev pub EachTaken :
    (answer : Answers) (sent : List (ℕ × List Clip)) (fb_id : ℕ) → List Clip → Type 0
EachTaken answer sent fb_id [] = Unit
EachTaken answer sent fb_id (c ∷ cs) =
    (answer sent fb_id (c ∷ []) ≡ good) × EachTaken answer ((fb_id, c ∷ []) ∷ sent) fb_id cs

-- The kernel took all rectangles at once, or after that call each of them alone.
abbrev pub AllTaken :
    (answer : Answers) (sent : List (ℕ × List Clip)) (fb_id : ℕ) → List Clip → Type 0
AllTaken answer sent fb_id clips =
    (answer sent fb_id clips ≡ good) ⊎ EachTaken answer ((fb_id, clips) ∷ sent) fb_id clips

good_not : {e : Errno} → e ≡ good → is_good e ≡ false → ⊥
good_not {e} h k = ground (arith, h, k)

is_good-good : (e : Errno) → is_good e ≡ true → e ≡ good
is_good-good good h = refl
is_good-good einval h = absurd cc
is_good-good enosys h = absurd cc
is_good-good enomem h = absurd cc
is_good-good other h = absurd cc

module _ (answer : Answers) where
  send_each-good :
      (d : Damage) (fb_id : ℕ) (cs : List Clip)
      → (send_each answer d fb_id cs).1 ≡ good
      → EachTaken answer d.sent fb_id cs
  unfolding send_each
  send_each-good d fb_id [] h = tt
  send_each-good d fb_id (c ∷ cs) h = elim (Bool-cases (is_good (answer d.sent fb_id (c ∷ [])))) [
    | inl e ↦
        let rest : (send_each answer (send d fb_id (c ∷ [])) fb_id cs).1 ≡ good = ground arith in
        (
          is_good-good (answer d.sent fb_id (c ∷ [])) e,
          send_each-good (send d fb_id (c ∷ [])) fb_id cs rest,
        )
    | inr e ↦
        let taken : answer d.sent fb_id (c ∷ []) ≡ good = ground arith in absurd (good_not taken e)
  ]

  after_answer-AllTaken :
      (d : Damage) (fb_id : ℕ) (cs : List Clip) (e : Errno)
      → answer d.sent fb_id cs ≡ e
      → (after_answer answer (send d fb_id cs) fb_id cs e).1 ≡ good
      → AllTaken answer d.sent fb_id cs
  unfolding after_answer
  after_answer-AllTaken d fb_id cs good a h = inl a
  after_answer-AllTaken d fb_id cs einval a h = inr (send_each-good (send d fb_id cs) fb_id cs h)
  after_answer-AllTaken d fb_id cs enosys a h = absurd cc
  after_answer-AllTaken d fb_id cs enomem a h = absurd cc
  after_answer-AllTaken d fb_id cs other a h = absurd cc

  dispatch_clips-AllTaken :
      (d : Damage) (fb_id : ℕ) (cs : List Clip)
      → d.region ≡ cs
      → let r = dispatch_clips answer d fb_id true cs in
        (r.0.region ≡ []) × (r.1 ≡ good → AllTaken answer d.sent fb_id cs)
  unfolding dispatch_clips
  dispatch_clips-AllTaken d fb_id [] e = (e, λ h. inr tt)
  dispatch_clips-AllTaken d fb_id (c ∷ cs) e =
      (refl, λ h. after_answer-AllTaken d fb_id (c ∷ cs) (answer d.sent fb_id (c ∷ cs)) refl h)

  -- Where memory for the rectangles is there, dispatch_dirty_region empties the damage, and it returns
  -- 0 only if the kernel took all its rectangles in one call, or each of them in a call of its own.
  pub dispatch_dirty_region-AllTaken :
      (d : Damage) (fb_id : ℕ)
      → let r = dispatch_dirty_region answer d fb_id true in
        (r.0.region ≡ []) × (r.1 ≡ good → AllTaken answer d.sent fb_id d.region)
  unfolding dispatch_dirty_region
  dispatch_dirty_region-AllTaken d fb_id = dispatch_clips-AllTaken d fb_id d.region refl

-- An entry after an update: if it is still damaged, it defers its updates and the screen is no slave;
-- if it was damaged, nobody waits for a notice of it.
abbrev pub IsUpdated : (is_gpu : Bool) → DirtyEntry → DirtyEntry → Type 0
IsUpdated is_gpu e e' =
    (e'.slave_dst ≡ e.slave_dst)
    × (e'.damaged ≡ (e.damaged && not is_gpu && e.defer_dirty_update))
    × (e'.notify_on_damage ≡ (e.notify_on_damage && (not e.damaged || is_gpu)))
    × (e'.defer_dirty_update ≡ e.defer_dirty_update)

abbrev pub AreUpdated : (is_gpu : Bool) → List DirtyEntry → List DirtyEntry → Type 0
AreUpdated is_gpu [] [] = Unit
AreUpdated is_gpu (e ∷ es) (e' ∷ es') = IsUpdated is_gpu e e' × AreUpdated is_gpu es es'
AreUpdated is_gpu _ _ = ⊥

update_entry-IsUpdated :
    (is_gpu : Bool) (e : DirtyEntry) (c : List DirtyCall × Bool)
    → IsUpdated is_gpu e (update_entry is_gpu e c).0
unfolding update_entry update_master notify_damage redisplay_dirty
update_entry-IsUpdated is_gpu e c = ground arith

-- What is done to other screens for an entry, newest first.
abbrev pub calls_for : (is_gpu : Bool) → DirtyEntry → List DirtyCall
calls_for is_gpu e =
    (if e.damaged && (is_gpu || not e.defer_dirty_update) then redisplay e.slave_dst ∷ [] else [])
    ++ (if e.damaged && not is_gpu && e.notify_on_damage then notify e.slave_dst ∷ [] else [])

abbrev pub all_calls : (is_gpu : Bool) → List DirtyEntry → List DirtyCall
all_calls is_gpu [] = []
all_calls is_gpu (e ∷ es) = all_calls is_gpu es ++ calls_for is_gpu e

update_entry-calls :
    (is_gpu : Bool) (e : DirtyEntry) (c : List DirtyCall × Bool)
    → (update_entry is_gpu e c).1.0 ≡ calls_for is_gpu e ++ c.0
unfolding update_entry update_master notify_damage redisplay_dirty
update_entry-calls is_gpu e c = ground arith

update_entries-AreUpdated :
    (is_gpu : Bool) (es : List DirtyEntry) (c : List DirtyCall × Bool)
    → AreUpdated is_gpu es (update_entries is_gpu es c).0
      × ((update_entries is_gpu es c).1.0 ≡ all_calls is_gpu es ++ c.0)
unfolding update_entries
update_entries-AreUpdated is_gpu [] c = (tt, refl)
update_entries-AreUpdated is_gpu (e ∷ es) c =
    let next = (update_entry is_gpu e c).1 in
    let (updated, calls) = update_entries-AreUpdated is_gpu es next in
    (
      (update_entry-IsUpdated is_gpu e c, updated),
      calls
          ∙ ap (λ l. all_calls is_gpu es ++ l) (update_entry-calls is_gpu e c)
          ∙ sym (append_assoc (all_calls is_gpu es) (calls_for is_gpu e) c.0),
    )

-- ms_dirty_update calls SharedPixmapNotifyDamage once for each damaged entry that waits for it, and
-- then redisplays each damaged entry that does not defer its updates, entry by entry; on a slave
-- screen it redisplays every damaged entry and notifies nobody. Only entries that defer are still
-- damaged afterwards, and an entry that was notified waits for no notice any more.
pub dirty_update-AreUpdated :
    (is_gpu : Bool) (s : DirtyState)
    → AreUpdated is_gpu s.entries (dirty_update is_gpu s).entries
      × ((dirty_update is_gpu s).calls ≡ all_calls is_gpu s.entries ++ s.calls)
unfolding dirty_update
dirty_update-AreUpdated is_gpu s = update_entries-AreUpdated is_gpu s.entries (s.calls, s.at_once)
