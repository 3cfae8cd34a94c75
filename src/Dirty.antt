-- ===== src/Dirty.antt =====
-- The tracking of damage in src/driver.c: what is sent to the kernel from dispatch_dirty and
-- dispatch_slave_dirty, the updates of shared pixmaps in ms_dirty_update, and the block handler. The
-- kernel's answers to drmModeDirtyFB are arguments; the functions of other screens are logged.
pub mod Dispatch
use xserver_xorg_video_loong.Base.{
  ℕ, ◌+◌, Bool, true, false, not, ◌&&◌, ◌||◌, Option, none, some, List, [], ◌∷◌, ◌++◌, ◌==◌,
  if◌then◌else◌,
}

-- A rectangle of a damage region.
pub record Clip : Type 0 where
  pub x1 : ℕ
  pub y1 : ℕ
  pub x2 : ℕ
  pub y2 : ℕ

-- What drmModeDirtyFB and the functions around it return: 0, -EINVAL, -ENOSYS, -ENOMEM or another
-- negative value.
pub data Errno : Type 0 where
  good einval enosys enomem other : Errno

-- A damage record with the calls of drmModeDirtyFB that were made for it, newest first.
pub record Damage : Type 0 where
  pub region : List Clip
  pub sent : List (ℕ × List Clip)

abbrev pub send : Damage → (fb_id : ℕ) → List Clip → Damage
send d fb_id clips = record d { sent = (fb_id, clips) ∷ d.sent }

abbrev pub is_good : Errno → Bool
is_good good = true
is_good _ = false

-- The kernel's answer to a call of drmModeDirtyFB, after the calls so far.
abbrev pub Answers : Type 0
Answers = (sent : List (ℕ × List Clip)) → (fb_id : ℕ) → List Clip → Errno

module _ (answer : Answers) where
  -- One rectangle at a time, up to the first failure.
  unfoldable pub send_each : Damage → (fb_id : ℕ) → List Clip → Damage × Errno
  send_each d fb_id [] = (d, good)
  send_each d fb_id (c ∷ cs) =
      let ret = answer d.sent fb_id (c ∷ []) in
      let d = send d fb_id (c ∷ []) in
      let rest = send_each d fb_id cs in if is_good ret then rest else (d, ret)

  -- If the kernel is swamped, one at a time; the result of the loop is that of its last call, and
  -- there is at least one rectangle.
  unfoldable pub after_answer : Damage → (fb_id : ℕ) → List Clip → Errno → Damage × Errno
  unfolding send_each
  after_answer d fb_id clips einval = send_each d fb_id clips
  after_answer d fb_id clips good = (d, good)
  after_answer d fb_id clips enosys = (d, enosys)
  after_answer d fb_id clips enomem = (d, enomem)
  after_answer d fb_id clips other = (d, other)

  -- The region's rectangles, with memory for their copies or without.
  unfoldable pub dispatch_clips :
      Damage → (fb_id : ℕ) → (got_clips : Bool) → List Clip → Damage × Errno
  unfolding after_answer
  dispatch_clips d fb_id got_clips [] = (d, good)
  dispatch_clips d fb_id false (c ∷ cs) = (d, enomem)
  dispatch_clips d fb_id true (c ∷ cs) =
      let clips = c ∷ cs in
      let (d, ret) = after_answer (send d fb_id clips) fb_id clips (answer d.sent fb_id clips) in
      (record d { region = [] }, ret)

  -- dispatch_dirty_region: the damage is emptied whatever the kernel answers.
  unfoldable pub dispatch_dirty_region : Damage → (fb_id : ℕ) → (got_clips : Bool) → Damage × Errno
  unfolding dispatch_clips
  dispatch_dirty_region d fb_id got_clips = dispatch_clips d fb_id got_clips d.region

-- The screen's own damage, none once the kernel does not want updates.
pub record Updates : Type 0 where
  pub dirty_enabled : Bool
  pub damage : Option Damage

unfoldable pub after_dirty : Updates → Damage × Errno → Updates
after_dirty u (d, einval) = record { dirty_enabled = false; damage = none }
after_dirty u (d, enosys) = record { dirty_enabled = false; damage = none }
after_dirty u (d, good) = record u { damage = some d }
after_dirty u (d, enomem) = record u { damage = some d }
after_dirty u (d, other) = record u { damage = some d }

-- The damage of a shared pixmap with its frame buffer.
pub record Shared : Type 0 where
  pub fb_id : ℕ
  pub slave_damage : Damage

-- An entry of the pixmap_dirty_list: whether its region is not empty, and the flags of its master
-- pixmap, which is that of no other entry.
pub record DirtyEntry : Type 0 where
  pub slave_dst : ℕ
  pub damaged : Bool
  pub notify_on_damage : Bool
  pub defer_dirty_update : Bool

-- What ms_dirty_update does to other screens.
pub data DirtyCall : Type 0 where
  notify redisplay : (slave_dst : ℕ) → DirtyCall

-- The entries with the calls that were made, newest first, and whether the timeout is 0 now.
pub record DirtyState : Type 0 where
  pub entries : List DirtyEntry
  pub calls : List DirtyCall
  pub at_once : Bool

unfoldable pub redisplay_dirty :
    (is_gpu : Bool) → DirtyEntry → List DirtyCall × Bool → List DirtyCall × Bool
redisplay_dirty is_gpu e (calls, at_once) = (redisplay e.slave_dst ∷ calls, at_once || not is_gpu)

-- The flag is cleared before the call.
unfoldable pub notify_damage : DirtyEntry → List DirtyCall → DirtyEntry × List DirtyCall
notify_damage e calls =
    if e.notify_on_damage
    then (record e { notify_on_damage = false }, notify e.slave_dst ∷ calls)
    else (e, calls)

-- A damaged entry whose pixmap is not on a slave screen.
unfoldable pub update_master :
    DirtyEntry → List DirtyCall × Bool → DirtyEntry × (List DirtyCall × Bool)
unfolding notify_damage redisplay_dirty
update_master e (calls, at_once) =
    let (e, calls) = notify_damage e calls in
    if e.defer_dirty_update
    then (e, (calls, at_once))
    else (record e { damaged = false }, redisplay_dirty false e (calls, at_once))

unfoldable pub update_entry :
    (is_gpu : Bool) → DirtyEntry → List DirtyCall × Bool → DirtyEntry × (List DirtyCall × Bool)
unfolding update_master redisplay_dirty
update_entry is_gpu e c =
    if not e.damaged
    then (e, c)
    else if is_gpu
    then (record e { damaged = false }, redisplay_dirty true e c)
    else update_master e c

unfoldable pub update_entries :
    (is_gpu : Bool)
    → List DirtyEntry
    → List DirtyCall × Bool
    → List DirtyEntry × (List DirtyCall × Bool)
unfolding update_entry
update_entries is_gpu [] c = ([], c)
update_entries is_gpu (e ∷ es) c =
    let (e, c) = update_entry is_gpu e c in let (es, c) = update_entries is_gpu es c in (e ∷ es, c)

-- ms_dirty_update.
unfoldable pub dirty_update : (is_gpu : Bool) → DirtyState → DirtyState
unfolding update_entries
dirty_update is_gpu s =
    let (entries, c) = update_entries is_gpu s.entries (s.calls, s.at_once) in
    record { entries = entries; calls = c.0; at_once = c.1 }

-- ms_dirty_get_ent.
unfoldable pub dirty_get_ent : List DirtyEntry → (slave_dst : ℕ) → Option DirtyEntry
dirty_get_ent [] slave_dst = none
dirty_get_ent (e ∷ es) slave_dst =
    let rest = dirty_get_ent es slave_dst in if e.slave_dst == slave_dst then some e else rest

-- The screen as the block handler sees it: the two pixmaps of each CRTC in the order of dispatch, and
-- the dirty list.
pub record Handled : Type 0 where
  pub is_gpu : Bool
  pub reverse_prime_offload_mode : Bool
  pub fb_id : ℕ
  pub updates : Updates
  pub shared : List Shared
  pub dirty : DirtyState

module _ (answer : Answers) (got_clips : Bool) where
  -- dispatch_slave_dirty: the results are not used.
  unfoldable pub dispatch_slave_dirty : List Shared → List Shared
  unfolding dispatch_dirty_region
  dispatch_slave_dirty [] = []
  dispatch_slave_dirty (p ∷ ps) =
      record p { slave_damage = (dispatch_dirty_region answer p.slave_damage p.fb_id got_clips).0 }
      ∷ dispatch_slave_dirty ps

  -- dispatch_dirty: a screen without damage is not dispatched.
  unfoldable pub dispatch_dirty : Updates → (fb_id : ℕ) → Updates
  unfolding dispatch_dirty_region after_dirty
  dispatch_dirty u fb_id = elim u.damage [
    | none ↦ u
    | some d ↦ after_dirty u (dispatch_dirty_region answer d fb_id got_clips)
  ]

  -- msBlockHandler, after the handler that it wraps.
  unfoldable pub block_handler : Handled → Handled
  unfolding dispatch_slave_dirty dispatch_dirty dirty_update
  block_handler h =
      let h =
        if h.is_gpu && not h.reverse_prime_offload_mode
        then record h { shared = dispatch_slave_dirty h.shared }
        else if h.updates.dirty_enabled
        then record h { updates = dispatch_dirty h.updates h.fb_id }
        else h in
      record h { dirty = dirty_update h.is_gpu h.dirty }
