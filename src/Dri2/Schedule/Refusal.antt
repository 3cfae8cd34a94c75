-- ===== src/Dri2/Schedule/Refusal.antt =====
-- A request of DRI2 that the kernel refuses: the queue has then aborted the entry, and its abort
-- function has freed the frame event, which dri2.c deletes once more.
use xserver_xorg_video_loong.Base.{
  ℕ, ◌≡◌, refl, ap, ◌∙◌, Bool, true, false, Option, none, some, List, [], ◌∷◌, arith, inl, inr,
  Option-cases, is_some, ◌>>=◌, ==_refl,
}
use xserver_xorg_video_loong.Vblank.Queue.{Entry, alloc, next_seq}
use xserver_xorg_video_loong.Vblank.Events.{aborted}
use xserver_xorg_video_loong.Vblank.Requests.{
  Driver, Reply, done, fails, get_crtc_ust_msc, get_kernel_ust_msc, QueueFlag, Target, Round,
  Result, refused, queue_vblank,
}
use xserver_xorg_video_loong.Vblank.Requests.Outcomes.{fatal_reply, queue_vblank_fatal}
use xserver_xorg_video_loong.Dri2.{
  Store, say, blit, swap_complete, del_frame_event, destroy_buffer, frame_event_abort, free_frame,
}
use xserver_xorg_video_loong.Dri2.Schedule.{
  Ask, Answers, settle, settled, target_of, unlogged, request, blit_fallback, wait_free,
  swap_result, wait_result, swap_at, schedule_swap, read_msc, swap_read, swap_for,
  schedule_wait_msc, wait_at, wait_for,
}

-- The kernel refuses the request at once, with an error other than EBUSY.
abbrev pub Refuses : List (Round ℕ) → Type 0
Refuses [] = ⊥
Refuses (r ∷ rs) = (fatal_reply r.sequence_reply ≡ true) × (fatal_reply r.vblank_reply ≡ true)

-- The result of a request that was refused, if there is one, lacks the frame event `a`.
abbrev LeavesNone : ℕ → Option (Store × Result) → Type 0
LeavesNone a none = Unit {0}
LeavesNone a (some (s, result)) = (s.frames a ≡ none) × (result ≡ refused)

abbrev Frees : ℕ → Option Store → Type 0
Frees a none = Unit {0}
Frees a (some s) = s.frames a ≡ none

del_frame_event_freed : (s : Store) (a : ℕ) → s.frames a ≡ none → del_frame_event s a ≡ none
unfolding del_frame_event
del_frame_event_freed s a h = rw (h, del_frame_event) refl

free_frame-Frees : (a : ℕ) (o : Option Store) → Frees a (o >>= free_frame a)
unfolding free_frame
free_frame-Frees a none = tt
free_frame-Frees a (some s) = rw (==_refl a) refl

del_frame_event-Frees : (s : Store) (a : ℕ) → Frees a (del_frame_event s a)
unfolding del_frame_event
del_frame_event-Frees s a = elim (Option-cases (s.frames a)) [
  | inl e ↦ rw (e, del_frame_event) tt
  | inr (f, e) ↦
      rw (e, del_frame_event)
        (free_frame-Frees a (destroy_buffer s f.front >>= (λ s'. destroy_buffer s' f.back)))
]

leaves_none :
    (a : ℕ) (o : Option Store) (result : Result)
    → Frees a o
    → result ≡ refused
    → LeavesNone a (o >>= (λ s'. some (s', result)))
leaves_none a none result h e = tt
leaves_none a (some s) result h e = (h, e)

settled_refused :
    (s : Store) (later : ℕ → Bool) (d : Driver ℕ) (result : Result) (e : Entry ℕ)
    → result ≡ refused
    → d.events.log ≡ aborted e ∷ []
    → LeavesNone e.payload (settled s later (d, result))
unfolding settled settle frame_event_abort
settled_refused s later d result e r h = rw h (
    leaves_none e.payload (del_frame_event (record s { driver = unlogged d }) e.payload) result
      (del_frame_event-Frees (record s { driver = unlogged d }) e.payload) r)

queue_vblank-settled :
    (s : Store) (later : ℕ → Bool) (d : Driver ℕ) (t : Target) (rs : List (Round ℕ)) (e : Entry ℕ)
    (es : List (Entry ℕ))
    → d.events.queue.entries ≡ e ∷ es
    → e.seq ≡ t.seq
    → d.events.log ≡ []
    → Refuses rs
    → LeavesNone e.payload (settled s later (queue_vblank d t rs))
queue_vblank-settled s later d t [] e es h i l f = elim f [ ]
queue_vblank-settled s later d t (r ∷ rs) e es h i l (f, g) =
    let (result, log) = queue_vblank_fatal d t r rs e es h i f g in
    settled_refused s later (queue_vblank d t (r ∷ rs)).0 (queue_vblank d t (r ∷ rs)).1 e result
      (log ∙ ap (λ l. aborted e ∷ l) l)

request_refused :
    (s : Store) (x : Ask) (w : Answers) (a : ℕ) (flags : QueueFlag) (msc : ℕ)
    → w.got_queue ≡ true
    → Refuses w.rounds
    → LeavesNone a (request s x w a flags msc)
unfolding request alloc target_of
request_refused s x w a flags msc g f =
    let d = unlogged s.driver in
    let seq = next_seq d.events.queue.drm_seq in
    let e : Entry ℕ = record { seq = seq; scrn = x.scrn; crtc = x.crtc; payload = a } in
    let asked : Driver ℕ = record d {
      events = record (d.events) { queue = (alloc d.events.queue true x.scrn x.crtc a).0 };
    } in
    rw g (
      queue_vblank-settled s w.later asked (target_of x flags msc seq) w.rounds e
        d.events.queue.entries refl refl refl f)

-- The frame event is deleted by the label that follows.
blit_fallback_freed :
    (s : Store) (x : Ask) (front back a : ℕ)
    → s.frames a ≡ none
    → blit_fallback s x front back (some a) ≡ none
unfolding blit_fallback
blit_fallback_freed s x front back a h =
    let s' =
      say (say s (blit x.drawable (some front) (some back)))
        (swap_complete (some x.client) x.drawable 0 0 0) in
    rw (del_frame_event_freed s' a h) refl

swap_refused :
    (x : Ask) (front back : ℕ) (flip : Bool) (a target : ℕ) (o : Option (Store × Result))
    → LeavesNone a o
    → o >>= swap_result x front back flip a target ≡ none
unfolding swap_result
swap_refused x front back flip a target none h = refl
swap_refused x front back flip a target (some (s, result)) (h, e) =
    rw e (blit_fallback_freed s x front back a h)

wait_refused :
    (x : Ask) (a target : ℕ) (o : Option (Store × Result))
    → LeavesNone a o
    → o >>= wait_result x a target ≡ none
unfolding wait_result wait_free
wait_refused x a target none h = refl
wait_refused x a target (some (s, result)) (h, e) = rw (e, del_frame_event_freed s a h) refl

-- Memory is there, and the kernel refuses what schedule_swap or schedule_wait_msc asks for.
abbrev pub IsRefused : Answers → (a : ℕ) → Type 0
IsRefused w a = (w.place ≡ some a) × (w.resources ≡ true) × (w.got_queue ≡ true) × Refuses w.rounds

wait_for_refused :
    (s : Store) (x : Ask) (w : Answers) (a current_msc : ℕ)
    → IsRefused w a
    → wait_for s x w a current_msc ≡ none
unfolding wait_for
wait_for_refused s x w a current_msc (place, resources, got, refuses) =
    wait_refused x a _ _ (request_refused s x w a _ _ got refuses)

wait_at_refused :
    (s : Store) (x : Ask) (w : Answers) (a : ℕ) → IsRefused w a → wait_at s x w a ≡ none
unfolding wait_at
wait_at_refused s x w a h = wait_for_refused _ x w a _ h

-- Where a CRTC shows the drawable and memory is there, and the kernel refuses the event for
-- DRI2WaitMSC at once with an error other than EBUSY, the frame event is freed twice.
pub schedule_wait_msc_refused :
    (s : Store) (x : Ask) (w : Answers) (a : ℕ)
    → IsRefused w a
    → schedule_wait_msc s true x w ≡ none
unfolding schedule_wait_msc
schedule_wait_msc_refused s x w a h = ground (arith, h.0, h.1, wait_at_refused s x w a h)

swap_for_refused :
    (s : Store) (x : Ask) (w : Answers) (front back a current_msc : ℕ)
    → IsRefused w a
    → swap_for s x w front back a current_msc ≡ none
unfolding swap_for
swap_for_refused s x w front back a current_msc (place, resources, got, refuses) =
    swap_refused x front back w.flips a x.target_msc _ (request_refused s x w a _ _ got refuses)

swap_read_refused :
    (x : Ask) (w : Answers) (front back a : ℕ) (s : Store) (count : Option ℕ)
    → IsRefused w a
    → is_some count ≡ true
    → swap_read x w front back a (s, count) ≡ none
unfolding swap_read
swap_read_refused x w front back a s none h e = ground arith
swap_read_refused x w front back a s (some current_msc) h e =
    swap_for_refused _ x w front back a current_msc h

abbrev pub is_done : {A : Type 0} → Reply A → Bool
is_done (done x) = true
is_done (fails minus_one e) = false

read_msc_done :
    (s : Store) (x : Ask) (w : Answers)
    → is_done w.sequence_reply ≡ true
    → is_done w.vblank_reply ≡ true
    → is_some (read_msc s x w).1 ≡ true
unfolding read_msc get_crtc_ust_msc get_kernel_ust_msc
read_msc_done s x w h k = ground arith

bind_none :
    {A B : Type 0} (o : Option A) (f : A → Option B) → ((a : A) → f a ≡ none) → o >>= f ≡ none
bind_none none f h = refl
bind_none (some a) f h = h a

swap_at_refused :
    (s : Store) (x : Ask) (w : Answers) (front back a : ℕ)
    → IsRefused w a
    → is_done w.sequence_reply ≡ true
    → is_done w.vblank_reply ≡ true
    → swap_at s x w front back a ≡ none
unfolding swap_at
swap_at_refused s x w front back a h d e =
    bind_none _ _ (λ s'. swap_read_refused x w front back a _ _ h (read_msc_done s' x w d e))

-- Where a CRTC shows the drawable, memory is there and the ioctls give the current count, and the
-- kernel refuses the event for a swap at once with an error other than EBUSY, the frame event is
-- freed twice, or a buffer of the swap is no longer there.
pub schedule_swap_refused :
    (s : Store) (x : Ask) (w : Answers) (front back a : ℕ)
    → IsRefused w a
    → is_done w.sequence_reply ≡ true
    → is_done w.vblank_reply ≡ true
    → schedule_swap s true x front back w ≡ none
unfolding schedule_swap
schedule_swap_refused s x w front back a h d e =
    ground (arith, h.0, h.1, swap_at_refused s x w front back a h d e)
