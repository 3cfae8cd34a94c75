-- ===== src/Entity/Sharing.antt =====
-- What the reference counts of Entity achieve.
use Prim.Native.Nat.{pred}
use xserver_xorg_video_loong.Base.{
  ℕ, zero, suc, ◌≡◌, ◌≢◌, refl, ◌<◌, Bool, true, false, List, [], ◌∷◌, arith, ◌==◌, if◌then◌else◌,
  pos, negsuc,
}
use xserver_xorg_video_loong.Entity.{
  EntRec, get_drm_master_fd, free_rec, Watch, start_watch, stop_watch,
}

-- A screen of the device starts or ends.
pub data HeadStep : Type 0 where
  starts ends : HeadStep

-- No more screens end than have started, from `n` that are up.
abbrev pub IsBalanced : ℕ → List HeadStep → Type 0
IsBalanced n [] = Unit {0}
IsBalanced n (starts ∷ hs) = IsBalanced (suc n) hs
IsBalanced n (ends ∷ hs) = (0 < n) × IsBalanced (pred n) hs

-- `n` screens share the open descriptor `fd + 1`; with none, nothing is cached.
abbrev pub IsShared : EntRec → ℕ → ℕ → Type 0
IsShared e fd n = (e.fd_ref ≡ pos n) × (e.fd ≡ (if n == 0 then pos 0 else pos (suc fd)))

-- An end closes exactly if one screen is up.
abbrev pub last_ends : ℕ → List HeadStep → List Bool
last_ends n [] = []
last_ends n (starts ∷ hs) = last_ends (suc n) hs
last_ends n (ends ∷ hs) = (n == 1) ∷ last_ends (pred n) hs

abbrev pub left : ℕ → List HeadStep → ℕ
left n [] = n
left n (starts ∷ hs) = left (suc n) hs
left n (ends ∷ hs) = left (pred n) hs

module _ (fd : ℕ) where
  -- The server passes no descriptor, and opening the device gives `fd + 1`.
  abbrev start_head : EntRec → EntRec
  start_head e = (get_drm_master_fd e (negsuc 0) (pos (suc fd))).0

  -- The entity after a history, and for each end whether it closed the descriptor.
  pub run_heads : EntRec → List HeadStep → EntRec × List Bool
  run_heads e [] = (e, [])
  run_heads e (starts ∷ hs) = run_heads (start_head e) hs
  run_heads e (ends ∷ hs) =
      let (e', closed) = free_rec e (pos (suc fd)) false in
      let (last, closes) = run_heads e' hs in (last, closed ∷ closes)

  start_head_lem :
      (e : EntRec) (n : ℕ)
      → IsShared e fd n
      → IsShared (start_head e) fd (suc n)
        × ((get_drm_master_fd e (negsuc 0) (pos (suc fd))).1 ≡ pos (suc fd))
        × ((get_drm_master_fd e (negsuc 0) (pos (suc fd))).2 ≡ true)
  unfolding get_drm_master_fd
  start_head_lem e zero s = ground arith
  start_head_lem e (suc n) s = ground arith

  free_rec_lem :
      (e : EntRec) (n : ℕ)
      → IsShared e fd (suc n)
      → IsShared (free_rec e (pos (suc fd)) false).0 fd n
        × ((free_rec e (pos (suc fd)) false).1 ≡ (suc n == 1))
  unfolding free_rec
  free_rec_lem e zero s = ground arith
  free_rec_lem e (suc n) s = ground arith

  -- Where the server passes no descriptor and the device opens, over any order in which screens
  -- start and end, but no more end than are up, the descriptor is closed exactly by those ends that
  -- leave no screen up, and the reference count is the number of screens that are up.
  pub run_heads_closes :
      (e : EntRec) (n : ℕ) (hs : List HeadStep)
      → IsShared e fd n
      → IsBalanced n hs
      → ((run_heads e hs).1 ≡ last_ends n hs) × IsShared (run_heads e hs).0 fd (left n hs)
  unfolding run_heads
  run_heads_closes e n [] s b = (refl, s)
  run_heads_closes e n (starts ∷ hs) s b =
      run_heads_closes (start_head e) (suc n) hs (start_head_lem e n s).0 b
  run_heads_closes e zero (ends ∷ hs) s b = absurd (omega arith)
  run_heads_closes e (suc n) (ends ∷ hs) s b =
      let (shared, closed) = free_rec_lem e n s in
      let e' = (free_rec e (pos (suc fd)) false).0 in
      let (rest, last) = run_heads_closes e' n hs shared b.1 in (ground (arith, rest, closed), last)

-- In generation `g`, `n` screens are up, and the server watches the descriptor exactly if n > 0.
abbrev pub IsWatched : Watch → ℕ → ℕ → Type 0
IsWatched w g n =
    (w.ent.fd_wakeup_registered ≡ g)
    × (w.ent.fd_wakeup_ref ≡ pos n)
    × (w.notified ≡ (if n == 0 then false else true))

pub step_watch : ℕ → Watch → HeadStep → Watch
step_watch g w starts = start_watch w g
step_watch g w ends = stop_watch w g

pub run_watch : ℕ → Watch → List HeadStep → Watch
unfolding step_watch
run_watch g w [] = w
run_watch g w (h ∷ hs) = run_watch g (step_watch g w h) hs

-- Some screen stays up all the time, up to the last end.
abbrev pub StaysUp : ℕ → List HeadStep → Type 0
StaysUp n [] = Unit {0}
StaysUp n (starts ∷ hs) = (0 < n) × StaysUp (suc n) hs
StaysUp n (ends ∷ hs) = (0 < n) × StaysUp (pred n) hs

init_again :
    (g : ℕ) (w : Watch) (n : ℕ)
    → IsWatched w g (suc n)
    → IsWatched (start_watch w g) g (suc (suc n))
unfolding start_watch
init_again g w n s = ground arith

close_one : (g : ℕ) (w : Watch) (n : ℕ) → IsWatched w g (suc n) → IsWatched (stop_watch w g) g n
unfolding stop_watch
close_one g w zero s = ground arith
close_one g w (suc n) s = ground arith

run_watch-IsWatched :
    (g : ℕ) (w : Watch) (n : ℕ) (hs : List HeadStep)
    → IsWatched w g n
    → StaysUp n hs
    → IsWatched (run_watch g w hs) g (left n hs)
unfolding run_watch
run_watch-IsWatched g w n [] s up = s
run_watch-IsWatched g w zero (h ∷ hs) s up = absurd (no_screen h up)
  where
    no_screen : (h : HeadStep) → StaysUp zero (h ∷ hs) → ⊥
    no_screen starts u = omega arith
    no_screen ends u = omega arith
run_watch-IsWatched g w (suc n) (starts ∷ hs) s up =
    run_watch-IsWatched g (start_watch w g) (suc (suc n)) hs (init_again g w n s) up.1
run_watch-IsWatched g w (suc n) (ends ∷ hs) s up =
    run_watch-IsWatched g (stop_watch w g) n hs (close_one g w n s) up.1

-- In a generation that has not registered the descriptor yet, the first screen registers it; while
-- some screen stays up, the server watches it, and it stops exactly when the last screen closes.
pub run_watch_generation :
    (g : ℕ) (w : Watch) (hs : List HeadStep)
    → g ≢ w.ent.fd_wakeup_registered
    → StaysUp 1 hs
    → IsWatched (run_watch g w (starts ∷ hs)) g (left 1 hs)
unfolding run_watch start_watch
run_watch_generation g w hs fresh up =
    run_watch-IsWatched g (start_watch w g) 1 hs (ground arith) up

-- If every screen of a generation has closed, a screen that starts in that same generation is
-- counted, and the server does not watch the descriptor for it.
pub reopen_unwatched :
    (g : ℕ) (w : Watch)
    → IsWatched w g 0
    → ((start_watch w g).ent.fd_wakeup_ref ≡ pos 1) × ((start_watch w g).notified ≡ false)
unfolding start_watch
reopen_unwatched g w s = ground arith
