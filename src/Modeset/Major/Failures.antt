-- ===== src/Modeset/Major/Failures.antt =====
-- The result of drmmode_set_mode_major against those of the calls that it makes.
use xserver_xorg_video_loong.Base.{
  ◌≡◌, refl, ◌∙◌, inl, inr, Bool, true, false, Option, none, some, if◌then◌else◌, Option-cases,
  ◌>>=◌, Ensures, Ensures->>=,
}
use xserver_xorg_video_loong.Modeset.Mode.{DisplayMode}
use xserver_xorg_video_loong.Modeset.Atomic.{Kernel}
use xserver_xorg_video_loong.Modeset.Crtc.{State, crtc_set_mode}
use xserver_xorg_video_loong.Modeset.Major.{
  Asked, with_mode, done, after_mode, try_mode, rotate_mode, set_mode_major,
}

abbrev verdict : Option (State × Bool) → Bool
verdict none = true
verdict (some (t, ok)) = ok

-- The result of the first call of drmmode_crtc_set_mode, which in atomic mode is a test.
abbrev pub is_tested : Kernel → State → Bool
is_tested k s = verdict (crtc_set_mode k s s.atomic)

-- The state with the mode that is asked for.
abbrev pub asking : State → DisplayMode → Asked → State
asking s mode a = record s { crtc = with_mode s.crtc mode a }

done_result : (s : State) (r : State × Bool) → (done s.crtc r).1 ≡ r.1
unfolding done
done_result s (t, true) = refl
done_result s (t, false) = refl

module _ (first second : Kernel) where
  verdict_stands :
      (o : Option (State × Bool))
      → Ensures
          (λ (r : State × Bool). r.1 ≡ verdict o)
          (o >>= λ (t, ok).
            if ok then (after_mode first second t >>= λ u. some (u, true)) else some (t, false))
  verdict_stands none = tt
  verdict_stands (some (t, false)) = refl
  verdict_stands (some (t, true)) = elim (Option-cases (after_mode first second t)) [
    | inl e ↦ rw e tt
    | inr (u, e) ↦ rw e refl
  ]

  -- drmmode_set_mode_major does not report what becomes of the mode itself: once the rotation has
  -- succeeded, its result is that of the test in atomic mode whatever the kernel answers to the
  -- request that follows, and if the rotation fails, it is TRUE and the kernel is asked for nothing.
  pub set_mode_major_unreported :
      (s : State) (mode : DisplayMode) (a : Asked)
      → a.mode ≡ some mode
      → Ensures
          (λ (r : State × Bool). r.1 ≡ is_tested first (asking s mode a))
          (set_mode_major first second s true a)
        × Ensures
            (λ (r : State × Bool). (r.1 ≡ true) × (r.0.requests ≡ s.requests))
            (set_mode_major first second s false a)
  unfolding set_mode_major rotate_mode try_mode done
  set_mode_major_unreported s mode a e =
      let t = asking s mode a in
      (
        rw (e, set_mode_major)
            (Ensures->>= (λ (r : State × Bool). r.1 ≡ is_tested first t)
              (λ (r : State × Bool). r.1 ≡ is_tested first t) (try_mode first second t)
              (λ r. some (done s.crtc r)) (verdict_stands (crtc_set_mode first t t.atomic))
              (λ r h. done_result s r ∙ h)),
        rw (e, set_mode_major) (refl, refl),
      )
