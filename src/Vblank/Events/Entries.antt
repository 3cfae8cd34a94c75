-- ===== src/Vblank/Events/Entries.antt =====
-- The list of queued events of vblank.c as a map from numbers to entries.
use xserver_xorg_video_loong.Base.{
  ℕ, ◌≤◌, ◌≡◌, refl, ◌∙◌, Bool, true, false, Option, none, some, List, [], ◌∷◌, arith, ◌==◌,
  if◌then◌else◌, inl, inr, Bool-cases, Option-cases, All, All-map, Ensures, if_either, ==_iff,
}
use mathlib.Core.Path.{subst}
use xserver_xorg_video_loong.Vblank.Queue.{Entry, take_first, take_scrn}
use xserver_xorg_video_loong.Vblank.Events.Numbers.{Falls}

module _ {D : Type 0} where
  -- The entry of a number.
  abbrev pub entry_at : List (Entry D) → ℕ → Option (Entry D)
  entry_at [] k = none
  entry_at (e ∷ es) k = if e.seq == k then some e else entry_at es k

  pub entry_at_above : (n k : ℕ) (es : List (Entry D)) → Falls n es → n ≤ k → entry_at es k ≡ none
  entry_at_above n k [] f h = refl
  entry_at_above n k (e ∷ es) (lt, f) h = ground (arith, entry_at_above e.seq k es f)

  -- The map loses the entry that a search unlinks, and nothing else.
  abbrev pub Unlinks :
      (test : Entry D → Bool) (es : List (Entry D)) → Entry D × List (Entry D) → Type 0
  Unlinks test es (e, rest) =
      (test e ≡ true)
      × (entry_at es e.seq ≡ some e)
      × ((j : ℕ) → entry_at rest j ≡ (if j == e.seq then none else entry_at es j))

  Unlinks-later :
      (test : Entry D → Bool) (x : Entry D) (es : List (Entry D))
      → Falls x.seq es
      → (r : Entry D × List (Entry D)) → Unlinks test es r
      → Unlinks test (x ∷ es) (r.0, x ∷ r.1)
  Unlinks-later test x es f (g, tail) (t, at, others) = (
    t,
    ground (arith, at, entry_at_above x.seq g.seq es f),
    λ j. ground (arith, at, others j, entry_at_above x.seq g.seq es f),
  )

  pub take_first-Unlinks :
      (test : Entry D → Bool) (n : ℕ) (es : List (Entry D))
      → Falls n es
      → Ensures (Unlinks test es) (take_first test es)
  unfolding take_first
  take_first-Unlinks test n [] f = tt
  take_first-Unlinks test n (x ∷ es) (lt, f) =
      if_either (Ensures (Unlinks test (x ∷ es))) (test x) _ _
        (λ hit. (hit, ground arith, λ j. ground (arith, entry_at_above x.seq j es f)))
        (λ miss. elim (Option-cases (take_first test es)) [
          | inl e ↦ rw e tt
          | inr (r, e) ↦ rw e (
              Unlinks-later test x es f r
                (subst (Ensures (Unlinks test es)) e (take_first-Unlinks test x.seq es f)))
        ])

  -- A search that finds nothing.
  pub take_first-none :
      (test : Entry D → Bool) (es : List (Entry D)) (k : ℕ) (e : Entry D)
      → take_first test es ≡ none
      → entry_at es k ≡ some e
      → test e ≡ false
  unfolding take_first
  take_first-none test [] k e h at = absurd cc
  take_first-none test (x ∷ es) k e h at = elim (Bool-cases (test x)) [
    | inl hit ↦ absurd (ground (arith, h, hit))
    | inr miss ↦ elim (Option-cases (take_first test es)) [
      | inl rest ↦ ground (arith, at, miss, take_first-none test es k e rest)
      | inr (r, e1) ↦ absurd (ground (arith, h, miss, e1))
    ]
  ]

  -- The entries of a screen are gone from the map.
  abbrev pub keep_scrn : ℕ → Option (Entry D) → Option (Entry D)
  keep_scrn scrn none = none
  keep_scrn scrn (some e) = if e.scrn == scrn then none else some e

  pub take_scrn-entry_at :
      (scrn n : ℕ) (es : List (Entry D)) (j : ℕ)
      → Falls n es
      → entry_at (take_scrn scrn es).1 j ≡ keep_scrn scrn (entry_at es j)
  unfolding take_scrn
  take_scrn-entry_at scrn n [] j f = refl
  take_scrn-entry_at scrn n (e ∷ es) j (lt, f) =
      let ih = take_scrn-entry_at scrn e.seq es j f in
      elim (Bool-cases (e.scrn == scrn)) [
        | inl gone ↦ rw gone (ih ∙ ground (arith, gone, entry_at_above e.seq j es f))
        | inr kept ↦ rw kept (ground (arith, ih, kept))
      ]

  -- An entry of the screen that the map has.
  abbrev pub IsGone : (scrn : ℕ) → List (Entry D) → Entry D → Type 0
  IsGone scrn es e = (e.scrn ≡ scrn) × (entry_at es e.seq ≡ some e)

  IsGone-later :
      (scrn : ℕ) (e : Entry D) (es : List (Entry D))
      → Falls e.seq es
      → (g : Entry D) → IsGone scrn es g
      → IsGone scrn (e ∷ es) g
  IsGone-later scrn e es f g (on, at) = (on, ground (arith, at, entry_at_above e.seq g.seq es f))

  pub take_scrn-IsGone :
      (scrn n : ℕ) (es : List (Entry D)) → Falls n es → All (IsGone scrn es) (take_scrn scrn es).0
  unfolding take_scrn
  take_scrn-IsGone scrn n [] f = tt
  take_scrn-IsGone scrn n (e ∷ es) (lt, f) =
      let ih =
        All-map {P = IsGone scrn es} {Q = IsGone scrn (e ∷ es)} (IsGone-later scrn e es f)
          (take_scrn scrn es).0 (take_scrn-IsGone scrn e.seq es f) in
      elim (Bool-cases (e.scrn == scrn)) [
        | inl gone ↦ rw gone (((==_iff e.scrn scrn).0 gone, ground arith), ih)
        | inr kept ↦ rw kept ih
      ]
