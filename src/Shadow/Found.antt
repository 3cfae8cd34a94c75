-- ===== src/Shadow/Found.antt =====
-- What the search for tiles that differ keeps.
use xserver_xorg_video_loong.Base.{
  ℕ, ◌+◌, ◌*◌, ◌<◌, ◌≡◌, ◌≢◌, refl, sym, ◌∙◌, ◌⊎◌, inl, inr, true, Option, some, none, List, [],
  ◌∷◌, ◌++◌, arith, All,
}
use mathlib.Core.Path.{subst}
use xserver_xorg_video_loong.Shadow.{Bytes, Box, Rectangle, to_rectangle, Found, add_found}
use xserver_xorg_video_loong.Shadow.Tiles.{on_box, Fits, Syncs}
use xserver_xorg_video_loong.Shadow.Pixels.{byte_in, bytes_in, bytes_in-append, on_box-byte_in}

module _ (new : Bytes) (stride cpp : ℕ) (first : Bytes) where
  -- Some byte of the rectangle differed at first.
  abbrev pub Differs : Rectangle → Type 0
  Differs r =
      (q : ℕ) × (c : ℕ) × (c < stride)
      × (byte_in stride cpp r q c ≡ true)
      × (first (q * stride + c) ≢ new (q * stride + c))

  -- A byte is as at first, or it is the new one and in a rectangle.
  pub record Inv (s : Found) : Type 0 where
    pub bytes :
        (q c : ℕ)
        → c < stride
        → (s.0 (q * stride + c) ≡ first (q * stride + c))
          ⊎ ((s.0 (q * stride + c) ≡ new (q * stride + c)) × (bytes_in stride cpp s.1 q c ≡ true))
    pub rects : All Differs s.1

  -- A step keeps the invariant, and keeps the bytes that agree.
  pub record Keeps (s t : Found) : Type 0 where
    pub inv : Inv s → Inv t
    pub still :
        (q c : ℕ)
        → c < stride
        → s.0 (q * stride + c) ≡ new (q * stride + c)
        → t.0 (q * stride + c) ≡ new (q * stride + c)

  pub Keeps-refl : (s : Found) → Keeps s s
  Keeps-refl s = record { inv = λ i. i; still = λ q c l e. e }

  pub Keeps-trans : (s t u : Found) → Keeps s t → Keeps t u → Keeps s u
  Keeps-trans s t u k m = record {
    inv = λ i. m.inv (k.inv i);
    still = λ q c l e. m.still q c l (k.still q c l e);
  }

  All-snoc :
      (rs : List Rectangle) (r : Rectangle)
      → All Differs rs
      → Differs r
      → All Differs (rs ++ (r ∷ []))
  All-snoc [] r h d = (d, tt)
  All-snoc (q ∷ rs) r (e, h) d = (e, All-snoc rs r h d)

  module _ (old : Bytes) (rects : List Rectangle) (b : Box) (fits : Fits stride cpp b) where
    Syncs-still :
        (r : Bytes × Option Rectangle)
        → Syncs stride cpp new old b r
        → (q c : ℕ) → c < stride
        → old (q * stride + c) ≡ new (q * stride + c)
        → r.0 (q * stride + c) ≡ new (q * stride + c)
    Syncs-still r s q c l e = elim (s.kept q c l) [
      | inl same ↦ same ∙ e
      | inr (made, found, on) ↦ made
    ]

    -- The rectangle of the box, where it is found, differed at first.
    box-Differs :
        (q c : ℕ)
        → Inv (old, rects)
        → c < stride
        → on_box stride cpp b q c ≡ true
        → old (q * stride + c) ≢ new (q * stride + c)
        → Differs (to_rectangle b)
    box-Differs q c i l on d = elim (i.bytes q c l) [
      | inl e ↦
          (q, c, l, on_box-byte_in stride cpp b q c fits.ordered fits.upright on, λ k. d (e ∙ k))
      | inr (e, found) ↦ absurd (d e)
    ]

    box-Inv :
        (after : Bytes)
        → Syncs stride cpp new old b (after, some (to_rectangle b))
        → Inv (old, rects)
        → Inv (after, rects ++ (to_rectangle b ∷ []))
    box-Inv after s i = record {
      bytes = λ q c l.
          let more = bytes_in-append stride cpp rects (to_rectangle b ∷ []) q c in
          elim (s.kept q c l) [
            | inl e ↦ elim (i.bytes q c l) [
              | inl at_first ↦ inl (e ∙ at_first)
              | inr (made, found) ↦ inr (e ∙ made, more ∙ rw found refl)
            ]
            | inr (made, found, on) ↦ inr (
              made,
              more
                  ∙ (let here = on_box-byte_in stride cpp b q c fits.ordered fits.upright on in
                      ground (arith, here)),
            )
          ];
      rects = elim s.found [
        | inl e ↦ absurd cc
        | inr (e, q, c, l, on, d) ↦
            All-snoc rects (to_rectangle b) i.rects (box-Differs q c i l on d)
      ];
    }

    add_found-Inv :
        (r : Bytes × Option Rectangle)
        → Syncs stride cpp new old b r
        → Inv (old, rects)
        → Inv (add_found rects r)
    unfolding add_found
    add_found-Inv (after, none) s i = record {
      bytes = λ q c l. elim (s.kept q c l) [
        | inl e ↦ elim (i.bytes q c l) [
          | inl at_first ↦ inl (e ∙ at_first)
          | inr (made, found) ↦ inr (e ∙ made, found)
        ]
        | inr (e, found, on) ↦ absurd cc
      ];
      rects = i.rects;
    }
    add_found-Inv (after, some r) s i = elim s.found [
      | inl e ↦ absurd cc
      | inr (e, q, c, l, on, d) ↦
          subst (λ t. Syncs stride cpp new old b (after, t) → Inv (add_found rects (after, t)))
            (sym e) (λ t. box-Inv after t i) s
    ]

    -- Searching the box is a step.
    pub add_found-Keeps :
        (r : Bytes × Option Rectangle)
        → Syncs stride cpp new old b r
        → Keeps (old, rects) (add_found rects r)
    unfolding add_found
    add_found-Keeps (after, none) s = record {
      inv = add_found-Inv (after, none) s;
      still = Syncs-still (after, none) s;
    }
    add_found-Keeps (after, some r) s = record {
      inv = add_found-Inv (after, some r) s;
      still = Syncs-still (after, some r) s;
    }
