-- ===== src/Dri2/Creation.antt =====
-- ms_dri2_create_buffer2 of dri2.c, and the references that it takes on pixmaps. CreatePixmap and
-- DestroyPixmap of the server are parameters; the references are a number for each pixmap.
use xserver_xorg_video_loong.Base.{
  ℕ, ◌+◌, ◌-◌, ◌/◌, ◌≡◌, refl, Bool, true, false, ◌&&◌, Option, none, some, if◌then◌else◌, arith,
  Bool-cases, Option-cases, inl, inr, ◌⊎◌,
}
use xserver_xorg_video_loong.Dri2.{Buffer, set_at}

-- The attachments that the switch names, and all others.
pub data Attachment : Type 0 where
  front_left back_left front_right back_right fake_front_left fake_front_right accum : Attachment
  stencil depth depth_stencil hiz other : Attachment

-- The switch: stencil, depth and unknown buffers are not supported.
unfoldable pub is_supported : Attachment → Bool
is_supported stencil = false
is_supported depth = false
is_supported depth_stencil = false
is_supported hiz = false
is_supported other = false
is_supported _ = true

abbrev is_front_left : Attachment → Bool
is_front_left front_left = true
is_front_left _ = false

abbrev pub Refs : Type 0
Refs = ℕ → ℕ

-- DRI2BufferRec, with its private record.
pub record CreatedBuffer : Type 0 where
  pub attachment : Attachment
  pub format : ℕ
  pub cpp : ℕ
  pub name : ℕ
  pub pitch : ℕ
  pub private : Buffer

-- Whether the two callocs give memory; the pixmap of the drawable, if it is of this screen; the
-- bits per pixel of the chosen pixmap; and its name and pitch, where there is a name.
pub record CreateAnswers : Type 0 where
  pub got_buffer : Bool
  pub got_private : Bool
  pub drawable_pixmap : Option ℕ
  pub bits_per_pixel : ℕ
  pub named : Option (ℕ × ℕ)

-- What the server does to the references.
pub record PixmapServer : Type 0 where
  pub create_pixmap : Refs → Option (Refs × ℕ)
  pub destroy_pixmap : Refs → ℕ → Refs

-- A new pixmap had no reference and has one; a destroyed one loses one; no other pixmap changes.
pub record IsCounting (s : PixmapServer) : Type 0 where
  pub created :
      (r r' : Refs) (p q : ℕ)
      → s.create_pixmap r ≡ some (r', p)
      → (r p ≡ 0) × (r' q ≡ set_at r p 1 q)
  pub destroyed : (r : Refs) (p q : ℕ) → s.destroy_pixmap r p q ≡ set_at r p (r p - 1) q

-- The front buffer of the drawable gets a reference more.
front_pixmap : Refs → Attachment → CreateAnswers → Refs × Option ℕ
front_pixmap r attachment w = elim w.drawable_pixmap [
  | none ↦ (r, none)
  | some p ↦ if is_front_left attachment then (set_at r p (r p + 1), some p) else (r, none)
]

module _ (s : PixmapServer) where
  -- The new pixmap where there is no front pixmap.
  choose_pixmap : Refs × Option ℕ → Attachment → Option (Refs × ℕ)
  choose_pixmap (r, some p) attachment = some (r, p)
  choose_pixmap (r, none) attachment = if is_supported attachment then s.create_pixmap r else none

  -- The end of the function.
  name_pixmap : Attachment → (format : ℕ) → CreateAnswers → Refs × ℕ → Refs × Option CreatedBuffer
  name_pixmap attachment format w (r, p) = elim w.named [
    | none ↦ (s.destroy_pixmap r p, none)
    | some (name, pitch) ↦ (
      r,
      some (record {
        attachment = attachment;
        format = format;
        cpp = w.bits_per_pixel / 8;
        name = name;
        pitch = pitch;
        private = record { refcnt = 1; pixmap = p };
      }),
    )
  ]

  finish_buffer :
      Refs
      → Attachment
      → (format : ℕ) → CreateAnswers
      → Option (Refs × ℕ)
      → Refs × Option CreatedBuffer
  unfolding name_pixmap
  finish_buffer r attachment format w none = (r, none)
  finish_buffer r attachment format w (some taken) = name_pixmap attachment format w taken

  -- ms_dri2_create_buffer2; nothing is taken where there is no buffer.
  unfoldable pub create_buffer2 :
      Refs → Attachment → (format : ℕ) → CreateAnswers → Refs × Option CreatedBuffer
  unfolding front_pixmap choose_pixmap finish_buffer
  create_buffer2 r attachment format w =
      let taken = choose_pixmap (front_pixmap r attachment w) attachment in
      if w.got_buffer && w.got_private then finish_buffer r attachment format w taken else (r, none)

  -- A failure leaves all references as they were; a buffer has one reference of its own, and the
  -- end of its pixmap brings all references back.
  abbrev pub IsBalancedBy : Refs → Refs × Option CreatedBuffer → Type 0
  IsBalancedBy r (r', none) = (q : ℕ) → r' q ≡ r q
  IsBalancedBy r (r', some b) =
      (b.private.refcnt ≡ 1) × ((q : ℕ) → s.destroy_pixmap r' b.private.pixmap q ≡ r q)

  -- `r'` has one reference to `p` more than `r`.
  abbrev OneMore : Refs → Refs → ℕ → Type 0
  OneMore r r' p = (q : ℕ) → r' q ≡ set_at r p (r p + 1) q

  name_pixmap-IsBalancedBy :
      (r r' : Refs) (p : ℕ) (attachment : Attachment) (format : ℕ) (w : CreateAnswers)
      → IsCounting s
      → OneMore r r' p
      → IsBalancedBy r (name_pixmap attachment format w (r', p))
  unfolding name_pixmap
  name_pixmap-IsBalancedBy r r' p attachment format w c h =
      let back : (q : ℕ) → s.destroy_pixmap r' p q ≡ r q =
        λ q. ground (arith, c.destroyed r' p q, h q, h p) in
      elim (Option-cases w.named) [ inl e ↦ rw e back | inr ((name, pitch), e) ↦ rw e (refl, back) ]

  abbrev TakesOne : Refs → Option (Refs × ℕ) → Type 0
  TakesOne r none = Unit {0}
  TakesOne r (some (r', p)) = OneMore r r' p

  create_pixmap-TakesOne : (r : Refs) → IsCounting s → TakesOne r (s.create_pixmap r)
  create_pixmap-TakesOne r c = elim (Option-cases (s.create_pixmap r)) [
    | inl e ↦ rw e tt
    | inr ((r', p), e) ↦ rw e (λ q. ground (arith, c.created r r' p q e))
  ]

  front_cases :
      (r : Refs) (attachment : Attachment) (w : CreateAnswers)
      → (front_pixmap r attachment w ≡ (r, none))
        ⊎ ((p : ℕ) × (front_pixmap r attachment w ≡ (set_at r p (r p + 1), some p)))
  unfolding front_pixmap
  front_cases r attachment w = elim (Option-cases w.drawable_pixmap) [
    | inl e ↦ inl (rw e refl)
    | inr (p, e) ↦ elim (Bool-cases (is_front_left attachment)) [
      | inl front ↦ inr (p, rw (e, front) refl)
      | inr behind ↦ inl (rw (e, behind) refl)
    ]
  ]

  choose_pixmap-TakesOne :
      (r : Refs) (attachment : Attachment) (w : CreateAnswers)
      → IsCounting s
      → TakesOne r (choose_pixmap (front_pixmap r attachment w) attachment)
  unfolding choose_pixmap
  choose_pixmap-TakesOne r attachment w c = elim (front_cases r attachment w) [
    | inl e ↦ rw e (elim (Bool-cases (is_supported attachment)) [
      | inl fits ↦ rw fits (create_pixmap-TakesOne r c)
      | inr unfit ↦ rw unfit tt
    ])
    | inr (p, e) ↦ rw e (λ q. refl)
  ]

  finish_buffer-IsBalancedBy :
      (r : Refs) (attachment : Attachment) (format : ℕ) (w : CreateAnswers) (o : Option (Refs × ℕ))
      → IsCounting s
      → TakesOne r o
      → IsBalancedBy r (finish_buffer r attachment format w o)
  unfolding finish_buffer
  finish_buffer-IsBalancedBy r attachment format w none c h = λ q. refl
  finish_buffer-IsBalancedBy r attachment format w (some (r', p)) c h =
      name_pixmap-IsBalancedBy r r' p attachment format w c h

  -- If the server counts references, ms_dri2_create_buffer2 leaks none on any path: without a buffer
  -- all references are as before, and with one, the end of its pixmap brings them back.
  pub create_buffer2-IsBalancedBy :
      (r : Refs) (attachment : Attachment) (format : ℕ) (w : CreateAnswers)
      → IsCounting s
      → IsBalancedBy r (create_buffer2 r attachment format w)
  unfolding create_buffer2
  create_buffer2-IsBalancedBy r attachment format w c =
      elim (Bool-cases (w.got_buffer && w.got_private)) [
        | inr poor ↦ rw (poor, create_buffer2) (λ q. refl)
        | inl got ↦
            rw (got, create_buffer2)
              (finish_buffer-IsBalancedBy r attachment format w
                (choose_pixmap (front_pixmap r attachment w) attachment) c
                (choose_pixmap-TakesOne r attachment w c))
      ]
