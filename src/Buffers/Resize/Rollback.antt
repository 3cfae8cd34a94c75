-- ===== src/Buffers/Resize/Rollback.antt =====
-- What drmmode_xf86crtc_resize leaves when it fails, and when it succeeds.
use xserver_xorg_video_loong.Base.{
  ℕ, ap, ◌*◌, ◌/◌, ◌≡◌, ◌⊎◌, refl, sym, ◌∙◌, Bool, true, false, not, ◌&&◌, Option, none, some, ◌∷◌,
  arith, ◌==◌, is_some, if◌then◌else◌, if_either, Bool-cases, inl, inr, Yields, Yields-at,
  Yields->>=,
}
use mathlib.Core.Path.{subst}
use xserver_xorg_video_loong.Buffers.{Store, Bo, bo_destroy, bo_get_pitch, bo_map, create_bo}
use xserver_xorg_video_loong.Buffers.Balance.{IsSame, HasDumb, HasBo, bo_destroy-IsSame}
use xserver_xorg_video_loong.Buffers.Creation.{
  IsFresh, FitsGlamor, IsReady, HasMade, create_bo-HasBo, create_bo-MakesReady, bo_map-HasBo,
  bo_destroy-old,
}
use xserver_xorg_video_loong.Buffers.Resize.{
  Header, Screen, Resizing, map_front, take_shadows, finish, fail, end_resize, use_front,
  replace_front, resize_to, xf86crtc_resize,
}

-- The front buffer of the screen, its sizes, and all that the store holds are as they were.
pub record IsRestored (s t : Screen) : Type 0 where
  pub front_bo : t.front_bo ≡ s.front_bo
  pub fb_id : t.fb_id ≡ s.fb_id
  pub virtual_x : t.virtual_x ≡ s.virtual_x
  pub virtual_y : t.virtual_y ≡ s.virtual_y
  pub display_width : t.display_width ≡ s.display_width
  pub removed : t.removed ≡ s.removed
  pub store : IsSame s.store t.store

-- In the middle: the store holds the new front buffer and all that it held, and nothing was removed.
pub record IsBetween (s t : Screen) : Type 0 where
  pub removed : t.removed ≡ s.removed
  pub store : HasBo s.store t.store t.front_bo

-- What a screen and the answers must be for the theorem: the pitch of the front buffer gives the
-- width, new objects are new, a gbm device is there exactly if glamor is on, and the new buffer object
-- can be destroyed.
pub record CanResize (s : Screen) (r : Resizing) : Type 0 where
  pub ready : IsReady r.create.glamor s.front_bo
  pub pitch : ℕ
  pub old_pitch : bo_get_pitch s.store r.gbm_stride s.front_bo ≡ some pitch
  pub width : s.display_width ≡ pitch / r.kcpp
  pub fresh : IsFresh s.store r.create
  pub device : r.has_gbm ≡ r.create.glamor
  pub destroyed : r.new_destroyed ≡ true

-- The shadows and the header of the screen pixmap are as they were.
pub record IsUntouched (s t : Screen) : Type 0 where
  pub shadow_fb : t.shadow_fb ≡ s.shadow_fb
  pub shadow_fb2 : t.shadow_fb2 ≡ s.shadow_fb2
  pub headers : t.headers ≡ s.headers

-- The shadows that are enabled are the new memory, and the header of the pixmap has the new size.
pub record IsReplaced (s : Screen) (r : Resizing) (width height : ℕ) (t : Screen) : Type 0 where
  pub shadow_fb : t.shadow_fb ≡ (if r.shadow_enable then r.shadow else s.shadow_fb)
  pub shadow_fb2 : t.shadow_fb2 ≡ (if r.shadow_enable2 then r.shadow2 else s.shadow_fb2)
  pub header : Header
  pub headers : t.headers ≡ header ∷ s.headers
  pub wide : header.width ≡ width
  pub high : header.height ≡ height

-- What a failure leaves of them: glamor that refuses the pixmap comes after their replacement, and
-- nothing puts the old ones back.
abbrev pub Leaves : (s : Screen) → Resizing → (width height : ℕ) → Screen → Type 0
Leaves s r width height t = IsUntouched s t ⊎ ((r.handled ≡ false) × IsReplaced s r width height t)

-- After TRUE the screen has the new size: it had it, or its shadows and the header of its pixmap are
-- the new ones.
abbrev pub IsResized : Screen → Resizing → (width height : ℕ) → Screen × Bool → Type 0
IsResized s r width height (t, true) =
    (t.virtual_x ≡ width) × (t.virtual_y ≡ height) × ((t ≡ s) ⊎ IsReplaced s r width height t)
IsResized s r width height (t, false) = IsRestored s t × Leaves s r width height t

module _ (s : Screen) (r : Resizing) (width height : ℕ) where
  -- The new front buffer is there, with its sizes if it could be mapped.
  abbrev Mapped : Screen × Option ℕ × Bool → Type 0
  Mapped (t, pixels, ok) =
      IsBetween s t × IsUntouched s t × (t.virtual_x ≡ width) × (t.virtual_y ≡ height)

  -- On the way: a screen that is good has the new sizes, shadows and header.
  abbrev OnTheWay : Screen × Bool → Type 0
  OnTheWay (t, true) =
      IsBetween s t × (t.virtual_x ≡ width) × (t.virtual_y ≡ height) × IsReplaced s r width height t
  OnTheWay (t, false) = IsBetween s t × Leaves s r width height t

  pitch_Yields :
      (t : Screen)
      → IsReady r.create.glamor t.front_bo
      → IsBetween s t
      → Yields (λ (p : ℕ). Unit {0}) (bo_get_pitch t.store r.gbm_stride t.front_bo)
  unfolding bo_get_pitch
  pitch_Yields t ready b = elim (Bool-cases r.create.glamor) [
    | inl e ↦ let (empty, (g, h)) = subst (λ k. IsReady k t.front_bo) e ready in rw h tt
    | inr e ↦
        let (empty, (p, h)) = subst (λ k. IsReady k t.front_bo) e ready in
        let (o, d) = subst (HasDumb s.store t.store) h b.store.0 in
        rw (empty, h, bo_get_pitch) (rw d.here tt)
  ]

  map_front-Mapped :
      (t : Screen)
      → r.has_gbm ≡ r.create.glamor
      → IsReady r.create.glamor t.front_bo
      → Mapped (t, none, true)
      → Yields Mapped (map_front t r)
  unfolding map_front bo_map
  map_front-Mapped t device ready (b, same, wide, high) = elim (Bool-cases r.create.glamor) [
    | inl e ↦ let on : r.has_gbm ≡ true = device ∙ e in rw (on, map_front) (b, same, wide, high)
    | inr e ↦
        let off : r.has_gbm ≡ false = device ∙ e in
        let dumb = subst (λ k. IsReady k t.front_bo) e ready in
        rw (off, map_front)
          (Yields->>= (λ (m : Store × Option ℕ). HasBo s.store m.0 t.front_bo) Mapped
            (bo_map t.store t.front_bo r.mapped)
            (λ m. some (record t { store = m.0 }, m.1, is_some m.1))
            (bo_map-HasBo s.store t.store t.front_bo r.mapped dumb b.store)
            (λ m h. (
              record { removed = b.removed; store = h },
              record {
                shadow_fb = same.shadow_fb;
                shadow_fb2 = same.shadow_fb2;
                headers = same.headers;
              },
              wide,
              high,
            )))
  ]

  -- The new shadows and the new header, and what glamor says.
  replaced-OnTheWay :
      (t : Screen) (handled : Bool)
      → r.handled ≡ handled
      → IsBetween s t
      → (t.virtual_x ≡ width)
      → (t.virtual_y ≡ height)
      → IsReplaced s r width height t
      → OnTheWay (t, handled)
  replaced-OnTheWay t true e b wide high new = (b, wide, high, new)
  replaced-OnTheWay t false e b wide high new = (b, inr (e, new))

  take_shadows-OnTheWay :
      (made : Screen × Option ℕ × Bool) → Mapped made → OnTheWay (take_shadows r made)
  unfolding take_shadows
  take_shadows-OnTheWay (t, pixels, false) (b, same, wide, high) = (b, inl same)
  take_shadows-OnTheWay (t, pixels, true) (b, same, wide, high) =
      let new_header : Header = record {
        width = t.virtual_x;
        height = t.virtual_y;
        stride = t.display_width * r.cpp;
        pixels = if r.shadow_enable then r.shadow else pixels;
      } in
      if_either OnTheWay (r.shadow_enable && not (is_some r.shadow)) (t, false) _
        (λ e. (b, inl same))
        (λ e.
          replaced-OnTheWay _ r.handled refl (record { removed = b.removed; store = b.store }) wide
            high
            (record {
              shadow_fb = ap (λ o. if r.shadow_enable then r.shadow else o) same.shadow_fb;
              shadow_fb2 = ap (λ o. if r.shadow_enable2 then r.shadow2 else o) same.shadow_fb2;
              header = new_header;
              headers = ap (λ hs. new_header ∷ hs) same.headers;
              wide = wide;
              high = high;
            }))

  use_front-OnTheWay :
      (t : Screen)
      → r.has_gbm ≡ r.create.glamor
      → IsReady r.create.glamor t.front_bo
      → IsBetween s t
      → IsUntouched s t
      → Yields OnTheWay (use_front t r width height)
  unfolding use_front
  use_front-OnTheWay t device ready b same =
      Yields->>= (λ (p : ℕ). Unit {0}) OnTheWay (bo_get_pitch t.store r.gbm_stride t.front_bo) _
        (pitch_Yields t ready b)
        (λ p u.
          let new = record t {
            virtual_x = width;
            virtual_y = height;
            display_width = p / r.kcpp;
          } in
          Yields->>= Mapped OnTheWay (map_front new r) (λ made. some (take_shadows r made))
            (map_front-Mapped new device ready (
              record { removed = b.removed; store = b.store },
              record {
                shadow_fb = same.shadow_fb;
                shadow_fb2 = same.shadow_fb2;
                headers = same.headers;
              },
              refl,
              refl,
            ))
            take_shadows-OnTheWay)

  replace_front-OnTheWay :
      (made : Store × Bo × Bool)
      → r.has_gbm ≡ r.create.glamor
      → HasMade s.store made
      → (made.2 ≡ true → IsReady r.create.glamor made.1)
      → Yields OnTheWay (replace_front s r width height made)
  unfolding replace_front
  replace_front-OnTheWay (t, bo, true) device h ready =
      use_front-OnTheWay (record s { store = t; front_bo = bo; fb_id = 0 }) device (ready refl)
        (record { removed = refl; store = h })
        (record { shadow_fb = refl; shadow_fb2 = refl; headers = refl })
  replace_front-OnTheWay (t, bo, false) device h ready = (
    record { removed = refl; store = h },
    inl (record { shadow_fb = refl; shadow_fb2 = refl; headers = refl }),
  )

  finished-IsReplaced :
      (t u : Screen)
      → u.shadow_fb ≡ t.shadow_fb
      → u.shadow_fb2 ≡ t.shadow_fb2
      → u.headers ≡ t.headers
      → IsReplaced s r width height t
      → IsReplaced s r width height u
  finished-IsReplaced t u e e2 eh new = record {
    shadow_fb = e ∙ new.shadow_fb;
    shadow_fb2 = e2 ∙ new.shadow_fb2;
    header = new.header;
    headers = eh ∙ new.headers;
    wide = new.wide;
    high = new.high;
  }

  -- The old front buffer object is still there.
  finish-IsResized :
      (t : Screen)
      → CanResize s r
      → OnTheWay (t, true)
      → Yields (IsResized s r width height) (finish s r t)
  unfolding finish bo_destroy
  finish-IsResized t can (b, wide, high, new) = elim (Bool-cases (s.fb_id == 0)) [
    | inl e ↦ rw (e, finish) (wide, high, inr (finished-IsReplaced t _ refl refl refl new))
    | inr e ↦
        rw (e, finish)
          (Yields->>= (λ (q : Store × Bo). Unit {0}) (IsResized s r width height)
            (bo_destroy t.store s.front_bo r.old_destroyed) _
            (bo_destroy-old s.store t.store r.gbm_stride r.create.glamor s.front_bo t.front_bo
              can.pitch r.old_destroyed can.ready can.old_pitch b.store)
            (λ q u. (wide, high, inr (finished-IsReplaced t _ refl refl refl new))))
  ]

  fail-IsResized :
      (t : Screen) (p : ℕ)
      → s.display_width ≡ p / r.kcpp
      → r.new_destroyed ≡ true
      → OnTheWay (t, false)
      → Yields (IsResized s r width height) (fail s r p t)
  unfolding fail
  fail-IsResized t p w good (b, left) =
      let (u, e, same) = bo_destroy-IsSame s.store t.store t.front_bo b.store in
      let v = record t {
        store = u;
        front_bo = s.front_bo;
        virtual_x = s.virtual_x;
        virtual_y = s.virtual_y;
        display_width = p / r.kcpp;
        fb_id = s.fb_id;
      } in
      let destroyed : Store × Bo = (u, record (t.front_bo) { dumb = none; gbm = none }) in
      Yields-at (IsResized s r width height) destroyed _
        (subst (λ d. bo_destroy t.store t.front_bo d ≡ some destroyed) (sym good) e)
        (
          record {
            front_bo = refl;
            fb_id = refl;
            virtual_x = refl;
            virtual_y = refl;
            display_width = sym w;
            removed = b.removed;
            store = same;
          },
          elim left [
            | inl old ↦ inl (record {
              shadow_fb = old.shadow_fb;
              shadow_fb2 = old.shadow_fb2;
              headers = old.headers;
            })
            | inr (refused, new) ↦ inr (refused, finished-IsReplaced t v refl refl refl new)
          ],
        )

  end_resize-IsResized :
      (made : Screen × Bool) (can : CanResize s r)
      → OnTheWay made
      → Yields (IsResized s r width height) (end_resize s r can.pitch made)
  unfolding end_resize
  end_resize-IsResized (t, true) can h = finish-IsResized t can h
  end_resize-IsResized (t, false) can h = fail-IsResized t can.pitch can.width can.destroyed h

  -- The other pointer of the front buffer object is null.
  fits : (glamor : Bool) (bo : Bo) → IsReady glamor bo → FitsGlamor glamor bo
  fits true bo (empty, k) = empty
  fits false bo (empty, k) = empty

  -- drmmode_xf86crtc_resize always returns and uses no missing object. After FALSE the front buffer
  -- object, its frame buffer, the sizes, the dumb objects, their handles and the buffers of gbm are as
  -- they were; so are the shadows and the header of the screen pixmap, unless glamor refused the new
  -- pixmap: then they stay the new ones. After TRUE the screen has the new size, and unless it had it
  -- before, the new shadows and the new header. The front buffer is of the kind that glamor asks for,
  -- its pitch gives the old display width, the new objects are new, a gbm device is there exactly if
  -- glamor is on, and the new buffer object can be destroyed.
  pub xf86crtc_resize-IsResized :
      CanResize s r → Yields (IsResized s r width height) (xf86crtc_resize s r width height)
  unfolding xf86crtc_resize resize_to
  xf86crtc_resize-IsResized can =
      elim (Bool-cases (s.virtual_x == width && s.virtual_y == height)) [
        | inl e ↦ rw (e, xf86crtc_resize) (ground arith, ground arith, inl refl)
        | inr e ↦
            let made = create_bo s.store s.front_bo width height r.create in
            let other = fits r.create.glamor s.front_bo can.ready in
            rw (e, can.old_pitch, xf86crtc_resize)
              (Yields->>= OnTheWay (IsResized s r width height)
                (replace_front s r width height made) (end_resize s r can.pitch)
                (replace_front-OnTheWay made can.device
                  (create_bo-HasBo s.store s.front_bo width height r.create can.fresh other)
                  (create_bo-MakesReady s.store s.front_bo width height r.create other))
                (λ m h. end_resize-IsResized m can h))
      ]
