-- ===== src/Buffers/Front/Cursors.antt =====
-- A cursor object that could not be made.
use xserver_xorg_video_loong.Base.{
  ℕ, ◌≡◌, refl, Bool, true, Option, none, some, List, ◌∷◌, map, inl, inr, Option-cases, Yields,
}
use xserver_xorg_video_loong.Buffers.{
  Store, CreateDumb, dumb_bo_create, Bo, CreateBo, bo_get_pitch, bo_destroy, create_bo,
}
use xserver_xorg_video_loong.Buffers.Front.{
  create_cursors, Initial, with_front, create_initial_bos, map_cursor_bos, destroy_cursors,
  free_bos,
}

-- One answer for all cursors.
abbrev pub answered {ℓ} : {A : Type ℓ} → A → List (Option ℕ) → List (Option ℕ × A)
answered a ps = map (λ p. (p, a)) ps

-- The objects of the screen are said to be there, but both functions that use them next go through a
-- null pointer.
abbrev pub IsBroken : Initial → Type 0
IsBroken i =
    (i.ok ≡ true)
    × ((mapped : Option ℕ) → map_cursor_bos i.store (answered mapped i.cursors) ≡ none)
    × ((fb_id : ℕ) (destroyed gone : Bool)
        → free_bos i.store i.front_bo fb_id destroyed (answered gone i.cursors) ≡ none)

free_bos_null :
    (s : Store) (bo : Bo) (fb_id : ℕ) (destroyed gone : Bool) (more : List (Option ℕ × Bool))
    → free_bos s bo fb_id destroyed ((none, gone) ∷ more) ≡ none
unfolding free_bos destroy_cursors
free_bos_null s bo fb_id destroyed gone more = elim (Option-cases (bo_destroy s bo destroyed)) [
  | inl e ↦ rw e refl
  | inr (r, e) ↦ rw e refl
]

-- If the front buffer can be made and its pitch read, but there is no memory for the cursor object of
-- the first CRTC, drmmode_create_initial_bos returns TRUE, and then both drmmode_map_cursor_bos and
-- drmmode_free_bos use a null pointer.
pub create_initial_bos-IsBroken :
    (s t : Store) (bo made : Bo) (width height bpp pitch : ℕ) (w : CreateBo) (gbm_stride : ℕ → ℕ)
    (c : CreateDumb) (cs : List CreateDumb)
    → create_bo s bo width height w ≡ (t, made, true)
    → bo_get_pitch t gbm_stride made ≡ some pitch
    → c.calloc ≡ none
    → Yields IsBroken (create_initial_bos s bo width height bpp w gbm_stride (c ∷ cs))
unfolding create_initial_bos with_front create_cursors dumb_bo_create map_cursor_bos
create_initial_bos-IsBroken s t bo made width height bpp pitch w gbm_stride c cs e k n =
    rw (e, k, create_initial_bos)
      (rw n (
        refl,
        λ mapped. refl,
        λ fb_id destroyed gone.
            free_bos_null (create_cursors t cs).0 made fb_id destroyed gone
              (answered gone (create_cursors t cs).1),
      ))
