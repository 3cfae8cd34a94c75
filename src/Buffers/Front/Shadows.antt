-- ===== src/Buffers/Front/Shadows.antt =====
-- The shadow of a rotated CRTC, and the probe of the default depth.
use xserver_xorg_video_loong.Base.{
  ℕ, ◌≡◌, refl, Bool, true, false, Option, none, some, List, [], ◌∷◌, Yields,
}
use mathlib.Core.Path.{subst}
use xserver_xorg_video_loong.Buffers.{Store, Bo, CreateBo, create_bo}
use xserver_xorg_video_loong.Buffers.Balance.{IsSame, HasDumb, HasGbm, HasBo, bo_destroy-IsSame}
use xserver_xorg_video_loong.Buffers.Creation.{
  IsFresh, FitsGlamor, HasMade, create_bo-HasBo, create_bo-MakesNothing,
}
use xserver_xorg_video_loong.Buffers.Front.{
  Rotated, import_shadow, made_shadow, shadow_allocate, no_bo, shadow_destroy,
}

nothing_IsSame :
    (s t : Store) (bo : Bo) → bo.dumb ≡ none → bo.gbm ≡ none → HasBo s t bo → IsSame s t
nothing_IsSame s t bo no_dumb no_gbm (d, g) =
    let (heap, handles) = subst (HasDumb s t) no_dumb d in
    record { heap = heap; handles = handles; gbms = subst (HasGbm s t) no_gbm g }

-- The store is as it was, the shadow is gone, and its frame buffer was removed.
abbrev pub IsGone : Rotated → (fb_id : ℕ) → Rotated × List ℕ → Type 0
IsGone c fb_id (d, removed) =
    IsSame c.store d.store × (d.rotate_bo ≡ no_bo) × (d.rotate_fb_id ≡ 0) × (removed ≡ fb_id ∷ [])

-- After a failure the store is as it was; after a success it is so once the shadow is destroyed.
abbrev pub IsShadowed : Rotated → Rotated × Bool → Type 0
IsShadowed c (d, false) = IsSame c.store d.store
IsShadowed c (d, true) = Yields (IsGone c d.rotate_fb_id) (shadow_destroy d true true)

import_shadow-IsShadowed :
    (c d : Rotated) (fb : Option ℕ)
    → HasBo c.store d.store d.rotate_bo
    → Yields (IsShadowed c) (import_shadow d fb true)
unfolding import_shadow shadow_destroy
import_shadow-IsShadowed c d (some id) h =
    let (u, e, same) = bo_destroy-IsSame c.store d.store d.rotate_bo h in
    rw e (same, refl, refl, refl)
import_shadow-IsShadowed c d none h =
    let (u, e, same) = bo_destroy-IsSame c.store d.store d.rotate_bo h in rw e same

made_shadow-IsShadowed :
    (c : Rotated) (made : Store × Bo × Bool) (fb : Option ℕ)
    → HasMade c.store made
    → (made.2 ≡ false → (made.1.dumb ≡ none) × (made.1.gbm ≡ none))
    → Yields (IsShadowed c) (made_shadow c made fb true)
unfolding made_shadow
made_shadow-IsShadowed c (s, bo, true) fb h n =
    import_shadow-IsShadowed c (record c { store = s; rotate_bo = bo }) fb h
made_shadow-IsShadowed c (s, bo, false) fb h n =
    let (no_dumb, no_gbm) = n refl in nothing_IsSame c.store s bo no_dumb no_gbm h

-- drmmode_shadow_allocate uses no missing object; where it fails, the dumb objects, their handles and
-- the buffers of gbm are as before, and where it succeeds, drmmode_shadow_destroy brings them back and
-- removes the frame buffer. The shadow before is of the kind that glamor asks for, new objects are
-- new, and buffer objects can be destroyed.
pub shadow_allocate-IsShadowed :
    (c : Rotated) (width height : ℕ) (w : CreateBo) (fb : Option ℕ)
    → IsFresh c.store w
    → FitsGlamor w.glamor c.rotate_bo
    → Yields (IsShadowed c) (shadow_allocate c width height w fb true)
unfolding shadow_allocate
shadow_allocate-IsShadowed c width height w fb fresh fits =
    made_shadow-IsShadowed c (create_bo c.store c.rotate_bo width height w) fb
      (create_bo-HasBo c.store c.rotate_bo width height w fresh fits)
      (create_bo-MakesNothing c.store c.rotate_bo width height w fits)
