-- ===== src/Exa/Histories.antt =====
-- Histories of pixmaps: no freed dumb object is used.
use xserver_xorg_video_loong.Base.{
  ℕ, ◌≡◌, Bool, true, Option, none, some, List, [], ◌∷◌, Yields, Yields->>=, Yields-at, Ensures,
  Option-cases, inl, inr, ◌>>=◌,
}
use mathlib.Core.Path.{subst}
use xserver_xorg_video_loong.Exa.{
  Usage, World, Creating, Priv, Pixmap, create_pixmap2, destroy_pixmap, exchange_buffers,
  back_pixmap_from_fd,
}
use xserver_xorg_video_loong.Exa.Lifetimes.{IsFresh}
use xserver_xorg_video_loong.Exa.Objects.{Owned, destroy-Owned}
use xserver_xorg_video_loong.Exa.Steps.{create-Owned, exchange-Owned, back-Owned}

-- What is done to pixmaps: the answers of a creation, of a destruction, and of an import.
pub data PixmapOp : Type 0 where
  creates : Usage → (width height depth bpp : ℕ) → Creating → PixmapOp
  destroys : (p : ℕ) (destroyed : Bool) → PixmapOp
  exchanges : (front back : ℕ) → PixmapOp
  imports :
      (ptr : Option ℕ) (dev_kind p stride height : ℕ) (calloc imported prime : Option ℕ)
      (old_destroyed new_destroyed : Bool)
      → PixmapOp

unfoldable pub step : World → PixmapOp → Option World
step w (creates usage width height depth bpp c) =
    create_pixmap2 w width height depth usage bpp c >>= λ (w, p). some w
step w (destroys p destroyed) = destroy_pixmap w p destroyed
step w (exchanges front back) = exchange_buffers w front back
step w (imports ptr dev_kind p stride height calloc imported prime old_destroyed new_destroyed) =
    back_pixmap_from_fd w true (record { priv = some p; ptr = ptr; dev_kind = dev_kind }) stride
      height calloc imported prime old_destroyed new_destroyed
    >>= λ (w, pix, ok). some w

-- There is a record at an address.
abbrev pub HasPriv : World → (p : ℕ) → Type 0
HasPriv w p = (v : Priv) × (w.privs p ≡ some v)

-- The pixmaps of an operation are there, the addresses that calloc gives are not in use, malloc gives
-- memory, and the kernel names the new object of an import.
abbrev pub IsAllowed : World → PixmapOp → Type 0
IsAllowed w (creates usage width height depth bpp c) = IsFresh w c × (m : ℕ) × (c.malloc ≡ some m)
IsAllowed w (destroys p destroyed) = HasPriv w p
IsAllowed w (exchanges front back) = HasPriv w front × HasPriv w back
IsAllowed w (imports ptr dev_kind p stride height calloc imported prime o n) =
    HasPriv w p × ((b : ℕ) → calloc ≡ some b → w.store.heap b ≡ none) × (fd : ℕ) × (prime ≡ some fd)

unfoldable pub run : World → List PixmapOp → Option World
unfolding step
run w [] = some w
run w (op ∷ ops) = step w op >>= λ w. run w ops

-- Every operation of a history is allowed where it stands.
abbrev pub AllAllowed : World → List PixmapOp → Type 0
unfolding step
AllAllowed w [] = Unit
AllAllowed w (op ∷ ops) = IsAllowed w op × Ensures (λ w'. AllAllowed w' ops) (step w op)

step-Owned : (w : World) (op : PixmapOp) → Owned w → IsAllowed w op → Yields Owned (step w op)
unfolding step
step-Owned w (creates usage width height depth bpp c) owned (f, m, got) =
    Yields->>= (λ (r : World × Option ℕ). Owned r.0) Owned _ _
      (create-Owned w owned usage width height depth bpp m c f got) (λ (t, p) h. h)
step-Owned w (destroys p destroyed) owned (v, at) = destroy-Owned w p v destroyed owned at
step-Owned w (exchanges front back) owned ((f, ef), (b, eb)) =
    exchange-Owned w owned front back f b ef eb
step-Owned w (imports ptr dev_kind p stride height calloc imported prime o n) owned
      ((v, at), free, fd, e) =
    rw e (
      Yields->>= (λ (r : World × Pixmap × Bool). Owned r.0) Owned _ _
        (back-Owned w owned ptr dev_kind p fd v stride height calloc imported o n at free)
        (λ (t, pix, ok) h. h))

-- From a world in which every object has one owner at most, consider a history of creations,
-- destructions, exchanges of buffers and imports in which malloc gives memory for the pixels, the
-- addresses of calloc are not in use, the pixmaps of an operation are there, and the kernel gives a
-- descriptor of every imported object. It runs to its end: no record or object is used after it was
-- freed, and every object has one owner at most. Two objects may still have the handle of one file.
pub run-Owned :
    (w : World) (ops : List PixmapOp) → Owned w → AllAllowed w ops → Yields Owned (run w ops)
unfolding run
run-Owned w [] owned h = owned
run-Owned w (op ∷ ops) owned (allowed, h) =
    let stepped = step-Owned w op owned allowed in
    elim (Option-cases (step w op)) [
      | inl e ↦ absurd (subst (Yields Owned) e stepped)
      | inr (t, e) ↦ Yields-at Owned t _ e (
          run-Owned t ops (subst (Yields Owned) e stepped)
            (subst (Ensures (λ w'. AllAllowed w' ops)) e h))
    ]
