-- ===== src/Exa/Failures.antt =====
-- An object that ms_exa_set_pixmap_bo has destroyed when it fails.
use xserver_xorg_video_loong.Base.{
  ℕ, ◌≡◌, ◌≢◌, refl, ◌∙◌, ap, Bool, true, false, Option, none, some, Yields, Yields-at,
}
use xserver_xorg_video_loong.Buffers.{DumbBo, set_heap, set_live, dumb_bo_destroy, destroy_object}
use xserver_xorg_video_loong.Exa.{
  is_dumb_pixmap, World, Priv, Pixmap, set_priv_bo, set_pixmap_bo, close_fd, drop_bo,
  destroy_pixmap, destroy_dumb_pixmap,
}
use xserver_xorg_video_loong.Exa.Lifetimes.{set_heap_self}
use xserver_xorg_video_loong.Exa.Objects.{close_fd_parts, set_heap_ne}

-- A world in which the object of the record at `p` is gone.
abbrev pub LosesObject : (p : ℕ) → World × Pixmap × Bool → Type 0
LosesObject p (t, pix, ok) =
    (ok ≡ false) × ((destroyed : Bool) → destroy_pixmap t p destroyed ≡ none)

-- The destruction of a pixmap whose object is gone.
destroy_gone :
    (t : World) (p old : ℕ) (v : Priv) (destroyed : Bool)
    → t.privs p ≡ some (record v { owned = true; bo = some old })
    → is_dumb_pixmap v.usage_hint ≡ true
    → t.store.heap old ≡ none
    → destroy_pixmap t p destroyed ≡ none
unfolding destroy_pixmap destroy_dumb_pixmap drop_bo dumb_bo_destroy
destroy_gone t p old v destroyed here dumb gone =
    let gone' : (close_fd t v.fd).store.heap old ≡ none =
      ap (λ s. s.heap old) (close_fd_parts t v.fd).1 ∙ gone in
    rw (here, dumb, gone') refl

drop_bo-live :
    (t : World) (old : ℕ) (o : DumbBo)
    → t.store.heap old ≡ some o
    → drop_bo t true (some old) true
      ≡ some (record t {
        store = record (t.store) {
          heap = set_heap t.store.heap old none;
          handles = set_live t.store.handles o.handle false;
        };
      })
unfolding drop_bo dumb_bo_destroy destroy_object
drop_bo-live t old o e = rw e refl

module _ (w : World) (p old b : ℕ) (v : Priv) (o o' : DumbBo) (ptr : Option ℕ) (dev_kind : ℕ)
    (here : w.privs p ≡ some (record v { owned = true; bo = some old }))
    (dumb : is_dumb_pixmap v.usage_hint ≡ true) (live : w.store.heap old ≡ some o)
    (new : w.store.heap b ≡ some o') (apart : b ≢ old) where
  -- The record owns a dumb object, and the kernel does not name the new one. Then
  -- ms_exa_set_pixmap_bo returns FALSE after it has destroyed the old object, which the record still
  -- owns: the destruction of the pixmap uses the freed object.
  pub set_pixmap_bo_dangles :
      (owned : Bool)
      → let pix : Pixmap = record { priv = some p; ptr = ptr; dev_kind = dev_kind } in
        Yields (LosesObject p) (set_pixmap_bo w true pix b owned none true)
  unfolding set_pixmap_bo set_priv_bo
  set_pixmap_bo_dangles owned =
      let t = close_fd w v.fd in
      let (privs, store) = close_fd_parts w v.fd in
      let heap : (q : ℕ) → t.store.heap q ≡ w.store.heap q = λ q. ap (λ s. s.heap q) store in
      Yields-at (LosesObject p) _ _ here (
        Yields-at (LosesObject p) _ _ (drop_bo-live t old o (heap old ∙ live)) (
          Yields-at (LosesObject p) _ _ (set_heap_ne t.store.heap old b none apart ∙ heap b ∙ new) (
            refl,
            λ destroyed.
                destroy_gone _ p old v destroyed (ap (λ h. h p) privs ∙ here) dumb
                  (set_heap_self t.store.heap old none),
          )))
