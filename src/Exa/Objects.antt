-- ===== src/Exa/Objects.antt =====
-- What setting a record and dropping its object keep.
use xserver_xorg_video_loong.Base.{
  ℕ, ◌≡◌, ◌≢◌, refl, sym, ◌∙◌, ap, Bool, true, false, Option, none, some, ltb, arith, Yields,
  Yields->>=, Yields-at, Yields-map, Option-cases, inl, inr, if_either, ◌>>=◌, is_some,
}
use mathlib.Core.Path.{subst}
use xserver_xorg_video_loong.Buffers.{Store, DumbBo, set_heap, dumb_bo_destroy, destroy_object}
use xserver_xorg_video_loong.Exa.{
  is_dumb_pixmap, World, Priv, set_priv, destroy_pixmap, destroy_exa_pixmap, destroy_dumb_pixmap,
  free_buf, close_fd, drop_bo,
}
use xserver_xorg_video_loong.Exa.Lifetimes.{set_priv_self}
use xserver_xorg_video_loong.Exa.Owners.{
  own, own_bo, IsOwned, ChangesOne, drop-IsOwned, take-IsOwned,
}

abbrev pub Owned : World → Type 0
Owned w = IsOwned w.privs w.store.heap

pub set_priv_ne : (h : ℕ → Option Priv) (p q : ℕ) (v : Option Priv) → q ≢ p → set_priv h p v q ≡ h q
unfolding set_priv
set_priv_ne h p q v d = ground (arith, d)

pub set_heap_ne :
    (h : ℕ → Option DumbBo) (p q : ℕ) (o : Option DumbBo) → q ≢ p → set_heap h p o q ≡ h q
unfolding set_heap
set_heap_ne h p q o d = ground (arith, d)

pub set_heap-some :
    (h : ℕ → Option DumbBo) (p q : ℕ) (o : DumbBo)
    → is_some (h q) ≡ true
    → is_some (set_heap h p (some o) q) ≡ true
unfolding set_heap
set_heap-some h p q o e = ground (arith, e)

-- A heap keeps the objects but one that the record owns.
abbrev pub Spares : (o : Option ℕ) (heap heap' : ℕ → Option DumbBo) → Type 0
Spares o heap heap' = (b : ℕ) → o ≢ some b → is_some (heap b) ≡ true → is_some (heap' b) ≡ true

module _ (w : World) (owned : Owned w) (p : ℕ) (v : Option Priv) (heap' : ℕ → Option DumbBo)
    (spares : Spares (own (w.privs p)) w.store.heap heap') where
  set-ChangesOne : ChangesOne w.privs w.store.heap owned (set_priv w.privs p v) heap' p
  set-ChangesOne = record { others = λ q d. set_priv_ne w.privs p q v d; kept = spares }

  pub set-drop : own v ≡ none → IsOwned (set_priv w.privs p v) heap'
  set-drop n =
      drop-IsOwned w.privs w.store.heap owned (set_priv w.privs p v) heap' p set-ChangesOne
        (ap own (set_priv_self w.privs p v) ∙ n)

  pub set-take :
      (b : ℕ)
      → own v ≡ some b
      → w.store.heap b ≡ none
      → is_some (heap' b) ≡ true
      → IsOwned (set_priv w.privs p v) heap'
  set-take b n =
      take-IsOwned w.privs w.store.heap owned (set_priv w.privs p v) heap' p b set-ChangesOne
        (ap own (set_priv_self w.privs p v) ∙ n)

-- What the end of an object of a record does.
abbrev pub Drops : World → (o : Option ℕ) → World → Type 0
Drops w o t = (t.privs ≡ w.privs) × Spares o w.store.heap t.store.heap

destroy_object-Spares :
    (s : Store) (p : ℕ) (o : DumbBo) (destroyed : Bool)
    → Spares (some p) s.heap (destroy_object s p o destroyed).0.heap
unfolding destroy_object
destroy_object-Spares s p o true b d h =
    ap is_some (set_heap_ne s.heap p b none (λ e. d (ap some (sym e)))) ∙ h
destroy_object-Spares s p o false b d h = set_heap-some s.heap p b (record o { ptr = none }) h

drop_bo-Drops :
    (w : World) (owned : Bool) (bo : Option ℕ) (destroyed : Bool)
    → ((b : ℕ) → own_bo owned bo ≡ some b → is_some (w.store.heap b) ≡ true)
    → Yields (Drops w (own_bo owned bo)) (drop_bo w owned bo destroyed)
unfolding drop_bo dumb_bo_destroy
drop_bo-Drops w false bo destroyed there = (refl, λ b d h. h)
drop_bo-Drops w true none destroyed there = (refl, λ b d h. h)
drop_bo-Drops w true (some b) destroyed there = elim (Option-cases (w.store.heap b)) [
  | inl gone ↦
      let h = there b refl in
      let g : is_some (w.store.heap b) ≡ false = ap is_some gone in absurd (cc (h, g))
  | inr (o, here) ↦
      subst
        (λ t. Yields (Drops w (some b)) (
          t
          >>= (λ bo. some (destroy_object w.store b bo destroyed))
          >>= (λ (store, ok). some (record w { store = store }))))
        (sym here) (refl, destroy_object-Spares w.store b o destroyed)
]

pub close_fd_parts :
    (w : World) (fd : ℕ) → ((close_fd w fd).privs ≡ w.privs) × ((close_fd w fd).store ≡ w.store)
unfolding close_fd
close_fd_parts w fd =
    if_either (λ (t : World). (t.privs ≡ w.privs) × (t.store ≡ w.store)) (ltb 0 fd) _ _
      (λ e. (refl, refl)) (λ e. (refl, refl))

-- The end of what the record at `p` owns, as it stands in both callers.
pub close-Drops :
    (w : World) (p : ℕ) (v : Priv) (destroyed : Bool)
    → ((b : ℕ) → own (some v) ≡ some b → is_some (w.store.heap b) ≡ true)
    → Yields (Drops w (own (some v))) (drop_bo (close_fd w v.fd) v.owned v.bo destroyed)
close-Drops w p v destroyed there =
    let (privs, store) = close_fd_parts w v.fd in
    Yields-map
      (λ t (same, spares).
        (same ∙ privs, subst (λ s. Spares (own (some v)) s.heap t.store.heap) store spares))
      (drop_bo (close_fd w v.fd) v.owned v.bo destroyed)
      (drop_bo-Drops (close_fd w v.fd) v.owned v.bo destroyed
        (λ b e. ap (λ s. is_some (s.heap b)) store ∙ there b e))

free_buf_store : (w : World) (v : Priv) → (free_buf w v.buf).store ≡ w.store
unfolding free_buf
free_buf_store w v = elim (Option-cases v.buf.dat) [ inl e ↦ rw e refl | inr (m, e) ↦ rw e refl ]

pub destroy-Owned :
    (w : World) (p : ℕ) (v : Priv) (destroyed : Bool)
    → Owned w
    → w.privs p ≡ some v
    → Yields Owned (destroy_pixmap w p destroyed)
unfolding destroy_pixmap destroy_dumb_pixmap destroy_exa_pixmap
destroy-Owned w p v destroyed owned e = Yields-at Owned v _ e (
    if_either (Yields Owned) (is_dumb_pixmap v.usage_hint) _ _
      (λ dumb.
        Yields->>= (Drops w (own (some v))) Owned _ _
          (close-Drops w p v destroyed (λ b h. owned.object p b (ap own e ∙ h)))
          (λ t (privs, spares).
            subst (λ h. IsOwned (set_priv h p none) t.store.heap) (sym privs)
              (set-drop w owned p none t.store.heap
                (subst (λ o. Spares (own o) w.store.heap t.store.heap) (sym e) spares) refl)))
      (λ exa.
        subst (λ (s : Store). IsOwned (set_priv w.privs p none) s.heap) (sym (free_buf_store w v))
          (set-drop w owned p none w.store.heap (λ b d h. h) refl)))
