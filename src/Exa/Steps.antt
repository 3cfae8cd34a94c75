-- ===== src/Exa/Steps.antt =====
-- The operations on pixmaps keep the owners of the objects.
use xserver_xorg_video_loong.Base.{
  ℕ, ◌≡◌, ◌≢◌, refl, sym, ◌∙◌, ap, Bool, true, false, Option, none, some, ◌==◌, ltb, ◌&&◌,
  if◌then◌else◌, arith, Yields, Yields->>=, Yields-at, Bool-cases, Option-cases, inl, inr,
  if_either, is_some,
}
use mathlib.Core.Path.{subst}
use xserver_xorg_video_loong.Buffers.{
  DumbBo, CreateDumb, set_heap, dumb_bo_create, dumb_get_bo_from_fd,
}
use xserver_xorg_video_loong.Exa.{
  Usage, is_dumb_pixmap, World, Creating, Priv, Pixmap, set_priv, exa_at, create_exa_pixmap,
  dumb_at, name_dumb, create_dumb_pixmap, create_pixmap2, exchange_buffers, set_priv_bo,
  set_pixmap_bo, end_back, back_pixmap_from_fd,
}
use xserver_xorg_video_loong.Exa.Lifetimes.{IsFresh, set_heap_self}
use xserver_xorg_video_loong.Exa.Owners.{own, IsOwned}
use xserver_xorg_video_loong.Exa.Objects.{
  Owned, Drops, set-drop, set-take, set_heap-some, close-Drops,
}

set_heap_here :
    (h : ℕ → Option DumbBo) (b : ℕ) (o : DumbBo) → is_some (set_heap h b (some o) b) ≡ true
set_heap_here h b o = ap is_some (set_heap_self h b (some o))

module _ (w : World) (owned : Owned w) (usage : Usage) (width height p : ℕ) where
  abbrev After : World × Option ℕ → Type 0
  After r = Owned (r.0)

  exa_at-Owned :
      (depth bpp m : ℕ) (c : Creating)
      → c.malloc ≡ some m
      → Yields After (exa_at w width height depth usage bpp c p)
  unfolding exa_at
  exa_at-Owned depth bpp m c got =
      if_either (Yields After) (ltb 0 width && ltb 0 height && ltb 0 depth && ltb 0 bpp) _ _
        (λ filled. rw got (set-drop w owned p _ w.store.heap (λ b d h. h) refl))
        (λ empty. set-drop w owned p _ w.store.heap (λ b d h. h) refl)

  name_dumb-Owned :
      (prime : Option ℕ) (b : ℕ) (o : DumbBo) (handles : ℕ → Bool)
      → w.store.heap b ≡ none
      → let store = record (w.store) {
        heap = set_heap w.store.heap b (some o);
        handles = handles;
      } in
        Yields After (name_dumb (record w { store = store }) usage prime p b)
  unfolding name_dumb
  name_dumb-Owned none b o handles free =
      set-take w owned p _ _ (λ c d h. set_heap-some w.store.heap b c o h) b refl free
        (set_heap_here w.store.heap b o)
  name_dumb-Owned (some fd) b o handles free = rw (set_heap_self w.store.heap b) (
      set-take w owned p _ (set_heap w.store.heap b (some o))
        (λ c d h. set_heap-some w.store.heap b c o h) b refl free (set_heap_here w.store.heap b o))

  filled-Owned :
      (c : Creating) (calloc : Option ℕ) (created : Option DumbBo)
      → ((b : ℕ) → calloc ≡ some b → w.store.heap b ≡ none)
      → (width == 0 && height == 0) ≡ false
      → let dumb : CreateDumb = record { calloc = calloc; created = created } in
        Yields After (dumb_at w width height usage (record c { dumb = dumb }) p)
  unfolding dumb_at dumb_bo_create
  filled-Owned c none created free sized = rw sized owned
  filled-Owned c (some b) none free sized = rw sized owned
  filled-Owned c (some b) (some o) free sized =
      rw sized (name_dumb-Owned c.prime b (record o { ptr = none }) _ (free b refl))

  dumb_at-Owned :
      (c : Creating)
      → ((b : ℕ) → c.dumb.calloc ≡ some b → w.store.heap b ≡ none)
      → Yields After (dumb_at w width height usage c p)
  unfolding dumb_at
  dumb_at-Owned c free = elim (Bool-cases (width == 0 && height == 0)) [
    | inl empty ↦ rw empty (set-drop w owned p _ w.store.heap (λ b d h. h) refl)
    | inr sized ↦ filled-Owned c c.dumb.calloc c.dumb.created free sized
  ]

pub create-Owned :
    (w : World) (owned : Owned w) (usage : Usage) (width height depth bpp m : ℕ) (c : Creating)
    → IsFresh w c
    → c.malloc ≡ some m
    → Yields (λ (r : World × Option ℕ). Owned r.0) (create_pixmap2 w width height depth usage bpp c)
unfolding create_pixmap2 create_exa_pixmap create_dumb_pixmap
create-Owned w owned usage width height depth bpp m c f got = elim (Option-cases c.calloc) [
  | inl out ↦
      if_either (Yields (λ (r : World × Option ℕ). Owned r.0)) (is_dumb_pixmap usage) _ _
        (λ e. rw out owned) (λ e. rw out owned)
  | inr (p, at) ↦
      if_either (Yields (λ (r : World × Option ℕ). Owned r.0)) (is_dumb_pixmap usage) _ _
        (λ e. rw at (dumb_at-Owned w owned usage width height p c f.object))
        (λ e. rw at (exa_at-Owned w owned usage width height p depth bpp m c got))
]

-- The addresses of two records change places.
abbrev swapped : (f b q : ℕ) → ℕ
swapped f b q = if q == b then f else if q == f then b else q

swapped_inj : (f b q r : ℕ) → swapped f b q ≡ swapped f b r → q ≡ r
swapped_inj f b q r e = ground arith

swapped_privs :
    (w : World) (front back : ℕ) (f b : Priv)
    → w.privs front ≡ some f
    → w.privs back ≡ some b
    → (q : ℕ)
    → set_priv (set_priv w.privs front (some b)) back (some f) q ≡ w.privs (swapped front back q)
unfolding set_priv
swapped_privs w front back f b ef eb q = elim (Bool-cases (q == back)) [
  | inl e ↦ rw e (sym ef)
  | inr e ↦ rw e (elim (Bool-cases (q == front)) [ inl e' ↦ rw e' (sym eb) | inr e' ↦ rw e' refl ])
]

pub exchange-Owned :
    (w : World) (owned : Owned w) (front back : ℕ) (f b : Priv)
    → w.privs front ≡ some f
    → w.privs back ≡ some b
    → Yields Owned (exchange_buffers w front back)
unfolding exchange_buffers
exchange-Owned w owned front back f b ef eb =
    let privs = set_priv (set_priv w.privs front (some b)) back (some f) in
    let at : (q : ℕ) → privs q ≡ w.privs (swapped front back q) =
      λ q. swapped_privs w front back f b ef eb q in
    Yields-at Owned f _ ef (
      Yields-at Owned b _ eb (record {
        object = λ q c e. owned.object (swapped front back q) c (ap own (sym (at q)) ∙ e);
        apart = λ q r c e g. swapped_inj front back q r (
            owned.apart (swapped front back q) (swapped front back r) c (ap own (sym (at q)) ∙ e)
              (ap own (sym (at r)) ∙ g));
      }))

-- A buffer from a descriptor, where the kernel gives a descriptor of the new object.
module _ (w : World) (owned : Owned w) (ptr : Option ℕ) (dev_kind p fd b : ℕ) (v : Priv)
    (o : DumbBo) (handles : ℕ → Bool) (at : w.privs p ≡ some v) (free : w.store.heap b ≡ none) where
  abbrev imported_world : World
  imported_world = record w {
    store = record (w.store) { heap = set_heap w.store.heap b (some o); handles = handles };
  }

  abbrev pix : Pixmap
  pix = record { priv = some p; ptr = ptr; dev_kind = dev_kind }

  abbrev Result : World × Pixmap × Bool → Type 0
  Result r = Owned (r.0) × (r.2 ≡ true)

  -- The record does not own the new object.
  not_new : own (some v) ≢ some b
  not_new e =
      let h = owned.object p b (ap own at ∙ e) in
      let g : is_some (w.store.heap b) ≡ false = ap is_some free in cc (h, g)

  set_priv_bo-Owned :
      (t : World)
      → Drops imported_world (own (some v)) t
      → Yields Result (set_priv_bo t pix p v b true (some fd))
  unfolding set_priv_bo
  set_priv_bo-Owned t (privs, spares) =
      let there : is_some (t.store.heap b) ≡ true =
        spares b not_new (set_heap_here w.store.heap b o) in
      elim (Option-cases (t.store.heap b)) [
        | inl gone ↦
            let g : is_some (t.store.heap b) ≡ false = ap is_some gone in absurd (cc (there, g))
        | inr (bo, here) ↦
            let made = record v { bo = some b; fd = fd; pitch = bo.pitch; owned = true } in
            Yields-at Result bo _ here (
              subst (λ h. IsOwned (set_priv h p (some made)) t.store.heap) (sym privs)
                  (set-take w owned p (some made) t.store.heap
                    (λ c d h.
                      spares c (λ e. d (ap own at ∙ e)) (set_heap-some w.store.heap b c o h))
                    b refl free there),
              refl,
            )
      ]

  set_pixmap_bo-Owned :
      (destroyed : Bool)
      → Yields Result (set_pixmap_bo imported_world true pix b true (some fd) destroyed)
  unfolding set_pixmap_bo
  set_pixmap_bo-Owned destroyed = Yields-at Result v _ at (
      Yields->>= (Drops imported_world (own (some v))) Result _ _
        (close-Drops imported_world p v destroyed
          (λ c h. set_heap-some w.store.heap b c o (owned.object p c (ap own at ∙ h))))
        set_priv_bo-Owned)

pub back-Owned :
    (w : World) (owned : Owned w) (ptr : Option ℕ) (dev_kind p fd : ℕ) (v : Priv)
    (stride height : ℕ) (calloc imported : Option ℕ) (old_destroyed new_destroyed : Bool)
    → w.privs p ≡ some v
    → ((b : ℕ) → calloc ≡ some b → w.store.heap b ≡ none)
    → let pix : Pixmap = record { priv = some p; ptr = ptr; dev_kind = dev_kind } in
      Yields
        (λ (r : World × Pixmap × Bool). Owned r.0)
        (back_pixmap_from_fd w true pix stride height calloc imported
          (some fd)
          old_destroyed
          new_destroyed)
unfolding back_pixmap_from_fd dumb_get_bo_from_fd end_back
back-Owned w owned ptr dev_kind p fd v stride height none imported o n at free = owned
back-Owned w owned ptr dev_kind p fd v stride height (some b) none o n at free = owned
back-Owned w owned ptr dev_kind p fd v stride height (some b) (some h) o n at free =
    Yields->>= (λ (r : World × Pixmap × Bool). Owned r.0 × (r.2 ≡ true))
      (λ (r : World × Pixmap × Bool). Owned r.0) _ _
      (set_pixmap_bo-Owned w owned ptr dev_kind p fd b v _ _ at (free b refl) o)
      (λ (t, pix, ok) (after, good). rw good after)
