-- ===== src/Exa/Lifetimes.antt =====
-- A pixmap that was created and is destroyed leaves nothing behind but a descriptor.
use xserver_xorg_video_loong.Base.{
  ℕ, ◌≡◌, refl, Bool, true, false, not, Option, none, some, ◌==◌, ltb, ◌&&◌, if◌then◌else◌, arith,
  Yields, Bool-cases, Option-cases, inl, inr, if_either,
}
use xserver_xorg_video_loong.Buffers.{
  DumbBo, Store, CreateDumb, set_heap, set_live, dumb_bo_create, dumb_bo_destroy, destroy_object,
}
use xserver_xorg_video_loong.Exa.{
  Usage, is_dumb_pixmap, World, Creating, Priv, set_priv, exa_at, create_exa_pixmap, dumb_at,
  name_dumb, create_dumb_pixmap, create_pixmap2, destroy_pixmap, destroy_exa_pixmap,
  destroy_dumb_pixmap, free_buf, close_fd, drop_bo, alloc_buf,
}

-- The addresses, handles and descriptors of the answers are not in use.
pub record IsFresh (w : World) (c : Creating) : Type 0 where
  pub priv : (p : ℕ) → c.calloc ≡ some p → w.privs p ≡ none
  pub block : (m : ℕ) → c.malloc ≡ some m → w.blocks m ≡ false
  pub object : (b : ℕ) → c.dumb.calloc ≡ some b → w.store.heap b ≡ none
  pub handle : (o : DumbBo) → c.dumb.created ≡ some o → w.store.handles o.handle ≡ false

-- Two worlds have the same records, blocks and objects.
pub record IsAlike (w t : World) : Type 0 where
  pub privs : (q : ℕ) → t.privs q ≡ w.privs q
  pub blocks : (q : ℕ) → t.blocks q ≡ w.blocks q
  pub heap : (q : ℕ) → t.store.heap q ≡ w.store.heap q
  pub handles : (q : ℕ) → t.store.handles q ≡ w.store.handles q

-- Whether a creation asks for a dumb object.
abbrev pub asks_dumb : Usage → (width height : ℕ) → Bool
asks_dumb usage width height = is_dumb_pixmap usage && not (width == 0 && height == 0)

-- The dumb objects and handles after the pixmap has gone: those of before, and the new object, without
-- a mapping, if the kernel did not destroy it.
abbrev pub left_dumb : Store → CreateDumb → (destroyed : Bool) → Store
left_dumb s c true = s
left_dumb s c false = elim c.calloc [
  | none ↦ s
  | some b ↦ elim c.created [
    | none ↦ s
    | some o ↦ record s {
      heap = set_heap s.heap b (some (record o { ptr = none }));
      handles = set_live s.handles o.handle true;
    }
  ]
]

abbrev pub left_store : Usage → (width height : ℕ) → Store → Creating → (destroyed : Bool) → Store
left_store usage width height s c destroyed =
    if asks_dumb usage width height then left_dumb s c.dumb destroyed else s

-- The descriptors that are open after the pixmap has gone.
abbrev pub left_open : Usage → (width height : ℕ) → World → (prime : Option ℕ) → ℕ → Bool
left_open usage width height w prime q =
    if asks_dumb usage width height
    then elim prime [ none ↦ w.fds q | some fd ↦ if q == fd then true else w.fds q ]
    else w.fds q

-- The world after a creation that gave a pixmap, and its destruction.
abbrev pub GivesBack :
    Usage → (width height : ℕ) → World → Creating → (destroyed : Bool) → World × Option ℕ → Type 0
GivesBack usage width height w c destroyed (t, none) = Unit
GivesBack usage width height w c destroyed (t, some p) =
    Yields
      (λ u.
        IsAlike (record w { store = left_store usage width height w.store c destroyed }) u
        × ((q : ℕ) → u.fds q ≡ left_open usage width height w c.prime q))
      (destroy_pixmap t p destroyed)

pub set_priv_self : (h : ℕ → Option Priv) (p : ℕ) (v : Option Priv) → set_priv h p v p ≡ v
unfolding set_priv
set_priv_self h p v = ground arith

-- A record that is set and then removed.
set_priv_back :
    (h : ℕ → Option Priv) (p : ℕ) (v : Option Priv) (q : ℕ)
    → h p ≡ none
    → set_priv (set_priv h p v) p none q ≡ h q
unfolding set_priv
set_priv_back h p v q e = ground arith

set_live_back :
    (h : ℕ → Bool) (p q : ℕ) → h p ≡ false → set_live (set_live h p true) p false q ≡ h q
unfolding set_live
set_live_back h p q e = ground arith

pub set_heap_self : (h : ℕ → Option DumbBo) (p : ℕ) (o : Option DumbBo) → set_heap h p o p ≡ o
unfolding set_heap
set_heap_self h p o = ground arith

set_heap_back :
    (h : ℕ → Option DumbBo) (p : ℕ) (o : Option DumbBo) (q : ℕ)
    → h p ≡ none
    → set_heap (set_heap h p o) p none q ≡ h q
unfolding set_heap
set_heap_back h p o q e = ground arith

-- The object whose destruction failed.
set_heap_again :
    (h : ℕ → Option DumbBo) (p : ℕ) (o o' : Option DumbBo) (q : ℕ)
    → set_heap (set_heap h p o) p o' q ≡ set_heap h p o' q
unfolding set_heap
set_heap_again h p o o' q = ground arith

module _ (w : World) (usage : Usage) (width height : ℕ) (p : ℕ) (new : w.privs p ≡ none)
    (destroyed : Bool) where
  abbrev Gives : Creating → World × Option ℕ → Type 0
  Gives c r = GivesBack usage width height w c destroyed r

  exa_at-GivesBack :
      (c : Creating) (depth bpp m : ℕ)
      → is_dumb_pixmap usage ≡ false
      → c.malloc ≡ some m
      → w.blocks m ≡ false
      → Yields (Gives c) (exa_at w width height depth usage bpp c p)
  unfolding exa_at destroy_pixmap destroy_exa_pixmap free_buf alloc_buf
  exa_at-GivesBack c depth bpp m e got free =
      if_either (Yields (Gives c)) (ltb 0 width && ltb 0 height && ltb 0 depth && ltb 0 bpp) _ _
        (λ filled. rw got (
          rw (set_priv_self w.privs p, e)
            (
              record {
                privs = λ q. set_priv_back w.privs p _ q new;
                blocks = λ q. set_live_back w.blocks m q free;
                heap = λ q. refl;
                handles = λ q. refl;
              },
              λ q. refl,
            )))
        (λ empty.
          rw (set_priv_self w.privs p, e)
            (
              record {
                privs = λ q. set_priv_back w.privs p _ q new;
                blocks = λ q. refl;
                heap = λ q. refl;
                handles = λ q. refl;
              },
              λ q. refl,
            ))

module _ (w : World) (usage : Usage) (width height : ℕ) (p : ℕ) (new : w.privs p ≡ none) where
  name_dumb-GivesBack :
      (c : Creating) (destroyed : Bool) (prime : Option ℕ) (b : ℕ) (o : DumbBo)
      → is_dumb_pixmap usage ≡ true
      → (width == 0 && height == 0) ≡ false
      → w.store.heap b ≡ none
      → w.store.handles o.handle ≡ false
      → let store = record (w.store) {
        heap = set_heap w.store.heap b (some (record o { ptr = none }));
        handles = set_live w.store.handles o.handle true;
      } in
        let asked = record c {
          dumb = record { calloc = some b; created = some o };
          prime = prime;
        } in
        Yields
          (Gives w usage width height p new destroyed asked)
          (name_dumb (record w { store = store }) usage prime p b)
  unfolding name_dumb destroy_pixmap destroy_dumb_pixmap drop_bo dumb_bo_destroy destroy_object
      close_fd
  name_dumb-GivesBack c destroyed none b o e sized free unused = tt
  name_dumb-GivesBack c true (some fd) b o e sized free unused = rw (set_heap_self w.store.heap b) (
      rw (set_priv_self w.privs p, e)
        (rw (set_heap_self w.store.heap b) (
          record {
            privs = λ q. set_priv_back w.privs p _ q new;
            blocks = λ q. refl;
            heap = λ q. rw sized (set_heap_back w.store.heap b _ q free);
            handles = λ q. rw sized (set_live_back w.store.handles o.handle q unused);
          },
          λ q. rw sized refl,
        )))
  name_dumb-GivesBack c false (some fd) b o e sized free unused =
      rw (set_heap_self w.store.heap b) (
        rw (set_priv_self w.privs p, e)
          (rw (set_heap_self w.store.heap b) (
            record {
              privs = λ q. set_priv_back w.privs p _ q new;
              blocks = λ q. refl;
              heap = λ q. rw sized (set_heap_again w.store.heap b _ _ q);
              handles = λ q. rw sized refl;
            },
            λ q. rw sized refl,
          )))

  filled-GivesBack :
      (c : Creating) (destroyed : Bool) (calloc : Option ℕ) (created : Option DumbBo)
      → is_dumb_pixmap usage ≡ true
      → (width == 0 && height == 0) ≡ false
      → ((b : ℕ) → calloc ≡ some b → w.store.heap b ≡ none)
      → ((o : DumbBo) → created ≡ some o → w.store.handles o.handle ≡ false)
      → let asked = record c { dumb = record { calloc = calloc; created = created } } in
        Yields
          (Gives w usage width height p new destroyed asked)
          (dumb_at w width height usage asked p)
  unfolding dumb_at dumb_bo_create
  filled-GivesBack c destroyed none created e sized free unused = rw sized tt
  filled-GivesBack c destroyed (some b) none e sized free unused = rw sized tt
  filled-GivesBack c destroyed (some b) (some o) e sized free unused =
      rw sized (name_dumb-GivesBack c destroyed c.prime b o e sized (free b refl) (unused o refl))

  dumb_at-GivesBack :
      (c : Creating) (destroyed : Bool)
      → is_dumb_pixmap usage ≡ true
      → ((b : ℕ) → c.dumb.calloc ≡ some b → w.store.heap b ≡ none)
      → ((o : DumbBo) → c.dumb.created ≡ some o → w.store.handles o.handle ≡ false)
      → Yields (Gives w usage width height p new destroyed c) (dumb_at w width height usage c p)
  unfolding dumb_at destroy_pixmap destroy_dumb_pixmap drop_bo close_fd
  dumb_at-GivesBack c destroyed e free unused = elim (Bool-cases (width == 0 && height == 0)) [
    | inl empty ↦ rw empty (
        rw (set_priv_self w.privs p, e)
          (
            record {
              privs = λ q. set_priv_back w.privs p _ q new;
              blocks = λ q. refl;
              heap = λ q. rw empty refl;
              handles = λ q. rw empty refl;
            },
            λ q. rw empty refl,
          ))
    | inr sized ↦ filled-GivesBack c destroyed c.dumb.calloc c.dumb.created e sized free unused
  ]

-- The answers are fresh and there is memory for the pixels. Then the creation of a pixmap returns, and
-- where it gives one, its destruction returns too: the private record and the memory are gone, and so is
-- the dumb object if the kernel destroys it; if the kernel does not, the object and its handle stay,
-- without an owner. Nothing else has changed but for the descriptor of a dumb pixmap that is not empty,
-- which stays open.
pub create_pixmap2-GivesBack :
    (w : World) (usage : Usage) (width height depth bpp m : ℕ) (c : Creating) (destroyed : Bool)
    → IsFresh w c
    → c.malloc ≡ some m
    → Yields
        (GivesBack usage width height w c destroyed)
        (create_pixmap2 w width height depth usage bpp c)
unfolding create_pixmap2 create_exa_pixmap create_dumb_pixmap
create_pixmap2-GivesBack w usage width height depth bpp m c destroyed f got =
    let P = GivesBack usage width height w c destroyed in
    elim (Option-cases c.calloc) [
      | inl out ↦ if_either (Yields P) (is_dumb_pixmap usage) _ _ (λ e. rw out tt) (λ e. rw out tt)
      | inr (p, at) ↦
          if_either (Yields P) (is_dumb_pixmap usage) _ _
            (λ e. rw at (
              dumb_at-GivesBack w usage width height p (f.priv p at) c destroyed e f.object
                f.handle))
            (λ e. rw at (
              exa_at-GivesBack w usage width height p (f.priv p at) destroyed c depth bpp m e got
                (f.block m got)))
    ]
