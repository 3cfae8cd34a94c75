-- ===== src/Buffers/Balance.antt =====
-- What a new buffer object adds to the store, and that its end takes it away again.
use xserver_xorg_video_loong.Base.{
  ℕ, ◌≡◌, ◌≢◌, refl, true, false, Option, none, some, arith, ◌==◌, if◌then◌else◌, Option-cases, inl,
  inr,
}
use mathlib.Core.Path.{subst}
use xserver_xorg_video_loong.Buffers.{
  DumbBo, Store, set_heap, set_live, destroy_object, dumb_bo_destroy, Bo, destroy_gbm, bo_destroy,
}

-- Two stores hold the same.
pub record IsSame (s t : Store) : Type 0 where
  pub heap : (q : ℕ) → t.heap q ≡ s.heap q
  pub handles : (q : ℕ) → t.handles q ≡ s.handles q
  pub gbms : (q : ℕ) → t.gbms q ≡ s.gbms q

-- The store `t` holds an object at `p` and its handle, which `s` does not, and otherwise the same.
pub record HasObject (s t : Store) (p : ℕ) (o : DumbBo) : Type 0 where
  pub new : s.heap p ≡ none
  pub unused : s.handles o.handle ≡ false
  pub here : t.heap p ≡ some o
  pub heap : (q : ℕ) → q ≢ p → t.heap q ≡ s.heap q
  pub handles : (q : ℕ) → t.handles q ≡ (if q == o.handle then true else s.handles q)

abbrev pub HasDumb : Store → Store → Option ℕ → Type 0
HasDumb s t none = ((q : ℕ) → t.heap q ≡ s.heap q) × ((q : ℕ) → t.handles q ≡ s.handles q)
HasDumb s t (some p) = (o : DumbBo) × HasObject s t p o

abbrev pub HasGbm : Store → Store → Option ℕ → Type 0
HasGbm s t none = (q : ℕ) → t.gbms q ≡ s.gbms q
HasGbm s t (some g) =
    (s.gbms g ≡ false) × ((q : ℕ) → t.gbms q ≡ (if q == g then true else s.gbms q))

-- The store `t` is `s` and what the buffer object points to.
abbrev pub HasBo : Store → Store → Bo → Type 0
HasBo s t bo = HasDumb s t bo.dumb × HasGbm s t bo.gbm

destroy_gbm-HasBo :
    (s t : Store) (dumb gbm : Option ℕ)
    → HasDumb s t dumb
    → HasGbm s t gbm
    → HasDumb s (destroy_gbm t gbm) dumb × HasGbm s (destroy_gbm t gbm) none
unfolding destroy_gbm set_live
destroy_gbm-HasBo s t none none d g = (d, g)
destroy_gbm-HasBo s t (some p) none d g = (d, g)
destroy_gbm-HasBo s t none (some h) d (n, g) = (d, λ q. ground (arith, g q))
destroy_gbm-HasBo s t (some p) (some h) (o, d) (n, g) = (
  (o, record { new = d.new; unused = d.unused; here = d.here; heap = d.heap; handles = d.handles }),
  λ q. ground (arith, g q),
)

dumb_bo_destroy-IsSame :
    (s t : Store) (p : ℕ)
    → HasDumb s t (some p)
    → HasGbm s t none
    → (u : Store) × (dumb_bo_destroy t p true ≡ some (u, true)) × IsSame s u
unfolding dumb_bo_destroy destroy_object set_heap set_live
dumb_bo_destroy-IsSame s t p (o, d) g = (
  record t { heap = set_heap t.heap p none; handles = set_live t.handles o.handle false },
  rw d.here refl,
  record {
    heap = λ q. ground (arith, d.heap q, d.new);
    handles = λ q. ground (arith, d.handles q, d.unused);
    gbms = g;
  },
)

-- A buffer object that can be destroyed leaves nothing behind.
pub bo_destroy-IsSame :
    (s t : Store) (bo : Bo)
    → HasBo s t bo
    → (u : Store) × (bo_destroy t bo true ≡ some (u, record bo { dumb = none; gbm = none }))
      × IsSame s u
unfolding bo_destroy
bo_destroy-IsSame s t bo (d, g) = elim (Option-cases bo.dumb) [
  | inl e ↦
      let (d', g') = destroy_gbm-HasBo s t none bo.gbm (subst (HasDumb s t) e d) g in
      let (heap, handles) = d' in
      (destroy_gbm t bo.gbm, rw e refl, record { heap = heap; handles = handles; gbms = g' })
  | inr (p, e) ↦
      let (d', g') = destroy_gbm-HasBo s t (some p) bo.gbm (subst (HasDumb s t) e d) g in
      let (u, f, same) = dumb_bo_destroy-IsSame s (destroy_gbm t bo.gbm) p d' g' in
      (u, rw (e, bo_destroy) (rw f refl), same)
]
