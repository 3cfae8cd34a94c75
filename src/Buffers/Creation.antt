-- ===== src/Buffers/Creation.antt =====
-- What drmmode_create_bo and drmmode_bo_map of src/drmmode_display.c add to the store.
use xserver_xorg_video_loong.Base.{
  ℕ, ◌≡◌, refl, sym, ◌∙◌, Bool, true, false, Option, none, some, arith, is_some, Bool-cases,
  Option-cases, inl, inr, Yields,
}
use mathlib.Core.Path.{subst}
use xserver_xorg_video_loong.Buffers.{
  DumbBo, Store, set_heap, set_live, dumb_bo_create, map_object, dumb_bo_map, dumb_bo_destroy, Bo,
  destroy_gbm, bo_get_pitch, bo_destroy, map_dumb, bo_map, CreateBo, has_modifiers, create_plain,
  create_gbm, create_bo,
}
use xserver_xorg_video_loong.Buffers.Balance.{HasDumb, HasGbm, HasBo}

-- What is new to the store: the address of the object, its handle, and the buffers of gbm.
pub record IsFresh (s : Store) (w : CreateBo) : Type 0 where
  pub address : (p : ℕ) → w.dumb.calloc ≡ some p → s.heap p ≡ none
  pub handle : (o : DumbBo) → w.dumb.created ≡ some o → s.handles o.handle ≡ false
  pub with_modifiers : (g : ℕ) → w.with_modifiers ≡ some g → s.gbms g ≡ false
  pub plain : (g : ℕ) → w.plain ≡ some g → s.gbms g ≡ false

-- The pointer that drmmode_create_bo does not overwrite is null.
abbrev pub FitsGlamor : Bool → Bo → Type 0
FitsGlamor true bo = bo.dumb ≡ none
FitsGlamor false bo = bo.gbm ≡ none

HasDumb-refl : (s : Store) → HasDumb s s none
HasDumb-refl s = (λ q. refl, λ q. refl)

dumb_bo_create-HasDumb :
    (s : Store) (w : CreateBo)
    → IsFresh s w
    → HasDumb s (dumb_bo_create s w.dumb).0 (dumb_bo_create s w.dumb).1
      × HasGbm s (dumb_bo_create s w.dumb).0 none
unfolding dumb_bo_create set_heap set_live
dumb_bo_create-HasDumb s w f = elim (Option-cases w.dumb.calloc) [
  | inl e ↦ rw e (HasDumb-refl s, λ q. refl)
  | inr (p, e) ↦ elim (Option-cases w.dumb.created) [
    | inl e' ↦ rw (e, e') (HasDumb-refl s, λ q. refl)
    | inr (o, e') ↦
        rw (e, e')
          (
            (
              record o { ptr = none },
              record {
                new = f.address p e;
                unused = f.handle o e';
                here = ground arith;
                heap = λ q n. ground arith;
                handles = λ q. refl;
              },
            ),
            λ q. refl,
          )
  ]
]

create_plain-HasGbm :
    (s : Store) (bo : Bo) (plain : Option ℕ)
    → ((g : ℕ) → plain ≡ some g → s.gbms g ≡ false)
    → HasGbm s (create_plain s bo plain).0 (create_plain s bo plain).1.gbm
unfolding create_plain set_live
create_plain-HasGbm s bo none f = λ q. refl
create_plain-HasGbm s bo (some g) f = (f g refl, λ q. refl)

-- Making gbm buffers does not touch the dumb objects.
abbrev pub HasMade : Store → Store × Bo × Bool → Type 0
HasMade s (t, bo, ok) = HasBo s t bo

create_plain-HasMade :
    (s : Store) (bo : Bo) (plain : Option ℕ)
    → ((g : ℕ) → plain ≡ some g → s.gbms g ≡ false)
    → bo.dumb ≡ none
    → HasMade s (create_plain s bo plain)
unfolding create_plain set_live
create_plain-HasMade s bo none f e = (rw e (HasDumb-refl s), λ q. refl)
create_plain-HasMade s bo (some g) f e = (rw e (HasDumb-refl s), (f g refl, λ q. refl))

create_gbm-HasMade :
    (s : Store) (bo : Bo) (wanted : Bool) (with_modifiers plain : Option ℕ)
    → ((g : ℕ) → with_modifiers ≡ some g → s.gbms g ≡ false)
    → ((g : ℕ) → plain ≡ some g → s.gbms g ≡ false)
    → bo.dumb ≡ none
    → HasMade s (create_gbm s bo wanted with_modifiers plain)
unfolding create_gbm set_live
create_gbm-HasMade s bo true (some g) plain f h e = (rw e (HasDumb-refl s), (f g refl, λ q. refl))
create_gbm-HasMade s bo true none plain f h e = create_plain-HasMade s bo plain h e
create_gbm-HasMade s bo false with_modifiers plain f h e = create_plain-HasMade s bo plain h e

-- The new buffer object is all that drmmode_create_bo adds, also when it fails.
pub create_bo-HasBo :
    (s : Store) (bo : Bo) (width height : ℕ) (w : CreateBo)
    → IsFresh s w
    → FitsGlamor w.glamor bo
    → HasMade s (create_bo s bo width height w)
unfolding create_bo
create_bo-HasBo s bo width height w f fits = elim (Bool-cases w.glamor) [
  | inl e ↦
      let empty : bo.dumb ≡ none = subst (λ b. FitsGlamor b bo) e fits in
      rw (e, create_bo)
        (create_gbm-HasMade s (record bo { width = width; height = height })
          (has_modifiers w.modifiers) w.with_modifiers w.plain f.with_modifiers f.plain empty)
  | inr e ↦
      let empty : bo.gbm ≡ none = subst (λ b. FitsGlamor b bo) e fits in
      let (d, g) = dumb_bo_create-HasDumb s w f in rw (e, create_bo) (d, rw empty g)
]

pub map_dumb-HasDumb :
    (s t : Store) (p : ℕ) (mapped : Option ℕ)
    → HasDumb s t (some p)
    → HasGbm s t none
    → (r : Store × Option ℕ) × (map_dumb t p mapped ≡ some r)
      × HasDumb s r.0 (some p)
      × HasGbm s r.0 none
unfolding map_dumb dumb_bo_map map_object set_heap
map_dumb-HasDumb s t p mapped (o, d) g = elim (Option-cases o.ptr) [
  | inr (m, e) ↦ ((t, some m), rw (d.here, e) (rw d.here (rw e refl)), (o, d), g)
  | inl e ↦ elim (Option-cases mapped) [
    | inl e' ↦ ((t, none), rw (d.here, e, e') refl, (o, d), g)
    | inr (m, e') ↦ (
      (record t { heap = set_heap t.heap p (some (record o { ptr = some m })) }, some m),
      rw (d.here, e, e') (ground arith),
      (
        record o { ptr = some m },
        record {
          new = d.new;
          unused = d.unused;
          here = ground arith;
          heap = λ q n. ground (arith, d.heap q);
          handles = d.handles;
        },
      ),
      g,
    )
  ]
]

-- A buffer object of the right kind.
abbrev pub IsReady : Bool → Bo → Type 0
IsReady true bo = (bo.dumb ≡ none) × ((g : ℕ) × (bo.gbm ≡ some g))
IsReady false bo = (bo.gbm ≡ none) × ((p : ℕ) × (bo.dumb ≡ some p))

abbrev MakesReady : Bool → Store × Bo × Bool → Type 0
MakesReady glamor (t, bo, ok) = ok ≡ true → IsReady glamor bo

create_gbm-MakesReady :
    (s : Store) (bo : Bo) (wanted : Bool) (with_modifiers plain : Option ℕ)
    → bo.dumb ≡ none
    → MakesReady true (create_gbm s bo wanted with_modifiers plain)
unfolding create_gbm create_plain
create_gbm-MakesReady s bo true (some g) plain e = λ ok. (e, (g, refl))
create_gbm-MakesReady s bo true none none e = λ ok. absurd cc
create_gbm-MakesReady s bo true none (some g) e = λ ok. (e, (g, refl))
create_gbm-MakesReady s bo false with_modifiers none e = λ ok. absurd cc
create_gbm-MakesReady s bo false with_modifiers (some g) e = λ ok. (e, (g, refl))

some_of : (o : Option ℕ) → is_some o ≡ true → (p : ℕ) × (o ≡ some p)
some_of none h = absurd cc
some_of (some p) h = (p, refl)

pub create_bo-MakesReady :
    (s : Store) (bo : Bo) (width height : ℕ) (w : CreateBo)
    → FitsGlamor w.glamor bo
    → MakesReady w.glamor (create_bo s bo width height w)
unfolding create_bo
create_bo-MakesReady s bo width height w fits = elim (Bool-cases w.glamor) [
  | inl e ↦
      let empty : bo.dumb ≡ none = subst (λ b. FitsGlamor b bo) e fits in
      rw (e, create_bo)
        (create_gbm-MakesReady s (record bo { width = width; height = height })
          (has_modifiers w.modifiers) w.with_modifiers w.plain empty)
  | inr e ↦
      let empty : bo.gbm ≡ none = subst (λ b. FitsGlamor b bo) e fits in
      rw (e, create_bo) (λ ok. (empty, some_of (dumb_bo_create s w.dumb).1 ok))
]

pub bo_map-HasBo :
    (s t : Store) (bo : Bo) (mapped : Option ℕ)
    → IsReady false bo
    → HasBo s t bo
    → Yields (λ (r : Store × Option ℕ). HasBo s r.0 bo) (bo_map t bo mapped)
unfolding bo_map
bo_map-HasBo s t bo mapped (empty, (p, h)) (d, g) =
    let (r, e, d', g') =
      map_dumb-HasDumb s t p mapped (subst (HasDumb s t) h d) (subst (HasGbm s t) empty g) in
    let found : bo_map t bo mapped ≡ some r = rw (empty, h, bo_map) e in
    subst (Yields (λ (q : Store × Option ℕ). HasBo s q.0 bo)) (sym found)
      (subst (HasDumb s r.0) (sym h) d', subst (HasGbm s r.0) (sym empty) g')

-- What the store held, it still holds beside a new object.
HasDumb-heap :
    (s t : Store) (dumb : Option ℕ) (p : ℕ) (o : DumbBo)
    → HasDumb s t dumb
    → s.heap p ≡ some o
    → t.heap p ≡ some o
HasDumb-heap s t none p o (h, l) e = h p ∙ e
HasDumb-heap s t (some q) p o (o', d) e =
    d.heap p
      (λ c. let gone : s.heap p ≡ none = subst (λ k. s.heap k ≡ none) (sym c) d.new in absurd cc)
    ∙ e

pitch_heap :
    (s : Store) (gbm_stride : ℕ → ℕ) (bo : Bo) (p pitch : ℕ)
    → bo.gbm ≡ none
    → bo.dumb ≡ some p
    → bo_get_pitch s gbm_stride bo ≡ some pitch
    → (o : DumbBo) × (s.heap p ≡ some o)
unfolding bo_get_pitch
pitch_heap s gbm_stride bo p pitch empty h e = elim (Option-cases (s.heap p)) [
  | inr found ↦ found
  | inl gone ↦
      let missing : bo_get_pitch s gbm_stride bo ≡ none =
        rw (empty, h, bo_get_pitch) (rw gone refl) in
      absurd cc
]

-- A buffer object whose pitch can be read can be destroyed beside a new one.
pub bo_destroy-old :
    (s t : Store) (gbm_stride : ℕ → ℕ) (glamor : Bool) (old new : Bo) (pitch : ℕ) (destroyed : Bool)
    → IsReady glamor old
    → bo_get_pitch s gbm_stride old ≡ some pitch
    → HasBo s t new
    → Yields (λ (r : Store × Bo). Unit {0}) (bo_destroy t old destroyed)
unfolding bo_destroy dumb_bo_destroy destroy_gbm
bo_destroy-old s t gbm_stride true old new pitch destroyed (empty, g) e h =
    rw (empty, bo_destroy) tt
bo_destroy-old s t gbm_stride false old new pitch destroyed (empty, (p, k)) e (d, g) =
    let (o, f) = pitch_heap s gbm_stride old p pitch empty k e in
    let f' : t.heap p ≡ some o = HasDumb-heap s t new.dumb p o d f in
    rw (k, bo_destroy) (rw (empty, f') tt)

abbrev MakesNothing : Store × Bo × Bool → Type 0
MakesNothing (t, bo, ok) = ok ≡ false → (bo.dumb ≡ none) × (bo.gbm ≡ none)

create_gbm-MakesNothing :
    (s : Store) (bo : Bo) (wanted : Bool) (with_modifiers plain : Option ℕ)
    → bo.dumb ≡ none
    → MakesNothing (create_gbm s bo wanted with_modifiers plain)
unfolding create_gbm create_plain
create_gbm-MakesNothing s bo true (some g) plain e = λ ok. absurd cc
create_gbm-MakesNothing s bo true none none e = λ ok. (e, refl)
create_gbm-MakesNothing s bo true none (some g) e = λ ok. absurd cc
create_gbm-MakesNothing s bo false with_modifiers none e = λ ok. (e, refl)
create_gbm-MakesNothing s bo false with_modifiers (some g) e = λ ok. absurd cc

none_of : (o : Option ℕ) → is_some o ≡ false → o ≡ none
none_of none h = refl
none_of (some p) h = absurd cc

pub create_bo-MakesNothing :
    (s : Store) (bo : Bo) (width height : ℕ) (w : CreateBo)
    → FitsGlamor w.glamor bo
    → MakesNothing (create_bo s bo width height w)
unfolding create_bo
create_bo-MakesNothing s bo width height w fits = elim (Bool-cases w.glamor) [
  | inl e ↦
      let empty : bo.dumb ≡ none = subst (λ b. FitsGlamor b bo) e fits in
      rw (e, create_bo)
        (create_gbm-MakesNothing s (record bo { width = width; height = height })
          (has_modifiers w.modifiers) w.with_modifiers w.plain empty)
  | inr e ↦
      let empty : bo.gbm ≡ none = subst (λ b. FitsGlamor b bo) e fits in
      rw (e, create_bo) (λ ok. (none_of (dumb_bo_create s w.dumb).1 ok, empty))
]
