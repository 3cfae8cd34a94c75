-- ===== src/Modeset/Properties/Copies/Balance.antt =====
-- The arrays that a copy of a table owns, and its release.
use xserver_xorg_video_loong.Base.{
  ℕ, ◌≡◌, refl, Bool, true, false, Option, none, some, List, [], ◌∷◌, ◌||◌, arith, ◌==◌,
  if◌then◌else◌, Bool-cases, inl, inr,
}
use xserver_xorg_video_loong.Modeset.Properties.{PropInfo}
use xserver_xorg_video_loong.Modeset.Properties.Copies.{
  Pointer, null, shared, own, Memory, set_memory, has_enums, Copied, malloc, later, keep_plain,
  keep_own, stop_at, prop_info_copy, free_array, prop_info_free, free_arrays, arrays_of,
}

-- malloc gives memory that is not allocated.
abbrev pub IsFreshFor : Memory → List (Option ℕ) → Type 0
IsFreshFor m [] = Unit
IsFreshFor m (none ∷ mallocs) = IsFreshFor m mallocs
IsFreshFor m (some p ∷ mallocs) = (m p ≡ false) × IsFreshFor (set_memory m p true) mallocs

abbrev owns : List Pointer → ℕ → Bool
owns [] q = false
owns (null ∷ arrays) q = owns arrays q
owns (shared ∷ arrays) q = owns arrays q
owns (own p ∷ arrays) q = q == p || owns arrays q

-- Every array is allocated, none twice in the list.
abbrev IsOwner : List Pointer → Memory → Type 0
IsOwner [] m = Unit
IsOwner (null ∷ arrays) m = IsOwner arrays m
IsOwner (shared ∷ arrays) m = ⊥
IsOwner (own p ∷ arrays) m = (m p ≡ true) × (owns arrays p ≡ false) × IsOwner arrays m

-- The memory after the end of all the arrays.
abbrev Released : List Pointer → Memory → Memory → Type 0
Released arrays m n = (q : ℕ) → n q ≡ (if owns arrays q then false else m q)

IsOwner-set :
    (arrays : List Pointer) (m : Memory) (p : ℕ) (b : Bool)
    → owns arrays p ≡ false
    → IsOwner arrays m
    → IsOwner arrays (set_memory m p b)
unfolding set_memory
IsOwner-set [] m p b n h = tt
IsOwner-set (null ∷ arrays) m p b n h = IsOwner-set arrays m p b n h
IsOwner-set (shared ∷ arrays) m p b n h = elim h [ ]
IsOwner-set (own q ∷ arrays) m p b n (a, d, h) =
    (ground arith, d, IsOwner-set arrays m p b (ground arith) h)

free_arrays-Released :
    (arrays : List Pointer) (m : Memory)
    → IsOwner arrays m
    → (n : Memory) × (free_arrays arrays m ≡ some n) × Released arrays m n
unfolding free_arrays free_array set_memory
free_arrays-Released [] m h = (m, refl, λ q. refl)
free_arrays-Released (null ∷ arrays) m h = free_arrays-Released arrays m h
free_arrays-Released (shared ∷ arrays) m h = elim h [ ]
free_arrays-Released (own p ∷ arrays) m (a, d, h) =
    let (n, e, r) =
      free_arrays-Released arrays (set_memory m p false) (IsOwner-set arrays m p false d h) in
    (n, rw a e, λ q. ground (arith, r q))

-- What a complete copy owns is allocated, and was not before.
abbrev Owns : Memory → List Pointer → Memory → Type 0
Owns m arrays n =
    IsOwner arrays n
    × ((q : ℕ) → n q ≡ (owns arrays q || m q))
    × ((q : ℕ) → owns arrays q ≡ true → m q ≡ false)

-- A copy that is not complete leaves nothing.
abbrev IsCopied : Memory → Copied → Type 0
IsCopied m c =
    (c.ok ≡ false → (q : ℕ) → c.memory q ≡ m q)
    × (c.ok ≡ true → Owns m (arrays_of c.slots) c.memory)

Owns-own :
    (p : ℕ) (m n : Memory) (arrays : List Pointer)
    → m p ≡ false
    → Owns (set_memory m p true) arrays n
    → Owns m (own p ∷ arrays) n
unfolding set_memory
Owns-own p m n arrays f (o, e, g) = (
  (ground (arith, e p), ground (arith, g p), o),
  λ q. ground (arith, e q),
  λ q h. ground (arith, g q),
)

keep_own-IsCopied :
    (copy_prop_id : Bool) (info : PropInfo) (p : ℕ) (m : Memory) (c : Copied)
    → m p ≡ false
    → IsCopied (set_memory m p true) c
    → IsCopied m (keep_own copy_prop_id info p c)
unfolding keep_own set_memory
keep_own-IsCopied copy_prop_id info p m c f (u, h) = (
  λ failed q. rw failed (ground (arith, u failed q)),
  λ done. rw done (Owns-own p m c.memory (arrays_of c.slots) f (h done)),
)

-- A property with enum values, where the later ones are copied right.
first_IsCopied :
    (copy_prop_id : Bool) (info : PropInfo) (infos : List PropInfo) (ms : List (Option ℕ))
    (m : Memory)
    → IsFreshFor m ms
    → ((ns : List (Option ℕ)) (n : Memory)
        → IsFreshFor n ns
        → IsCopied n (prop_info_copy copy_prop_id infos ns n))
    → IsCopied m (elim (malloc ms) [
      | none ↦ stop_at copy_prop_id info infos m
      | some p ↦
          keep_own copy_prop_id info p
            (prop_info_copy copy_prop_id infos (later ms) (set_memory m p true))
    ])
unfolding stop_at
first_IsCopied copy_prop_id info infos [] m h rest = (λ e q. refl, λ e. absurd cc)
first_IsCopied copy_prop_id info infos (none ∷ ms) m h rest = (λ e q. refl, λ e. absurd cc)
first_IsCopied copy_prop_id info infos (some p ∷ ms) m (f, h) rest =
    keep_own-IsCopied copy_prop_id info p m
      (prop_info_copy copy_prop_id infos ms (set_memory m p true)) f
      (rest ms (set_memory m p true) h)

prop_info_copy-IsCopied :
    (copy_prop_id : Bool) (infos : List PropInfo) (mallocs : List (Option ℕ)) (m : Memory)
    → IsFreshFor m mallocs
    → IsCopied m (prop_info_copy copy_prop_id infos mallocs m)
unfolding prop_info_copy keep_plain
prop_info_copy-IsCopied copy_prop_id [] mallocs m h =
    (λ e. absurd cc, λ e. (tt, λ q. refl, λ q o. absurd cc))
prop_info_copy-IsCopied copy_prop_id (info ∷ infos) mallocs m h =
    elim (Bool-cases (has_enums info)) [
      | inr plain ↦
          rw (plain, prop_info_copy) (prop_info_copy-IsCopied copy_prop_id infos mallocs m h)
      | inl enum ↦
          rw (enum, prop_info_copy)
            (first_IsCopied copy_prop_id info infos mallocs m h
              (λ ns n. prop_info_copy-IsCopied copy_prop_id infos ns n))
    ]

-- If malloc gives only memory that is not allocated, drmmode_prop_info_copy that fails leaves the
-- memory as it was, and after one that succeeds, drmmode_prop_info_free of the copy frees only what is
-- allocated and brings the memory back to what it was.
pub prop_info_copy-free :
    (copy_prop_id : Bool) (infos : List PropInfo) (mallocs : List (Option ℕ)) (m : Memory)
    → IsFreshFor m mallocs
    → let c = prop_info_copy copy_prop_id infos mallocs m in
      (c.ok ≡ false → (q : ℕ) → c.memory q ≡ m q)
      × (c.ok ≡ true
          → (n : Memory) × (prop_info_free c.slots c.memory ≡ some n) × ((q : ℕ) → n q ≡ m q))
unfolding prop_info_free
prop_info_copy-free copy_prop_id infos mallocs m h =
    let c = prop_info_copy copy_prop_id infos mallocs m in
    let (failed, done) = prop_info_copy-IsCopied copy_prop_id infos mallocs m h in
    (
      failed,
      λ ok.
          let (o, e, g) = done ok in
          let (n, k, r) = free_arrays-Released (arrays_of c.slots) c.memory o in
          (n, k, λ q. ground (arith, r q, e q, g q)),
    )
