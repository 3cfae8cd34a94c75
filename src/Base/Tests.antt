-- ===== src/Base/Tests.antt =====
-- Tests on the native numbers, the conditional, and splits that keep their equation.
use Prim.Native.Nat.{ℕ, ◌<◌, compare, Ordering}
use mathlib.Core.Path.{◌≡◌, refl}
use mathlib.Core.Logic.{◌↔◌, ◌⊎◌, inl, inr}
use mathlib.Core.Bool.{Bool, true, false}
use mathlib.Core.Option.{Option, none, some}
use native.Mathlib.Omega.{arith}

abbrev pub ltb : ℕ → ℕ → Bool
ltb a b = elim (compare a b) [ Ordering.lt ↦ true | _ ↦ false ]

abbrev pub leb : ℕ → ℕ → Bool
leb a b = elim (compare a b) [ Ordering.gt ↦ false | _ ↦ true ]

infix 50 ◌==◌
abbrev pub ◌==◌ : ℕ → ℕ → Bool
a == b = elim (compare a b) [ Ordering.eq ↦ true | _ ↦ false ]

infix 1 if◌then◌else◌
abbrev pub if◌then◌else◌ {ℓ} : {A : Type ℓ} → Bool → A → A → A
if true then x else y = x
if false then x else y = y

pub ltb→lt : (a b : ℕ) → ltb a b ≡ true → a < b
ltb→lt a b h = ground arith

pub lt→ltb : (a b : ℕ) → a < b → ltb a b ≡ true
lt→ltb a b h = ground arith

pub ==_iff : (a b : ℕ) → ((a == b) ≡ true) ↔ (a ≡ b)
==_iff a b = ground arith

pub ==_refl : (a : ℕ) → (a == a) ≡ true
==_refl a = ground arith

pub Bool-cases : (b : Bool) → (b ≡ true) ⊎ (b ≡ false)
Bool-cases true = inl refl
Bool-cases false = inr refl

pub Option-cases {ℓ} : {A : Type ℓ} (o : Option A) → (o ≡ none) ⊎ ((a : A) × (o ≡ some a))
Option-cases none = inl refl
Option-cases (some a) = inr (a, refl)

abbrev pub is_some {ℓ} : {A : Type ℓ} → Option A → Bool
is_some none = false
is_some (some a) = true

-- A chain of steps, each of which may fault.
infixl 5 ◌>>=◌
abbrev pub ◌>>=◌ {ℓ κ} : {A : Type ℓ} {B : Type κ} → Option A → (A → Option B) → Option B
none >>= f = none
some a >>= f = f a

-- What both branches of a conditional have, it has.
pub if_either {ℓ κ} :
    {A : Type ℓ} (P : A → Type κ) (b : Bool) (x y : A)
    → (b ≡ true → P x)
    → (b ≡ false → P y)
    → P (if b then x else y)
if_either P true x y f g = f refl
if_either P false x y f g = g refl

module _ {ℓ κ} {A : Type ℓ} where
  -- The result, if there is one, has the property.
  abbrev pub Ensures : (A → Type κ) → Option A → Type κ
  Ensures P none = Unit
  Ensures P (some a) = P a

module _ {ℓ κ μ ν} {A : Type ℓ} {B : Type μ} (P : A → Type κ) (Q : B → Type ν) where
  pub Ensures->>= :
      (o : Option A) (f : A → Option B)
      → Ensures P o
      → ((a : A) → P a → Ensures Q (f a))
      → Ensures Q (o >>= f)
  Ensures->>= none f p q = tt
  Ensures->>= (some a) f p q = q a p

module _ {ℓ} {A : Type ℓ} where
  -- There is a result, and it has the property.
  abbrev pub Yields : (A → Type 0) → Option A → Type 0
  Yields P none = ⊥
  Yields P (some a) = P a

module _ {ℓ μ} {A : Type ℓ} {B : Type μ} (P : B → Type 0) where
  -- A step with a known result.
  pub Yields-at :
      {o : Option A} (a : A) (f : A → Option B) → o ≡ some a → Yields P (f a) → Yields P (o >>= f)
  Yields-at a f e h = rw e h

module _ {ℓ μ} {A : Type ℓ} {B : Type μ} (P : A → Type 0) (Q : B → Type 0) where
  pub Yields->>= :
      (o : Option A) (f : A → Option B)
      → Yields P o
      → ((a : A) → P a → Yields Q (f a))
      → Yields Q (o >>= f)
  Yields->>= none f p q = elim p [ ]
  Yields->>= (some a) f p q = q a p

module _ {ℓ} {A : Type ℓ} {P Q : A → Type 0} where
  pub Yields-map : ((a : A) → P a → Q a) → (o : Option A) → Yields P o → Yields Q o
  Yields-map f none h = elim h [ ]
  Yields-map f (some a) h = f a h
