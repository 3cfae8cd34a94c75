-- ===== src/Exa/Owners.antt =====
-- Every dumb object has one owner at most: what a change of one record keeps.
use xserver_xorg_video_loong.Base.{
  ℕ, ◌≡◌, ◌≢◌, refl, sym, ◌∙◌, ap, Bool, true, false, Option, none, some, ◌==◌, arith, Bool-cases,
  ◌⊎◌, ==_iff, inl, inr, is_some,
}
use mathlib.Core.Path.{subst}
use xserver_xorg_video_loong.Buffers.{DumbBo}
use xserver_xorg_video_loong.Exa.{Priv}

-- The object that a record owns.
abbrev pub own_bo : (owned : Bool) (bo : Option ℕ) → Option ℕ
own_bo false bo = none
own_bo true bo = bo

abbrev pub own : Option Priv → Option ℕ
own none = none
own (some v) = own_bo v.owned v.bo

-- The objects that records own are there, and no two records own the same.
pub record IsOwned (privs : ℕ → Option Priv) (heap : ℕ → Option DumbBo) : Type 0 where
  pub object : (p b : ℕ) → own (privs p) ≡ some b → is_some (heap b) ≡ true
  pub apart : (p q b : ℕ) → own (privs p) ≡ some b → own (privs q) ≡ some b → p ≡ q

pub same_or_not : (q p : ℕ) → (q ≡ p) ⊎ (q ≢ p)
same_or_not q p = elim (Bool-cases (q == p)) [
  | inl e ↦ inl ((==_iff q p).0 e)
  | inr e ↦ inr (λ k. ground arith)
]

module _ (privs : ℕ → Option Priv) (heap : ℕ → Option DumbBo) (owned : IsOwned privs heap)
    (privs' : ℕ → Option Priv) (heap' : ℕ → Option DumbBo) (p : ℕ) where
  -- Only the record at `p` changes, and only its object goes.
  pub record ChangesOne : Type 0 where
    pub others : (q : ℕ) → q ≢ p → privs' q ≡ privs q
    pub kept : (b : ℕ) → own (privs p) ≢ some b → is_some (heap b) ≡ true → is_some (heap' b) ≡ true

  other-object :
      ChangesOne
      → (q b : ℕ) → q ≢ p
      → own (privs' q) ≡ some b
      → (own (privs q) ≡ some b) × (is_some (heap b) ≡ true) × (is_some (heap' b) ≡ true)
  other-object ch q b d e =
      let before : own (privs q) ≡ some b = ap own (sym (ch.others q d)) ∙ e in
      let there = owned.object q b before in
      (before, there, ch.kept b (λ o. d (owned.apart q p b before o)) there)

  at_p : (q b : ℕ) → q ≡ p → own (privs' q) ≡ some b → own (privs' p) ≡ some b
  at_p q b same e = ap (λ t. own (privs' t)) (sym same) ∙ e

  -- The record owns nothing afterwards.
  pub drop-IsOwned : ChangesOne → own (privs' p) ≡ none → IsOwned privs' heap'
  drop-IsOwned ch n =
      let not_p : (q b : ℕ) → own (privs' q) ≡ some b → q ≢ p =
        λ q b e same. let k = at_p q b same e in cc (k, n) in
      record {
        object = λ q b e. (other-object ch q b (not_p q b e) e).2;
        apart = λ q r b e f.
            owned.apart q r b (other-object ch q b (not_p q b e) e).0
              (other-object ch r b (not_p r b f) f).0;
      }

  -- The record owns a new object afterwards.
  pub take-IsOwned :
      (b : ℕ)
      → ChangesOne
      → own (privs' p) ≡ some b
      → heap b ≡ none
      → is_some (heap' b) ≡ true
      → IsOwned privs' heap'
  take-IsOwned b ch n free there =
      let same_object : (q c : ℕ) → q ≡ p → own (privs' q) ≡ some c → b ≡ c =
        λ q c same e. let k = at_p q c same e in cc (k, n) in
      -- An object of another record was there before.
      let old_object : (q c : ℕ) → q ≢ p → own (privs' q) ≡ some c → b ≢ c = λ q c d e same.
        let (before, was, is) = other-object ch q c d e in
        let gone : is_some (heap c) ≡ false = rw (← same, free) refl in cc (was, gone) in
      record {
        object = λ q c e. elim (same_or_not q p) [
          | inl same ↦ subst (λ t. is_some (heap' t) ≡ true) (same_object q c same e) there
          | inr d ↦ (other-object ch q c d e).2
        ];
        apart = λ q r c e f. elim (same_or_not q p) [
          | inl same ↦ elim (same_or_not r p) [
            | inl same' ↦ same ∙ sym same'
            | inr d ↦ absurd (old_object r c d f (same_object q c same e))
          ]
          | inr d ↦ elim (same_or_not r p) [
            | inl same ↦ absurd (old_object q c d e (same_object r c same f))
            | inr d' ↦ owned.apart q r c (other-object ch q c d e).0 (other-object ch r c d' f).0
          ]
        ];
      }
