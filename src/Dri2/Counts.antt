-- ===== src/Dri2/Counts.antt =====
-- The count that dri2.c asks for when the target has passed: the end of ms_dri2_schedule_wait_msc
-- and that of ms_dri2_schedule_swap, which test differently. The numbers are of type CARD64.
use native.Mathlib.Nat.{
  mul-le-mul_left, mul-suc, div-add-mod, mod-lt, mul-add-mod_self_left, mod-eq_of_lt, add-mod_right,
}
use xserver_xorg_video_loong.Base.{
  ℕ, ◌+◌, ◌-◌, ◌*◌, ◌/◌, ◌%◌, ◌^◌, ◌≤◌, ◌<◌, ◌≡◌, ◌⊎◌, inl, inr, false, if◌then◌else◌, ltb, leb,
  ltb→lt, Bool-cases, arith,
}

unfoldable pub wait_count : (current_msc divisor remainder : ℕ) → ℕ
wait_count current_msc divisor remainder =
    let request_msc = (current_msc - current_msc % divisor + remainder) % 2 ^ 64 in
    if leb remainder (current_msc % divisor) then (request_msc + divisor) % 2 ^ 64 else request_msc

unfoldable pub swap_count : (current_msc divisor remainder : ℕ) → ℕ
swap_count current_msc divisor remainder =
    let request_msc = (current_msc - current_msc % divisor + remainder) % 2 ^ 64 in
    if leb request_msc current_msc then (request_msc + divisor) % 2 ^ 64 else request_msc

-- `m` is the first count after `current_msc` that leaves `remainder`.
pub record IsNextCount (current_msc divisor remainder m : ℕ) : Type 0 where
  pub later : current_msc < m
  pub leaves : m % divisor ≡ remainder
  pub first : (n : ℕ) → current_msc < n → n % divisor ≡ remainder → m ≤ n

leb_of : (a b : ℕ) → ltb a b ≡ false → b ≤ a
leb_of a b h = ground arith

positive : {r d : ℕ} → r < d → 0 < d
positive h = omega arith

-- The next multiple of `d` after `d * a` is `d * a + d`.
multiples : (d a b : ℕ) → (d * a + d ≤ d * b) ⊎ (d * b ≤ d * a)
multiples d a b = elim (Bool-cases (ltb a b)) [
  | inl h ↦ inl (omega (arith, mul-le-mul_left d (ltb→lt a b h), mul-suc d a))
  | inr h ↦ inr (mul-le-mul_left d (leb_of a b h))
]

next_IsNextCount :
    (c d r m : ℕ)
    → r < d
    → ((m ≡ d * (c / d) + r) × (c % d < r)) ⊎ ((m ≡ d * (c / d) + r + d) × (r ≤ c % d))
    → IsNextCount c d r m
next_IsNextCount c d r m h k = record {
  later = ground (arith, k, div-add-mod c d, h, mod-lt c (positive h));
  leaves = ground (
    arith,
    k,
    mul-add-mod_self_left d (c / d) r,
    mul-add-mod_self_left d (c / d) (r + d),
    add-mod_right r d,
    mod-eq_of_lt h,
  );
  first = λ n above e. ground (
    arith,
    k,
    div-add-mod c d,
    div-add-mod n d,
    e,
    multiples d (c / d) (n / d),
    multiples d (n / d) (c / d),
    mod-lt c (positive h),
  );
}

wait_count_next :
    (c d r : ℕ)
    → r < d
    → c + d < 2 ^ 64
    → ((wait_count c d r ≡ d * (c / d) + r) × (c % d < r))
      ⊎ ((wait_count c d r ≡ d * (c / d) + r + d) × (r ≤ c % d))
unfolding wait_count
wait_count_next c d r h k = ground (arith, div-add-mod c d, mod-lt c (positive h))

swap_count_next :
    (c d r : ℕ)
    → r < d
    → c + d < 2 ^ 64
    → ((swap_count c d r ≡ d * (c / d) + r) × (c % d < r))
      ⊎ ((swap_count c d r ≡ d * (c / d) + r + d) × (r ≤ c % d))
unfolding swap_count
swap_count_next c d r h k = ground (arith, div-add-mod c d, mod-lt c (positive h))

pub swap_count_le : (c d r : ℕ) → r < d → c + d < 2 ^ 64 → swap_count c d r ≤ c + d
swap_count_le c d r h k = ground (arith, swap_count_next c d r h k, div-add-mod c d)

-- With a remainder below the divisor and counts below 2^64, DRI2WaitMSC asks for the first count
-- after the current one that leaves the remainder, and the swap, with its other test, asks for the
-- same count.
pub wait_count-IsNextCount :
    (c d r : ℕ)
    → r < d
    → c + d < 2 ^ 64
    → IsNextCount c d r (wait_count c d r) × (swap_count c d r ≡ wait_count c d r)
wait_count-IsNextCount c d r h k =
    let wait = wait_count_next c d r h k in
    (
      next_IsNextCount c d r (wait_count c d r) h wait,
      ground (arith, wait, swap_count_next c d r h k),
    )
