-- ===== src/Dri2/Schedule/Timing.antt =====
-- The frame at which a swap takes effect: a flip does so one frame after the count that is asked for.
use xserver_xorg_video_loong.Base.{
  ℕ, ◌+◌, ◌-◌, ◌%◌, ◌^◌, ◌≤◌, ◌<◌, ◌≡◌, ◌⊎◌, inl, inr, Bool, true, false, arith, if◌then◌else◌, ltb,
  Bool-cases,
}
use xserver_xorg_video_loong.Dri2.Counts.{
  swap_count, IsNextCount, wait_count-IsNextCount, swap_count_le,
}
use xserver_xorg_video_loong.Dri2.Schedule.{Ask, flip_delay, swap_request}

-- The three cases of a swap; `request + delay` is the count at which it takes effect.
abbrev pub IsOnTime : Ask → (current_msc delay request : ℕ) → Type 0
IsOnTime x current_msc delay request =
    ((current_msc + delay < x.target_msc) × (request + delay ≡ x.target_msc))
    ⊎ (((x.target_msc ≤ current_msc + delay) × (x.divisor ≡ 0) × (request ≡ current_msc))
        ⊎ ((x.target_msc ≤ current_msc + delay)
            × IsNextCount current_msc x.divisor x.remainder (request + delay)))

swap_count-IsNextCount : (c d r : ℕ) → r < d → c + d < 2 ^ 64 → IsNextCount c d r (swap_count c d r)
swap_count-IsNextCount c d r h k =
    let (next, same) = wait_count-IsNextCount c d r h k in rw same next

-- A count behind the current one can be asked for one frame early.
early :
    (c d m n : ℕ) → c < m → m ≤ c + d → c + d < 2 ^ 64 → n ≤ 1 → (m + 2 ^ 64 - n) % 2 ^ 64 + n ≡ m
early c d m n h k l b = ground arith

abbrev corrected : Ask → Bool → ℕ
corrected x flip = if ltb 0 x.target_msc then x.target_msc - flip_delay flip else x.target_msc

swap_request_to_come :
    (x : Ask) (flip : Bool) (current_msc : ℕ)
    → ltb current_msc (corrected x flip) ≡ true
    → swap_request x flip current_msc ≡ corrected x flip
unfolding swap_request
swap_request_to_come x flip current_msc h = ground (arith, h)

swap_request_at_once :
    (x : Ask) (flip : Bool) (current_msc : ℕ)
    → ltb current_msc (corrected x flip) ≡ false
    → x.divisor ≡ 0
    → swap_request x flip current_msc ≡ current_msc
unfolding swap_request
swap_request_at_once x flip current_msc h e = ground (arith, h, e)

swap_request_next :
    (x : Ask) (flip : Bool) (current_msc : ℕ)
    → ltb current_msc (corrected x flip) ≡ false
    → x.remainder < x.divisor
    → current_msc + x.divisor < 2 ^ 64
    → swap_request x flip current_msc + flip_delay flip
      ≡ swap_count current_msc x.divisor x.remainder
unfolding swap_request
swap_request_next x flip current_msc h r k =
    let next = swap_count-IsNextCount current_msc x.divisor x.remainder r k in
    let le = swap_count_le current_msc x.divisor x.remainder r k in
    let one : flip_delay flip ≤ 1 = ground arith in
    let e =
      early current_msc x.divisor (swap_count current_msc x.divisor x.remainder) (flip_delay flip)
        next.later le k one in
    ground (arith, h, r, e)

-- With a remainder below the divisor, or no divisor, and counts that stay below 2^64: if the target
-- is still to come, by more than the delay of a flip, the swap takes effect at the target. If not,
-- it is asked for at the current count where there is no divisor, and else takes effect at the
-- first count after the current one that leaves the remainder.
pub swap_request-IsOnTime :
    (x : Ask) (flip : Bool) (current_msc : ℕ)
    → (x.divisor ≡ 0) ⊎ (x.remainder < x.divisor)
    → current_msc + x.divisor < 2 ^ 64
    → IsOnTime x current_msc (flip_delay flip) (swap_request x flip current_msc)
swap_request-IsOnTime x flip current_msc h k =
    elim (Bool-cases (ltb current_msc (corrected x flip))) [
      | inl to_come ↦
          let e = swap_request_to_come x flip current_msc to_come in
          inl (ground (arith, to_come), ground (arith, to_come, e))
      | inr passed ↦ elim h [
        | inl none ↦ inr (
            inl (ground (arith, passed), none, swap_request_at_once x flip current_msc passed none))
        | inr r ↦ inr (
            inr (
              ground (arith, passed),
              rw (swap_request_next x flip current_msc passed r k)
                  (swap_count-IsNextCount current_msc x.divisor x.remainder r k),
            ))
      ]
    ]
