-- ===== src/Vblank/Msc.antt =====
-- ms_kernel_msc_to_crtc_msc of vblank.c: 32-bit frame counts of the kernel become 64-bit ones.
-- `uint64_t` and `uint32_t` values are numbers, with the wrap written out.
use xserver_xorg_video_loong.Base.{
  ℕ, ◌+◌, ◌-◌, ◌*◌, ◌/◌, ◌%◌, ◌^◌, ◌≤◌, ◌<◌, ◌≡◌, refl, Bool, true, false, List, [], ◌∷◌, arith,
  if◌then◌else◌, pos, ltb_ℤ, ◌+ℤ◌, ◌-ℤ◌, int64,
}

-- The two fields of drmmode_crtc_private_rec.
pub record CrtcMsc : Type 0 where
  pub msc_prev : ℕ  -- uint32_t
  pub msc_high : ℕ  -- uint64_t

abbrev pub add64 : ℕ → ℕ → ℕ
add64 a b = (a + b) % 2 ^ 64

abbrev pub sub64 : ℕ → ℕ → ℕ
sub64 a b = (a + 2 ^ 64 - b) % 2 ^ 64

-- The branch for a 32-bit sequence: the high word follows the wrap.
from_32bit : CrtcMsc → ℕ → CrtcMsc × ℕ
unfolding ◌+ℤ◌ ◌-ℤ◌
from_32bit c sequence =
    let up =
      if ltb_ℤ (int64 sequence) (pos c.msc_prev -ℤ pos 0x4000_0000)
      then add64 c.msc_high (2 ^ 32)
      else c.msc_high in
    let high =
      if ltb_ℤ (pos c.msc_prev +ℤ pos 0x4000_0000) (int64 sequence)
      then sub64 up (2 ^ 32)
      else up in
    (record { msc_prev = sequence % 2 ^ 32; msc_high = high }, add64 high sequence)

-- The mask 0xffffffff00000000 of a uint64_t keeps what stands above the low 32 bits.
from_64bit : CrtcMsc → ℕ → CrtcMsc × ℕ
from_64bit c sequence =
    (record { msc_prev = sequence % 2 ^ 32; msc_high = sequence / 2 ^ 32 * 2 ^ 32 }, sequence)

unfoldable pub kernel_msc_to_crtc_msc : CrtcMsc → ℕ → Bool → CrtcMsc × ℕ
unfolding from_32bit from_64bit
kernel_msc_to_crtc_msc c sequence is64bit =
    if is64bit then from_64bit c sequence else from_32bit c sequence

-- The tracked state holds the true count `t`.
abbrev pub InSync : CrtcMsc → ℕ → Type 0
InSync c t = (c.msc_prev ≡ t % 2 ^ 32) × (c.msc_high ≡ t / 2 ^ 32 * 2 ^ 32)

-- Two true counts are at most 2^30 frames apart, in either order.
abbrev pub IsNear : ℕ → ℕ → Type 0
IsNear t u = (u ≤ t + 2 ^ 30) × (t ≤ u + 2 ^ 30)

-- What the kernel reports of the true count `u`: all of it, or its low 32 bits.
abbrev pub reported : ℕ → Bool → ℕ
reported u is64bit = if is64bit then u else u % 2 ^ 32

-- A 32-bit report of a count near the last one gives the count back, over a wrap either way.
from_32bit-InSync :
    (c : CrtcMsc) (t u : ℕ)
    → t < 2 ^ 64
    → u < 2 ^ 64
    → InSync c t
    → IsNear t u
    → ((from_32bit c (u % 2 ^ 32)).1 ≡ u) × InSync (from_32bit c (u % 2 ^ 32)).0 u
unfolding from_32bit
from_32bit-InSync c t u ht hu s n = ground arith

pub kernel_msc-InSync :
    (c : CrtcMsc) (t u : ℕ) (is64bit : Bool)
    → t < 2 ^ 64
    → u < 2 ^ 64
    → InSync c t
    → IsNear t u
    → ((kernel_msc_to_crtc_msc c (reported u is64bit) is64bit).1 ≡ u)
      × InSync (kernel_msc_to_crtc_msc c (reported u is64bit) is64bit).0 u
unfolding kernel_msc_to_crtc_msc
kernel_msc-InSync c t u true ht hu s n = (refl, (refl, refl))
kernel_msc-InSync c t u false ht hu s n = from_32bit-InSync c t u ht hu s n

-- A history of reports: the true count behind each, and its width.
pub run_reports : CrtcMsc → List (ℕ × Bool) → List ℕ
run_reports c [] = []
run_reports c ((u, is64bit) ∷ rest) =
    let (c', msc) = kernel_msc_to_crtc_msc c (reported u is64bit) is64bit in
    msc ∷ run_reports c' rest

abbrev pub counts : List (ℕ × Bool) → List ℕ
counts [] = []
counts ((u, is64bit) ∷ rest) = u ∷ counts rest

-- Each count fits 64 bits and is near the one before it.
abbrev pub IsSteady : ℕ → List (ℕ × Bool) → Type 0
IsSteady t [] = Unit {0}
IsSteady t ((u, is64bit) ∷ rest) = (u < 2 ^ 64) × IsNear t u × IsSteady u rest

-- Over a history of 32-bit and 64-bit reports in any mixture, in which each true count fits 64 bits
-- and is within 2^30 frames of the one before it, from a state that holds the true count, every
-- converted value is the true count.
pub run_reports-counts :
    (c : CrtcMsc) (t : ℕ) (rs : List (ℕ × Bool))
    → t < 2 ^ 64
    → InSync c t
    → IsSteady t rs
    → run_reports c rs ≡ counts rs
unfolding run_reports
run_reports-counts c t [] ht s steady = refl
run_reports-counts c t ((u, is64bit) ∷ rest) ht s (hu, near, steady) =
    let (value, sync) = kernel_msc-InSync c t u is64bit ht hu s near in
    let c' = (kernel_msc_to_crtc_msc c (reported u is64bit) is64bit).0 in
    ground (arith, value, run_reports-counts c' u rest hu sync steady)
