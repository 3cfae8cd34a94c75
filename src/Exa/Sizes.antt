-- ===== src/Exa/Sizes.antt =====
-- The memory of LS_AllocBuf is large enough for the pixels.
use xserver_xorg_video_loong.Base.{ℕ, ap, ◌+◌, ◌*◌, ◌/◌, ◌%◌, ◌^◌, ◌≤◌, ◌<◌, ◌≡◌, Option, arith}
use xserver_xorg_video_loong.Exa.{Buf, alloc_buf}

-- Rows start at multiples of 16 bytes, and the bits of every pixel lie in its row and in the memory.
pub record HoldsPixels (width height bpp : ℕ) (b : Buf) : Type 0 where
  pub aligned : b.pitch % 16 ≡ 0
  pub tight : 8 * b.pitch < width * bpp + 160
  pub in_row : (x : ℕ) → x < width → x * bpp + bpp ≤ 8 * b.pitch
  pub in_memory :
      (x y : ℕ) → x < width → y < height → 8 * (y * b.pitch) + (x * bpp + bpp) ≤ 8 * b.size

scaled : (a b k : ℕ) → a < b → a * k + k ≤ b * k
scaled a b k l = grind arith

-- The pitch as LS_AllocBuf computes it of the bits of a row.
abbrev pitch_of : ℕ → ℕ
pitch_of bits = ((bits + 31) / 2 ^ 5 * 4 % 2 ^ 32 + 15) % 2 ^ 32 / 16 * 16

-- The bits of a row, rounded up to whole units of 16 bytes, in bytes.
abbrev pub row_bytes : (width bpp : ℕ) → ℕ
row_bytes width bpp = (width * bpp + 127) / 128 * 16

pitch_rounded : (bits : ℕ) → bits + 31 < 2 ^ 31 → pitch_of bits ≡ (bits + 127) / 128 * 16
pitch_rounded bits small = omega arith

pitch_bounds :
    (bits : ℕ)
    → bits + 31 < 2 ^ 31
    → (pitch_of bits % 16 ≡ 0) × (bits ≤ 8 * pitch_of bits) × (8 * pitch_of bits < bits + 160)
pitch_bounds bits small = omega arith

pixel_fits :
    (bits pitch height y n : ℕ)
    → bits ≤ 8 * pitch
    → y < height
    → n ≤ bits
    → 8 * (y * pitch) + n ≤ 8 * (pitch * height)
pixel_fits bits pitch height y n wide l m =
    let r = scaled y height pitch l in
    let c : height * pitch ≡ pitch * height = grind arith in omega arith

-- Where the bits of a row and the rounding of FB_MASK fit an int, and the rows, each rounded up to 16
-- bytes, take less than 2^32 bytes together, LS_AllocBuf asks for memory that holds every pixel, in
-- rows that are aligned to 16 bytes and have less than 20 bytes to spare.
pub alloc_buf-HoldsPixels :
    (width height bpp : ℕ) (dat : Option ℕ)
    → width * bpp + 31 < 2 ^ 31
    → row_bytes width bpp * height < 2 ^ 32
    → HoldsPixels width height bpp (alloc_buf width height bpp dat)
unfolding alloc_buf
alloc_buf-HoldsPixels width height bpp dat small fits =
    let pitch = pitch_of (width * bpp) in
    let (aligned, wide, tight) = pitch_bounds (width * bpp) small in
    let whole : pitch * height ≡ row_bytes width bpp * height =
      ap (λ n. n * height) (pitch_rounded (width * bpp) small) in
    let unwrapped : pitch * height % 2 ^ 32 ≡ pitch * height = omega (arith, whole, fits) in
    record {
      aligned = aligned;
      tight = tight;
      in_row = λ x l. let p = scaled x width bpp l in omega arith;
      in_memory = λ x y l m.
          let p = scaled x width bpp l in
          rw unwrapped
            (pixel_fits (width * bpp) pitch height y (x * bpp + bpp) wide m (omega arith));
    }

mul_mono : (a b c d : ℕ) → a ≤ b → c ≤ d → a * c ≤ b * d
mul_mono a b c d l m = grind arith

-- The coordinates of the server go up to 32767, and a pixel has at most 32 bits: every such pixmap
-- is within these limits, the largest one included.
pub server_sizes_fit :
    (width height bpp : ℕ)
    → width ≤ 32767
    → height ≤ 32767
    → bpp ≤ 32
    → (width * bpp + 31 < 2 ^ 31) × (row_bytes width bpp * height < 2 ^ 32)
server_sizes_fit width height bpp w h b =
    let bits = mul_mono width 32767 bpp 32 w b in
    let rows : row_bytes width bpp ≤ 131072 = omega (arith, bits) in
    let all = mul_mono (row_bytes width bpp) 131072 height 32767 rows h in
    (omega (arith, bits), omega (arith, all))
