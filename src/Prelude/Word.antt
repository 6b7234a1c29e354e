-- ===== src/Prelude/Word.antt =====
-- `unsigned int` and `size_t` are 32 bits wide: sums and differences wrap.
use Prim.Native.Nat.{ℕ, ◌+◌, ◌-◌, ◌*◌, ◌/◌, ◌%◌, ◌^◌}

abbrev pub u32_size : ℕ
u32_size = 0x1_0000_0000

abbrev pub u32_max : ℕ
u32_max = 0xFFFF_FFFF

abbrev pub u32 : ℕ → ℕ
u32 n = n % u32_size

abbrev pub u8 : ℕ → ℕ
u8 n = n % 256

abbrev pub add32 : ℕ → ℕ → ℕ
add32 a b = (a + b) % u32_size

-- `-` on ℕ stops at 0, so the modulus is added first.
abbrev pub sub32 : ℕ → ℕ → ℕ
sub32 a b = (a + u32_size - b) % u32_size

abbrev pub mul32 : ℕ → ℕ → ℕ
mul32 a b = (a * b) % u32_size

infixl 75 ◌<<◌ ◌>>◌
-- A left shift of a 32-bit word drops the bits that leave it.
abbrev pub ◌<<◌ : ℕ → ℕ → ℕ
x << k = (x * 2 ^ k) % u32_size

abbrev pub ◌>>◌ : ℕ → ℕ → ℕ
x >> k = x / 2 ^ k
