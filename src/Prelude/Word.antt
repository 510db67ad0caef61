-- ===== src/Prelude/Word.antt =====
-- Machine words: casts to the fixed widths, and the byte swaps that `htons`, `ntohs`, `htonl` and
-- `ntohl` are on a little-endian machine (include/linux/byteorder/little_endian.h, swab.h).
use Prim.Native.Nat.{ℕ, ◌+◌, ◌-◌, ◌*◌, ◌/◌, ◌%◌, ◌^◌, ◌<◌}
use mathlib.Core.Path.{◌≡◌}
use mathlib.Core.Bool.{Bool}
use native.Mathlib.Omega.{arith}
use non_os_lite.Prelude.Tests.{ltb}

abbrev pub u8 : ℕ → ℕ
u8 n = n % 2 ^ 8

abbrev pub u16 : ℕ → ℕ
u16 n = n % 2 ^ 16

abbrev pub u32 : ℕ → ℕ
u32 n = n % 2 ^ 32

abbrev pub u64 : ℕ → ℕ
u64 n = n % 2 ^ 64

-- `(ulong)(a - b)`, for `a` and `b` below 2 ^ 32.
abbrev pub sub32 : ℕ → ℕ → ℕ
sub32 a b = (a + 2 ^ 32 - b) % 2 ^ 32

abbrev pub swab16 : ℕ → ℕ
swab16 x = x % 256 * 256 + x / 256 % 256

abbrev pub swab32 : ℕ → ℕ
swab32 x = x % 256 * 2 ^ 24 + x / 256 % 256 * 2 ^ 16 + x / 2 ^ 16 % 256 * 256 + x / 2 ^ 24 % 256

pub swab16-swab16 : (x : ℕ) → x < 2 ^ 16 → swab16 (swab16 x) ≡ x
swab16-swab16 x h = omega arith

pub swab32-swab32 : (x : ℕ) → x < 2 ^ 32 → swab32 (swab32 x) ≡ x
swab32-swab32 x h = omega arith

-- `a < b` of two `int`s, each given by its bit pattern.
abbrev pub slt32 : ℕ → ℕ → Bool
slt32 a b = ltb ((a + 2 ^ 31) % 2 ^ 32) ((b + 2 ^ 31) % 2 ^ 32)
