-- ===== src/Base/Words.antt =====
-- The machine words of the two processes: the client is a 32-bit program, the server a 64-bit
-- one, so `size_t` wraps at another modulus in each (src/util/util_common.h chooses by _WIN64).
use Prim.Native.Nat.{ℕ, suc, ◌+◌, ◌-◌, ◌*◌, ◌%◌, ◌^◌, ◌<◌, ◌≤◌}
use mathlib.Core.Path.{◌≡◌}
use native.Mathlib.Omega.{arith}

pub data Arch : Type 0 where
  x86 x64 : Arch

abbrev pub u32_mod : ℕ
u32_mod = 2 ^ 32

abbrev pub size_mod : Arch → ℕ
size_mod x86 = 2 ^ 32
size_mod x64 = 2 ^ 64

-- `size_t` sums and differences.
unfoldable pub add_size : Arch → ℕ → ℕ → ℕ
add_size m a b = (a + b) % size_mod m

unfoldable pub sub_size : Arch → ℕ → ℕ → ℕ
sub_size m a b = (a + size_mod m - b) % size_mod m

unfoldable pub mul_size : Arch → ℕ → ℕ → ℕ
mul_size m a b = a * b % size_mod m

-- `uint32_t` sums, differences and products.
abbrev pub add32 : ℕ → ℕ → ℕ
add32 a b = (a + b) % u32_mod

abbrev pub sub32 : ℕ → ℕ → ℕ
sub32 a b = (a + u32_mod - b) % u32_mod

abbrev pub mul32 : ℕ → ℕ → ℕ
mul32 a b = a * b % u32_mod

-- Nothing wraps below the smaller of the two ranges.
pub add_size-eq : (m : Arch) (a b : ℕ) → a + b < 2 ^ 32 → add_size m a b ≡ a + b
unfolding add_size
add_size-eq x86 a b h = omega arith
add_size-eq x64 a b h = omega arith

pub sub_size-eq : (m : Arch) (a b : ℕ) → b ≤ a → a < 2 ^ 32 → sub_size m a b ≡ a - b
unfolding sub_size
sub_size-eq x86 a b h k = omega arith
sub_size-eq x64 a b h k = omega arith

pub add_size-zero : (m : Arch) (a : ℕ) → a < size_mod m → add_size m a 0 ≡ a
unfolding add_size
add_size-zero x86 a h = omega arith
add_size-zero x64 a h = omega arith

pub add_size-lt : (m : Arch) (a b : ℕ) → add_size m a b < size_mod m
unfolding add_size
add_size-lt x86 a b = omega arith
add_size-lt x64 a b = omega arith

-- Counting one by one wraps as counting at once does.
pub add_size-suc : (m : Arch) (a n : ℕ) → add_size m (add_size m a 1) n ≡ add_size m a (suc n)
unfolding add_size
add_size-suc x86 a n = omega arith
add_size-suc x64 a n = omega arith
