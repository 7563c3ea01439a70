-- ===== src/Base/Words.antt =====
-- The machine words of the code: a number kept below a power of two.
use Prim.Native.Nat.{ℕ, ◌%◌, ◌<◌}
use mathlib.Core.Path.{◌≡◌}
use native.Mathlib.Omega.{arith}

abbrev pub u32 : ℕ → ℕ
u32 n = n % 4294967296

-- Also usize, on a 64-bit target.
abbrev pub u64 : ℕ → ℕ
u64 n = n % 18446744073709551616

pub u64_small : (n : ℕ) → n < 18446744073709551616 → u64 n ≡ n
u64_small n h = omega arith
