-- ===== src/Prelude/Words.antt =====
-- Go's unsigned integers: a value is a plain number, and an operation that may pass the width
-- wraps.
use Prim.Native.Nat.{ℕ, ◌+◌, ◌%◌, ◌^◌}
use mathlib.Core.Path.{◌≡◌}
use native.Mathlib.Omega.{arith}

abbrev pub u8 : ℕ → ℕ
u8 n = n % 2 ^ 8

abbrev pub u16 : ℕ → ℕ
u16 n = n % 2 ^ 16

abbrev pub u32 : ℕ → ℕ
u32 n = n % 2 ^ 32

abbrev pub u64 : ℕ → ℕ
u64 n = n % 2 ^ 64

-- `atomic.AddUint64(p, d)`.
abbrev pub add_u64 : ℕ → ℕ → ℕ
add_u64 n d = u64 (n + d)

pub add_u64_assoc : (n a b : ℕ) → add_u64 (add_u64 n a) b ≡ add_u64 n (a + b)
add_u64_assoc n a b = omega arith
