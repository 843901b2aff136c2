-- ===== src/Prelude/Words.antt =====
-- Machine words as native numbers: `usize` and `u64` have 64 bits. Arithmetic wraps, as in the
-- release profile and in the atomics' `fetch_add`.
use Prim.Native.Nat.{ℕ, ◌+◌, ◌-◌, ◌*◌, ◌%◌, ◌^◌, ◌≤◌, ◌<◌, min}
use native.Mathlib.Omega.{arith}
use native.Mathlib.Nat.{one-le-pow, pow-le-pow_right}

abbrev pub u64_max : ℕ
u64_max = 2 ^ 64 - 1

abbrev pub u32_max : ℕ
u32_max = 2 ^ 32 - 1

abbrev pub add64 : ℕ → ℕ → ℕ
add64 a b = (a + b) % 2 ^ 64

abbrev pub add32 : ℕ → ℕ → ℕ
add32 a b = (a + b) % 2 ^ 32

-- `a - b` on u64 and u32; the modulus comes first, since `-` stops at 0.
abbrev pub sub64 : ℕ → ℕ → ℕ
sub64 a b = (a + 2 ^ 64 - b) % 2 ^ 64

abbrev pub sub32 : ℕ → ℕ → ℕ
sub32 a b = (a + 2 ^ 32 - b) % 2 ^ 32

abbrev pub saturating_add : ℕ → ℕ → ℕ
saturating_add a b = min (a + b) u64_max

abbrev pub saturating_mul : ℕ → ℕ → ℕ
saturating_mul a b = min (a * b) u64_max

pub two_pow_pos : (n : ℕ) → 0 < 2 ^ n
two_pow_pos n = one-le-pow n 2 (omega arith)

pub two_pow-le : (a b : ℕ) → a ≤ b → 2 ^ a ≤ 2 ^ b
two_pow-le a b h = pow-le-pow_right (omega arith) h
