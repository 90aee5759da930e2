-- ===== src/Common/Words.antt =====
-- Machine words as natural numbers: `usize` of a 64-bit target, `isize`, `i32`, `u32`, `u16`.
use Prim.Native.Nat.{ℕ, ◌+◌, ◌-◌, ◌*◌, ◌/◌, ◌%◌, ◌^◌, ◌≤◌, ◌<◌}
use mathlib.Core.Path.{◌≡◌}
use mathlib.Core.Option.{Option, none, some}
use native.Mathlib.Omega.{arith}
use gudra.Common.Compare.{leb, ◌==◌, if◌then◌else◌}

abbrev pub usize_mod : ℕ
usize_mod = 2 ^ 64

abbrev pub usize_max : ℕ
usize_max = 2 ^ 64 - 1

abbrev pub isize_max : ℕ
isize_max = 2 ^ 63 - 1

abbrev pub i32_max : ℕ
i32_max = 2 ^ 31 - 1

abbrev pub u32_max : ℕ
u32_max = 2 ^ 32 - 1

abbrev pub u16_max : ℕ
u16_max = 2 ^ 16 - 1

-- `size_of::<f32>()`.
abbrev pub f32_size : ℕ
f32_size = 4

-- The checked operations of `usize`; `none` is an overflow.
unfoldable pub checked_add : ℕ → ℕ → Option ℕ
checked_add a b = if leb (a + b) usize_max then some (a + b) else none

unfoldable pub checked_mul : ℕ → ℕ → Option ℕ
checked_mul a b = if leb (a * b) usize_max then some (a * b) else none

unfoldable pub checked_sub : ℕ → ℕ → Option ℕ
checked_sub a b = if leb b a then some (a - b) else none

-- `usize::div_ceil` by a positive divisor.
unfoldable pub div_ceil : ℕ → ℕ → ℕ
div_ceil a b = if a % b == 0 then a / b else a / b + 1

pub checked_add-eq-some : (a b : ℕ) → a + b ≤ usize_max → checked_add a b ≡ some (a + b)
unfolding checked_add
checked_add-eq-some a b h = ground arith

pub checked_mul-eq-some : (a b : ℕ) → a * b ≤ usize_max → checked_mul a b ≡ some (a * b)
unfolding checked_mul
checked_mul-eq-some a b h = ground arith

pub checked_sub-eq-some : (a b : ℕ) → b ≤ a → checked_sub a b ≡ some (a - b)
unfolding checked_sub
checked_sub-eq-some a b h = ground arith

pub div_ceil_bounds : (a : ℕ) → 0 < a → (16 * (div_ceil a 16 - 1) < a) × (a ≤ 16 * div_ceil a 16)
unfolding div_ceil
div_ceil_bounds a h = ground arith
