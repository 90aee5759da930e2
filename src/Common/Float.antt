-- ===== src/Common/Float.antt =====
-- An `f32` is its bit pattern, a number below 2 ^ 32. Classification and comparison with zero are
-- read off the bits. The rounded arithmetic is a parameter, `Arithmetic`.
use Prim.Native.Nat.{ℕ, ◌%◌, ◌^◌}
use mathlib.Core.Bool.{Bool, ◌&&◌, ◌||◌}
use gudra.Common.Compare.{leb, ltb, ◌==◌}

abbrev pub F32 : Type 0
F32 = ℕ

abbrev pub f32_zero : F32
f32_zero = 0

abbrev pub f32_quarter : F32
f32_quarter = 0x3e80_0000

abbrev pub f32_one : F32
f32_one = 0x3f80_0000

abbrev pub f32_four : F32
f32_four = 0x4080_0000

-- The magnitude of infinity; larger magnitudes are NaN.
abbrev pub infinity_bits : ℕ
infinity_bits = 0x7f80_0000

abbrev pub sign_bit : ℕ
sign_bit = 2 ^ 31

-- Sign cleared: `f32::abs` on bits.
abbrev pub magnitude : F32 → ℕ
magnitude x = x % sign_bit

-- The exponent is not all ones.
unfoldable pub is_finite : F32 → Bool
is_finite x = ltb (magnitude x) infinity_bits

-- `x < 0.0`: false for NaN and for both zeros.
unfoldable pub is_negative : F32 → Bool
is_negative x = leb sign_bit x && ltb 0 (magnitude x) && leb (magnitude x) infinity_bits

-- `x <= 0.0`: false for NaN, true for both zeros.
unfoldable pub is_nonpositive : F32 → Bool
is_nonpositive x = magnitude x == 0 || leb sign_bit x && leb (magnitude x) infinity_bits

-- The IEEE operations of the host or of the device, on bit patterns.
pub record Arithmetic : Type 0 where
  pub add : F32 → F32 → F32
  pub sub : F32 → F32 → F32
  pub mul : F32 → F32 → F32
  pub div : F32 → F32 → F32
