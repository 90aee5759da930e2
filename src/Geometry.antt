-- ===== src/Geometry.antt =====
-- The fields and accessors of `Shape2D` (src/shape.rs). The constructor is in Shape.
use gudra.Common.{ℕ}

-- `interior` and `haloed` are `[u32; 2]`, `grid` is `[u16; 3]`.
pub record Shape2D : Type 0 where
  pub interior : ℕ × ℕ
  pub haloed : ℕ × ℕ
  pub interior_len : ℕ
  pub haloed_len : ℕ
  pub interior_bytes : ℕ
  pub haloed_bytes : ℕ
  pub grid : ℕ × ℕ × ℕ

-- The casts from `u32` to `usize` keep the value.
abbrev pub height : Shape2D → ℕ
height s = s.interior.0

abbrev pub width : Shape2D → ℕ
width s = s.interior.1
