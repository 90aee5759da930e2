-- ===== src/Common.antt =====
-- Names, tests and lemmas that every component shares: the library's names passed on, Boolean
-- tests, lists with native indices, machine words and the bit patterns of `f32`.
mod Compare
mod Lists
mod Words
mod Float
pub use Compare.*
pub use Lists.*
pub use Words.*
unfoldable pub use Words.{checked_add, checked_mul, checked_sub, div_ceil}
pub use Float.*
unfoldable pub use Float.{is_finite, is_negative, is_nonpositive}
pub use Prim.Native.Nat.{ℕ, zero, suc, ◌+◌, ◌-◌, ◌*◌, ◌/◌, ◌%◌, ◌^◌, ◌≤◌, ◌<◌}
pub use Prim.Native.String.{String}
pub use mathlib.Core.Path.{◌≡◌, refl, sym, ap, ap₂, ◌∙◌, subst, fun_ext}
pub use mathlib.Core.Logic.{◌≢◌, ◌↔◌, ◌⊎◌, inl, inr}
pub use mathlib.Core.Bool.{Bool, true, false, ◌&&◌, ◌||◌, not}
pub use mathlib.Core.Option.{Option, none, some}
pub use mathlib.Core.List.{List, [], ◌∷◌, ◌++◌, map}
pub use native.Mathlib.Omega.{arith}
