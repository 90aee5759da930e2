-- ===== src/Error/Display.antt =====
-- The text of an error (src/error.rs: `fmt` of Display), as the list of its code points.
pub mod Numbers
use Prim.Native.Char.{code}
use gudra.Common.{
  ℕ, zero, suc, ◌+◌, ◌*◌, ◌/◌, ◌%◌, ◌==◌, ◌≡◌, refl, if◌then◌else◌, String, F32, List, [], ◌∷◌,
  ◌++◌,
}
use gudra.Geometry.{Shape2D, height, width}
use gudra.Error.{
  Error, invalid_resource_limits, resource_limit, empty_interior, shape_overflow, shape_limit,
  length_mismatch, shape_mismatch, context_mismatch, invalid_buffer, invalid_parameter, backend,
}

abbrev pub Text : Type 0
Text = List ℕ

abbrev pub codes : String → Text
codes String.[] = []
codes (String.◌∷◌ c s) = code c ∷ codes s

-- The digits of a number of at most so many digits, before what follows.
unfoldable pub emit : ℕ → ℕ → Text → Text
emit zero n out = out
emit (suc k) n out =
    let digits = (b'0' + n % 10) ∷ out in
    let longer = emit k (n / 10) digits in if n / 10 == 0 then digits else longer

-- `{}` of a usize, which has at most 20 digits, and the rest of the text.
unfoldable pub decimal : ℕ → Text → Text
unfolding emit
decimal n out = emit 20 n out

module _ (f32_text : F32 → Text) where
  unfoldable pub display : Error → Text
  display invalid_resource_limits =
      codes "resource limits must be positive and buffer bytes must fit total bytes"
  display (resource_limit resource maximum) =
      codes resource ++ codes " budget exceeded (maximum " ++ decimal maximum (codes ")")
  display (invalid_buffer buffer) =
      codes buffer ++ codes " is unavailable after an incomplete backend operation; drop it"
  display (empty_interior axis) = codes "interior " ++ codes axis ++ codes " must be positive"
  display (shape_overflow operation) = codes "shape arithmetic overflow: " ++ codes operation
  display (shape_limit quantity actual maximum) =
      codes quantity
      ++ codes " is "
      ++ decimal actual (codes "; supported maximum is " ++ decimal maximum [])
  display (length_mismatch buffer expected actual) =
      codes buffer
      ++ codes " length is "
      ++ decimal actual (codes "; expected " ++ decimal expected (codes " elements"))
  display (shape_mismatch buffer expected actual) =
      codes buffer
      ++ codes " shape is "
      ++ decimal (height actual) (
          codes "x"
          ++ decimal (width actual) (
              codes "; expected "
              ++ decimal (height expected) (codes "x" ++ decimal (width expected) [])))
  display (context_mismatch buffer) =
      codes buffer ++ codes " belongs to a different Gpu; upload it with this executor"
  display (invalid_parameter parameter value) =
      codes "invalid "
      ++ codes parameter
      ++ codes "="
      ++ f32_text value
      ++ codes "; parameter is outside its documented domain"
  display (backend operation message) = codes operation ++ codes ": " ++ codes message
