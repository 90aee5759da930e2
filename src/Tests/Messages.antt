-- ===== src/Tests/Messages.antt =====
-- Texts of errors.
use gudra.Common.{usize_max, ◌≡◌, refl, arith, F32, [], ◌∷◌, ◌++◌, none, some}
use gudra.Error.{length_mismatch, shape_limit, resource_limit, shape_mismatch}
use gudra.Error.Display.{Text, codes, emit, decimal, display}
use gudra.Error.Display.Numbers.{scan, number, after, numbers, numbers-display}
use gudra.Tests.Stencils.{single}

abbrev no_text : F32 → Text
no_text x = []

shown :
    (display no_text (length_mismatch "rhs" 323 0) ≡ codes "rhs length is 0; expected 323 elements")
    × (display no_text (resource_limit "live buffers" usize_max)
        ≡ codes "live buffers budget exceeded (maximum 18446744073709551615)")
unfolding display decimal emit
shown = (refl, refl)

-- A word that is not the one of the message is refused.
refused :
    numbers
      (codes "rhs is ")
      (codes "; supported minimum is " ∷ [] ∷ [])
      (display no_text (shape_limit "rhs" 10 323))
    ≡ none
unfolding display decimal emit numbers number after scan
refused = refl

numbers-display_example :
    (numbers
        (codes "rhs" ++ codes " length is ")
        (codes "; expected " ∷ codes " elements" ∷ [])
        (display no_text (length_mismatch "rhs" 323 10))
      ≡ some (10 ∷ 323 ∷ []))
    × (numbers
          (codes "rhs" ++ codes " is ")
          (codes "; supported maximum is " ∷ [] ∷ [])
          (display no_text (shape_limit "rhs" 10 323))
        ≡ some (10 ∷ 323 ∷ []))
    × (numbers
          (codes "rhs" ++ codes " budget exceeded (maximum ")
          (codes ")" ∷ [])
          (display no_text (resource_limit "rhs" 323))
        ≡ some (323 ∷ []))
    × (numbers
          (codes "rhs" ++ codes " shape is ")
          (codes "x" ∷ codes "; expected " ∷ codes "x" ∷ [] ∷ [])
          (display no_text (shape_mismatch "rhs" single single))
        ≡ some (1 ∷ 1 ∷ 1 ∷ 1 ∷ []))
numbers-display_example =
    numbers-display no_text "rhs" 323 10 single single (omega arith) (omega arith)
      (omega arith, omega arith) (omega arith, omega arith)
