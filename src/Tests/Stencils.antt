-- ===== src/Tests/Stencils.antt =====
-- Runs of the reference on a single interior cell.
use gudra.Common.{
  zero, suc, ◌+◌, ◌-◌, ◌*◌, ◌/◌, ◌≡◌, refl, arith, F32, Arithmetic, List, [], ◌∷◌, checked_add,
  checked_mul, checked_sub,
}
use gudra.Geometry.{Shape2D}
use gudra.Error.{ok, err, check_len, length_mismatch}
use gudra.Shape.Domain.{IsValid}
use gudra.Params.{JacobiParams, LaplacianParams}
use gudra.Loop.{for_range}
use gudra.Reference.{
  jacobi_into, laplacian_into, jacobi_value, source_index, cell_index, read_stencil,
}
use gudra.Reference.Filled.{
  JacobiOutcome, LaplacianOutcome, jacobi_into-JacobiOutcome, laplacian_into-LaplacianOutcome,
}
use gudra.Reference.Corners.{AgreeOffCorners, jacobi_into_corners}

-- One interior cell, its four neighbours and the corners.
abbrev pub single : Shape2D
single = record {
  interior = (1, 1);
  haloed = (3, 3);
  interior_len = 1;
  haloed_len = 9;
  interior_bytes = 4;
  haloed_bytes = 36;
  grid = (1, 1, 1);
}

pub single-IsValid : IsValid single
single-IsValid = omega arith

-- Sums and products of the bit patterns as numbers, which shows the order of the operations.
abbrev pub plain : Arithmetic
plain = record { add = λ a b. a + b; sub = λ a b. a - b; mul = λ a b. a * b; div = λ a b. a / b }

abbrev pub source : List F32
source = 0 ∷ 1 ∷ 0 ∷ 6 ∷ 4 ∷ 2 ∷ 0 ∷ 3 ∷ 0 ∷ []

abbrev other_corners : List F32
other_corners = 9 ∷ 1 ∷ 8 ∷ 6 ∷ 4 ∷ 2 ∷ 7 ∷ 3 ∷ 5 ∷ []

abbrev pub rhs : List F32
rhs = 2 ∷ []

abbrev pub output : List F32
output = 77 ∷ []

abbrev pub params : JacobiParams
params = record { omega = 2; h_squared = 5 }

abbrev pub spacing : LaplacianParams
spacing = record { inverse_h_squared = 3 }

-- (1 - omega) * center + omega * (0.25 * (1 + 3 + 2 + 6 - 5 * 2)).
single_update :
    jacobi_into plain single source rhs output params
    ≡ (((0x3f80_0000 - 2) * 4 + 2 * (0x3e80_0000 * 2)) ∷ [], ok tt)
unfolding jacobi_into jacobi_value source_index cell_index read_stencil check_len checked_add
    checked_mul checked_sub for_range
single_update = refl

short_output :
    jacobi_into plain single source rhs [] params ≡ ([], err (length_mismatch "output" 1 0))
unfolding jacobi_into check_len
short_output = refl

jacobi_into-JacobiOutcome_example :
    JacobiOutcome plain single source rhs output params
      (jacobi_into plain single source rhs output params)
jacobi_into-JacobiOutcome_example =
    jacobi_into-JacobiOutcome plain single source rhs output params single-IsValid

laplacian_into-LaplacianOutcome_example :
    LaplacianOutcome plain single source output spacing
      (laplacian_into plain single source output spacing)
laplacian_into-LaplacianOutcome_example =
    laplacian_into-LaplacianOutcome plain single source output spacing single-IsValid

corners_agree : AgreeOffCorners 1 1 source other_corners
corners_agree zero zero off = absurd (omega arith)
corners_agree zero (suc zero) off = refl
corners_agree zero (suc (suc c)) off = absurd (omega arith)
corners_agree (suc zero) zero off = refl
corners_agree (suc zero) (suc zero) off = refl
corners_agree (suc zero) (suc (suc zero)) off = refl
corners_agree (suc zero) (suc (suc (suc c))) off = absurd (omega arith)
corners_agree (suc (suc zero)) zero off = absurd (omega arith)
corners_agree (suc (suc zero)) (suc zero) off = refl
corners_agree (suc (suc zero)) (suc (suc c)) off = absurd (omega arith)
corners_agree (suc (suc (suc r))) c off = absurd (omega arith)

jacobi_into_corners_example :
    jacobi_into plain single source rhs output params
    ≡ jacobi_into plain single other_corners rhs output params
jacobi_into_corners_example =
    jacobi_into_corners plain single source other_corners output rhs params single-IsValid refl refl
      refl refl corners_agree
