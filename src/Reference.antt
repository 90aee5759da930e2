-- ===== src/Reference.antt =====
-- The scalar CPU reference (src/reference.rs): weighted Jacobi and the five-point Laplacian.
-- A sum, a difference or an index that Rust checks at run time panics.
pub mod Cells
pub mod Filled
pub mod Corners
use gudra.Common.{
  ℕ, ◌+◌, F32, f32_one, f32_quarter, f32_four, Arithmetic, List, get_elem?, length, checked_add,
  checked_mul, checked_sub, String,
}
use gudra.Geometry.{Shape2D, height, width}
use gudra.Error.{Error, Result, ok, err, panic, ◌>>=◌, or_panic, check_len}
use gudra.Params.{JacobiParams, LaplacianParams}
use gudra.Loop.{Effect, attempt, for_range, write}

-- The five cells of the stencil around an interior cell.
pub record Stencil : Type 0 where
  pub north : F32
  pub south : F32
  pub east : F32
  pub west : F32
  pub center : F32

module _ (m : Arithmetic) where
  open m use {add, sub, mul}

  -- north + south + east + west, left-associated.
  abbrev pub neighbours : Stencil → F32
  neighbours s = add (add (add s.north s.south) s.east) s.west

  unfoldable pub jacobi_value : JacobiParams → Stencil → F32 → F32
  jacobi_value params s rhs =
      let candidate = mul f32_quarter (sub (neighbours s) (mul params.h_squared rhs)) in
      add (mul (sub f32_one params.omega) s.center) (mul params.omega candidate)

  unfoldable pub laplacian_value : LaplacianParams → Stencil → F32
  laplacian_value params s =
      mul (sub (neighbours s) (mul f32_four s.center)) params.inverse_h_squared

abbrev read : List F32 → ℕ → Result F32
read xs i = or_panic (get_elem? xs i)

-- `(row + 1) * stride + column + 1`.
unfoldable pub source_index : ℕ → ℕ → ℕ → Result ℕ
source_index stride row column = do
  below ← or_panic (checked_add row 1)
  start ← or_panic (checked_mul below stride)
  left ← or_panic (checked_add start column)
  or_panic (checked_add left 1)

-- `row * width + column`.
unfoldable pub cell_index : ℕ → ℕ → ℕ → Result ℕ
cell_index width row column = do
  start ← or_panic (checked_mul row width)
  or_panic (checked_add start column)

unfoldable pub read_stencil : List F32 → ℕ → ℕ → Result Stencil
read_stencil haloed stride index = do
  north_index ← or_panic (checked_sub index stride)
  north ← read haloed north_index
  south_index ← or_panic (checked_add index stride)
  south ← read haloed south_index
  east_index ← or_panic (checked_add index 1)
  east ← read haloed east_index
  west_index ← or_panic (checked_sub index 1)
  west ← read haloed west_index
  center ← read haloed index
  ok (record { north = north; south = south; east = east; west = west; center = center })

module _ (m : Arithmetic) where
  -- The body of the two loops of `jacobi_into`.
  unfoldable pub jacobi_cell :
      ℕ → ℕ → List F32 → List F32 → JacobiParams → ℕ → ℕ → List F32 → Effect (List F32)
  jacobi_cell stride width haloed rhs params row column =
      attempt (source_index stride row column) λ index.
        attempt (cell_index width row column) λ cell.
          attempt (read_stencil haloed stride index)
            λ s. attempt (read rhs cell) λ forcing. write cell (jacobi_value m params s forcing)

  unfoldable pub laplacian_cell :
      ℕ → ℕ → List F32 → LaplacianParams → ℕ → ℕ → List F32 → Effect (List F32)
  laplacian_cell stride width haloed params row column =
      attempt (source_index stride row column) λ index.
        attempt (read_stencil haloed stride index)
          λ s. attempt (cell_index width row column) λ cell. write cell (laplacian_value m params s)

  -- The output afterwards, and the result.
  unfoldable pub jacobi_into :
      Shape2D → List F32 → List F32 → List F32 → JacobiParams → Effect (List F32)
  unfolding jacobi_cell
  jacobi_into shape haloed rhs output params =
      attempt (check_len "source" shape.haloed_len (length haloed))
        (λ _. attempt (check_len "rhs" shape.interior_len (length rhs)) λ _.
          attempt (check_len "output" shape.interior_len (length output)) λ _.
            attempt (or_panic (checked_add (width shape) 2)) λ stride.
              for_range
                (λ row.
                  for_range (jacobi_cell stride (width shape) haloed rhs params row) (width shape)
                    0)
                (height shape) 0)
        output

  unfoldable pub laplacian_into :
      Shape2D → List F32 → List F32 → LaplacianParams → Effect (List F32)
  unfolding laplacian_cell
  laplacian_into shape haloed output params =
      attempt (check_len "source" shape.haloed_len (length haloed))
        (λ _. attempt (check_len "output" shape.interior_len (length output)) λ _.
          attempt (or_panic (checked_add (width shape) 2)) λ stride.
            for_range
              (λ row.
                for_range (laplacian_cell stride (width shape) haloed params row) (width shape) 0)
              (height shape) 0)
        output
