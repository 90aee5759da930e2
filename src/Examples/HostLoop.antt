-- ===== src/Examples/HostLoop.antt =====
-- The iteration on the host (examples/poisson_timesteps.rs, examples/poisson_residual.rs):
-- `jacobi_into`, and its output copied back between the halo, row by row.
pub mod Copied
pub mod Iterated
use gudra.Common.{
  ℕ, zero, suc, ◌+◌, ◌-◌, ◌*◌, ◌≤◌, ◌<◌, ◌≡◌, refl, sym, ◌∙◌, ap, arith, ◌&&◌, leb, ltb, ◌==◌,
  Bool-cases, if◌then◌else◌, inl, inr, List, [], ◌∷◌, length, get_or, checked_add, checked_mul,
  checked_add-eq-some, checked_mul-eq-some, F32, f32_zero, Arithmetic, true, i32_max, usize_max,
}
use gudra.Geometry.{Shape2D, height, width}
use gudra.Error.{Result, ok, panic, or_panic}
use gudra.Params.{JacobiParams}
use gudra.Loop.{Effect, attempt, and_then, for_range, grid}
use gudra.Reference
use gudra.Examples.Slices.{range, copy_from_slice}

module _ (shape : Shape2D) where
  -- One row of the output over the interior of one row of the grid.
  unfoldable pub copy_row : List F32 → ℕ → List F32 → Effect (List F32)
  copy_row output row = attempt (or_panic (checked_add row 1)) λ below.
      attempt (or_panic (checked_add (width shape) 2)) λ stride.
        attempt (or_panic (checked_mul below stride)) λ left.
          attempt (or_panic (checked_add left 1)) λ start.
            attempt (or_panic (checked_add start (width shape))) λ end.
              attempt (or_panic (checked_mul row (width shape))) λ from.
                attempt (or_panic (checked_mul below (width shape)))
                  λ to. attempt (range output from to) λ values. copy_from_slice start end values

  unfoldable pub copy_rows : List F32 → List F32 → Effect (List F32)
  unfolding copy_row
  copy_rows output = for_range (copy_row output) (height shape) 0

module _ (m : Arithmetic) (shape : Shape2D) (rhs : List F32) (params : JacobiParams) where
  -- One turn of the loop, on the grid and the output.
  unfoldable pub host_turn : List F32 × List F32 → Effect (List F32 × List F32)
  unfolding copy_rows
  host_turn (oracle, output) =
      let (output, r) = Reference.jacobi_into m shape oracle rhs output params in
      and_then ((oracle, output), r)
        λ (oracle, output). let (oracle, r) = copy_rows shape output oracle in ((oracle, output), r)

  unfoldable pub host_loop : ℕ → List F32 × List F32 → Effect (List F32 × List F32)
  unfolding host_turn
  host_loop turns = for_range (λ turn. host_turn) turns 0
