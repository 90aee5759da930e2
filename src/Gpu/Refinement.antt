-- ===== src/Gpu/Refinement.antt =====
-- A step on the device against the CPU reference.
use gudra.Common.{ℕ, ◌<◌, ◌≡◌, ◌∙◌, ap, arith, F32, Arithmetic, some, List, length}
use gudra.Geometry.{Shape2D, height, width}
use gudra.Error.{Result, ok}
use gudra.Shape.{tile}
use gudra.Shape.Domain.{IsValid}
use gudra.Admission.Decision.{InRange}
use gudra.Params.{JacobiParams}
use gudra.Reference
use gudra.Reference.{Stencil, jacobi_value, laplacian_value}
use gudra.Reference.Cells.{at}
use gudra.Backend.{Backend, done, TileLaws, LaunchLaws}
use gudra.Session.{Session, State}
use gudra.Session.Scopes.{own_budget}
use gudra.Gpu.{HaloGrid2D, Field2D}
use gudra.Gpu.Accepted.{Accepts, validate_step-eq_ok_iff}
use gudra.Gpu.Validation.{validate_step}
use gudra.Gpu.Reads.{SliceLaws}
use gudra.Gpu.Steps.{step_into, jacobi_on}
use gudra.Gpu.Outcome.{step_into-StepOutcome, launched}
use gudra.Gpu.Written.{jacobi_into-ok, run_blocks-jacobi_into}
use gudra.Gpu.Around.{Holds, StepOutcome-final}

module _ (b : Backend) (session : Session) (source : HaloGrid2D b) (rhs : Field2D b) (s : State b)
    (output : Field2D b) where
  -- The step meets no obstacle: it is valid, a slot is free, and the backend does its part.
  pub record Runs : Type 0 where
    pub valid : IsValid source.storage.shape
    pub range : InRange (own_budget b session s).limits
    pub accepts : Accepts b session source rhs output
    pub slot :
        (own_budget b session s).usage.operations < (own_budget b session s).limits.operations
    pub binds : (b.bind_to_thread session.ordinal s.world).1 ≡ done tt
    pub ends : (launched b session s output).ended ≡ done tt

module _ (b : Backend) (tiles : TileLaws b) (slices : SliceLaws b) (launches : LaunchLaws b)
    (m : Arithmetic) (session : Session) (source : HaloGrid2D b) (rhs : Field2D b)
    (params : JacobiParams) (s : State b) (output : Field2D b) where
  abbrev shape : Shape2D
  shape = source.storage.shape

  abbrev h : ℕ
  h = height shape

  abbrev w : ℕ
  w = width shape

  abbrev stepped : (State b × Field2D b) × Result (Unit {0})
  stepped = step_into b m session source rhs params (s, output)

  module _ (runs : Runs b session source rhs s output) (haloed forcing out : List F32)
      (source_size : shape.haloed_len ≡ length haloed)
      (rhs_size : shape.interior_len ≡ length forcing) (out_size : shape.interior_len ≡ length out)
      (source_holds : Holds b source.storage.tensor shape.haloed.0 shape.haloed.1 haloed)
      (rhs_holds : Holds b rhs.storage.tensor h w forcing) (r c : ℕ) (hr : r < h) (hc : c < w) where
    open runs use {valid, range, accepts, slot, binds, ends}

    -- Under the documented behaviour of tiles, slices and launches, a step that meets no obstacle
    -- succeeds on the device; `jacobi_into` succeeds on the host slices that the source and
    -- the right-hand side hold; and for one arithmetic on both, the output of the device holds
    -- at every interior cell (r, c) what the CPU reference leaves there.
    pub step_into-jacobi_into :
        let cpu = Reference.jacobi_into m shape haloed forcing out params in
        (stepped.1 ≡ ok tt)
        × (cpu.1 ≡ ok tt)
        × (b.cell stepped.0.1.storage.tensor r c ≡ at cpu.0 w r c)
    step_into-jacobi_into =
        let device =
          StepOutcome-final b slices session source (jacobi_on b m rhs params) s output valid
            accepts.source_usable slot binds ends (validate_step b session source rhs (some output))
            stepped ((validate_step-eq_ok_iff b session source rhs output).1 accepts)
            (step_into-StepOutcome b m session source s output rhs params range) in
        (
          device.0,
          jacobi_into-ok b tiles slices m session source rhs output params valid accepts haloed
              forcing out source_size rhs_size out_size source_holds rhs_holds,
          ap (λ t. b.cell t r c) device.1
              ∙ run_blocks-jacobi_into b tiles slices m session source rhs output params valid
                  accepts haloed forcing out source_size rhs_size out_size source_holds rhs_holds
                  (launched b session s output).ran r c hr hc
                  (launches.covers tile output.storage.tensor _ h w r c (omega arith)
                    accepts.output_usable.extents hr hc ends),
        )
