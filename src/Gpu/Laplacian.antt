-- ===== src/Gpu/Laplacian.antt =====
-- A Laplacian on the device against the CPU reference.
use gudra.Common.{
  ℕ, ◌<◌, ◌≡◌, sym, ◌∙◌, ap, arith, F32, f32_zero, Arithmetic, none, some, List, length,
}
use gudra.Geometry.{Shape2D, height, width}
use gudra.Error.{Result, ok}
use gudra.Shape.{tile}
use gudra.Shape.Domain.{IsValid}
use gudra.Admission.Decision.{InRange}
use gudra.Params.{LaplacianParams}
use gudra.Loop.Cells.{get_or-grid}
use gudra.Reference
use gudra.Reference.{Stencil, jacobi_value, laplacian_value}
use gudra.Reference.Cells.{at}
use gudra.Reference.Filled.{laplacian_into-grid}
use gudra.Backend.{Backend, done, TileLaws, LaunchLaws}
use gudra.Kernels.Blocks.{cell-laplacian}
use gudra.Session.{Session, State}
use gudra.Session.Scopes.{own_budget}
use gudra.Gpu.{HaloGrid2D, Field2D}
use gudra.Gpu.Accepted.{AcceptsOutput, validate_fields-eq_ok_iff}
use gudra.Gpu.Validation.{validate_fields}
use gudra.Gpu.Reads.{SliceLaws}
use gudra.Gpu.Steps.{laplacian_into, laplacian_on}
use gudra.Gpu.Outcome.{laplacian_into-StepOutcome, launched}
use gudra.Gpu.Around.{Holds, read_views, same_stencil, StepOutcome-final}

module _ (b : Backend) (session : Session) (source : HaloGrid2D b) (s : State b)
    (output : Field2D b) where
  -- The operation meets no obstacle: its buffers are valid, a slot is free, and the backend does its
  -- part.
  pub record Unhindered : Type 0 where
    pub valid : IsValid source.storage.shape
    pub range : InRange (own_budget b session s).limits
    pub accepts : AcceptsOutput b session source output
    pub slot :
        (own_budget b session s).usage.operations < (own_budget b session s).limits.operations
    pub binds : (b.bind_to_thread session.ordinal s.world).1 ≡ done tt
    pub ends : (launched b session s output).ended ≡ done tt

module _ (b : Backend) (tiles : TileLaws b) (slices : SliceLaws b) (launches : LaunchLaws b)
    (m : Arithmetic) (session : Session) (source : HaloGrid2D b) (params : LaplacianParams)
    (s : State b) (output : Field2D b) where
  abbrev shape : Shape2D
  shape = source.storage.shape

  abbrev h : ℕ
  h = height shape

  abbrev w : ℕ
  w = width shape

  abbrev applied : (State b × Field2D b) × Result (Unit {0})
  applied = laplacian_into b m session source params (s, output)

  module _ (runs : Unhindered b session source s output) (haloed out : List F32)
      (source_size : shape.haloed_len ≡ length haloed) (out_size : shape.interior_len ≡ length out)
      (source_holds : Holds b source.storage.tensor shape.haloed.0 shape.haloed.1 haloed) (r c : ℕ)
      (hr : r < h) (hc : c < w) where
    open runs use {valid, range, accepts, slot, binds, ends}

    -- Under the documented behaviour of tiles, slices and launches, a Laplacian that meets no
    -- obstacle succeeds on the device; the `laplacian_into` of the CPU succeeds on the host slice
    -- that the source holds; and for one arithmetic on both, the output of the device holds at
    -- every interior cell (r, c) what the CPU reference leaves there.
    pub laplacian_into-laplacian_into :
        let cpu = Reference.laplacian_into m shape haloed out params in
        (applied.1 ≡ ok tt)
        × (cpu.1 ≡ ok tt)
        × (b.cell applied.0.1.storage.tensor r c ≡ at cpu.0 w r c)
    laplacian_into-laplacian_into =
        let device =
          StepOutcome-final b slices session source (laplacian_on b m params) s output valid
            accepts.source_usable slot binds ends
            (validate_fields b session source none (some output)) applied
            ((validate_fields-eq_ok_iff b session source output).1 accepts)
            (laplacian_into-StepOutcome b m session source s output params range) in
        let host = laplacian_into-grid m shape valid haloed out source_size out_size params in
        (
          device.0,
          ap (λ e. e.1) host,
          ap (λ t. b.cell t r c) device.1
              ∙ cell-laplacian b tiles m h w
                  (read_views b tiles slices m session source valid accepts.source_usable)
                  output.storage.tensor params (launched b session s output).ran r c
                  accepts.output_usable.extents hr hc
                  (launches.covers tile output.storage.tensor _ h w r c (omega arith)
                    accepts.output_usable.extents hr hc ends)
              ∙ ap (laplacian_value m params) (
                  same_stencil b tiles slices m session source valid accepts.source_usable haloed
                    source_holds r c hr hc)
              ∙ sym (get_or-grid h w _ r c f32_zero hr hc)
              ∙ ap (λ e. at e.0 w r c) (sym host),
        )
