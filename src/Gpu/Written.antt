-- ===== src/Gpu/Written.antt =====
-- The cells that the blocks of a Jacobi launch write, against the CPU reference.
use gudra.Common.{ℕ, ◌/◌, ◌<◌, ◌≡◌, sym, ◌∙◌, ap, ap₂, f32_zero, F32, Arithmetic, List, length}
use gudra.Geometry.{Shape2D, height, width}
use gudra.Error.{ok}
use gudra.Shape.{tile}
use gudra.Shape.Domain.{IsValid}
use gudra.Params.{JacobiParams}
use gudra.Loop.{grid}
use gudra.Loop.Cells.{get_or-grid, grid_ext, length-grid}
use gudra.Reference
use gudra.Reference.{jacobi_value}
use gudra.Reference.Cells.{at}
use gudra.Reference.Filled.{jacobi_grid, jacobi_into-grid}
use gudra.Backend.{Backend, Block, TileLaws, ◌∈◌}
use gudra.Kernels.{run_blocks}
use gudra.Kernels.Blocks.{cell-jacobi, shape-jacobi}
use gudra.Session.{Session}
use gudra.Gpu.{HaloGrid2D, Field2D}
use gudra.Gpu.Accepted.{Accepts}
use gudra.Gpu.Reads.{SliceLaws, views_of}
use gudra.Gpu.Around.{Holds, read_views, same_stencil}
use gudra.Gpu.Steps.{jacobi_on}

module _ (b : Backend) (tiles : TileLaws b) (slices : SliceLaws b) (m : Arithmetic)
    (session : Session) (source : HaloGrid2D b) (rhs output : Field2D b) (params : JacobiParams)
    (valid : IsValid source.storage.shape) (accepts : Accepts b session source rhs output)
    (haloed forcing out : List F32) where
  abbrev shape : Shape2D
  shape = source.storage.shape

  abbrev h : ℕ
  h = height shape

  abbrev w : ℕ
  w = width shape

  module _ (source_size : shape.haloed_len ≡ length haloed)
      (rhs_size : shape.interior_len ≡ length forcing) (out_size : shape.interior_len ≡ length out)
      (source_holds : Holds b source.storage.tensor shape.haloed.0 shape.haloed.1 haloed)
      (rhs_holds : Holds b rhs.storage.tensor h w forcing) where
    pub jacobi_into-ok : (Reference.jacobi_into m shape haloed forcing out params).1 ≡ ok tt
    jacobi_into-ok =
        ap (λ e. e.1)
          (jacobi_into-grid m shape valid haloed out source_size out_size forcing params rhs_size)

    -- A cell whose block ran holds what the CPU reference leaves there.
    pub run_blocks-jacobi_into :
        (ran : List Block) (r c : ℕ)
        → r < h
        → c < w
        → (r / tile, c / tile) ∈ ran
        → b.cell
            (run_blocks b
              (jacobi_on b m rhs params (views_of b slices source))
              ran
              output.storage.tensor)
            r
            c
          ≡ at (Reference.jacobi_into m shape haloed forcing out params).0 w r c
    run_blocks-jacobi_into ran r c hr hc covered =
        cell-jacobi b tiles m h w
          (read_views b tiles slices m session source valid accepts.source_usable)
          rhs.storage.tensor output.storage.tensor params ran r c accepts.rhs_usable.extents
          accepts.output_usable.extents hr hc covered
        ∙ ap₂ (jacobi_value m params)
            (same_stencil b tiles slices m session source valid accepts.source_usable haloed
              source_holds r c hr hc)
            (rhs_holds r c hr hc)
        ∙ sym (get_or-grid h w _ r c f32_zero hr hc)
        ∙ ap (λ e. at e.0 w r c)
            (sym (
              jacobi_into-grid m shape valid haloed out source_size out_size forcing params
                rhs_size))

    -- An output that a covering launch wrote has the cells of the CPU reference, in a list.
    pub run_blocks-list :
        (ran : List Block)
        → ((r c : ℕ) → r < h → c < w → (r / tile, c / tile) ∈ ran)
        → let tensor =
            run_blocks b
              (jacobi_on b m rhs params (views_of b slices source))
              ran
              output.storage.tensor in
          (b.shape tensor ≡ b.shape output.storage.tensor)
          × (grid h w (b.cell tensor) ≡ (Reference.jacobi_into m shape haloed forcing out params).0)
    run_blocks-list ran covers = (
      shape-jacobi b tiles m h w
          (read_views b tiles slices m session source valid accepts.source_usable)
          rhs.storage.tensor output.storage.tensor params ran,
      sym (
          grid_ext _ h w _ f32_zero (ap length (ap (λ e. e.0) filled) ∙ length-grid h w _)
            (λ r c hr hc. sym (run_blocks-jacobi_into ran r c hr hc (covers r c hr hc)))),
    )
      where
        filled :
            Reference.jacobi_into m shape haloed forcing out params
            ≡ (jacobi_grid m shape haloed forcing params, ok tt)
        filled =
            jacobi_into-grid m shape valid haloed out source_size out_size forcing params rhs_size
