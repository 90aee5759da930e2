-- ===== src/Gpu/Around.antt =====
-- The views of a step around an interior cell, and a step that meets no obstacle.
use gudra.Common.{ℕ, ◌+◌, ◌<◌, ◌≡◌, sym, ◌∙◌, ap, ap₂, arith, F32, Arithmetic, List}
use gudra.Geometry.{Shape2D, height, width}
use gudra.Error.{Result, ok, ok_injective}
use gudra.Shape.Domain.{IsValid}
use gudra.Reference.Cells.{at, stencil_at}
use gudra.Backend.{Backend, done, TileLaws}
use gudra.Kernels.Blocks.{Views, stencil_of}
use gudra.Completion.{ready}
use gudra.Session.{Session, State}
use gudra.Session.Scopes.{own_budget, entered, Restored}
use gudra.Kernels.{run_blocks}
use gudra.Gpu.{HaloGrid2D, Field2D, ReadViews}
use gudra.Gpu.Views.{directional_views}
use gudra.Gpu.Reads.{SliceLaws, views_of, fits, directional_views-eq_ok}
use gudra.Gpu.Outcome.{
  Outcome, StepOutcome, rejected, busy, admitted, unbound, unsliced, interrupted, completed,
  launched, written,
}
use gudra.Gpu.Accepted.{Usable}
use gudra.Backend.{Block}

-- A tensor holds the cells of a row-major host slice.
abbrev pub Holds : (b : Backend) → b.Tensor → ℕ → ℕ → List F32 → Type 0
Holds b t h w xs = (r c : ℕ) → r < h → c < w → b.cell t r c ≡ at xs w r c

module _ (b : Backend) (tiles : TileLaws b) (slices : SliceLaws b) (m : Arithmetic)
    (session : Session) (source : HaloGrid2D b) (valid : IsValid source.storage.shape)
    (usable : Usable b session source.storage.shape.haloed source.storage) where
  abbrev shape : Shape2D
  shape = source.storage.shape

  abbrev h : ℕ
  h = height shape

  abbrev w : ℕ
  w = width shape

  -- The views that the code takes fit the interior.
  abbrev pub read_views : Views b tiles m h w
  read_views = record {
    center = views.center;
    north = views.north;
    south = views.south;
    east = views.east;
    west = views.west;
    center_fits =
        fits b slices source valid usable.extents usable.row_stride (1, h + 1) (1, w + 1)
          (omega arith) (omega arith);
    north_fits =
        fits b slices source valid usable.extents usable.row_stride (0, h) (1, w + 1) (omega arith)
          (omega arith);
    south_fits =
        fits b slices source valid usable.extents usable.row_stride (2, shape.haloed.0) (1, w + 1)
          (omega (arith, valid.halo_rows)) (omega arith);
    east_fits =
        fits b slices source valid usable.extents usable.row_stride (1, h + 1) (2, shape.haloed.1)
          (omega arith) (omega (arith, valid.halo_columns));
    west_fits =
        fits b slices source valid usable.extents usable.row_stride (1, h + 1) (0, w) (omega arith)
          (omega arith);
  }
    where
      views : ReadViews b
      views = views_of b slices source

  module _ (haloed : List F32)
      (source_holds : Holds b source.storage.tensor shape.haloed.0 shape.haloed.1 haloed) (r c : ℕ)
      (hr : r < h) (hc : c < w) where
    near :
        (rows columns : ℕ × ℕ) (i j : ℕ)
        → i ≡ rows.0 + r
        → j ≡ columns.0 + c
        → i < h + 2
        → j < w + 2
        → b.cell (slices.view source.storage.tensor rows columns) r c ≡ at haloed (w + 2) i j
    near rows columns i j p q hi hj =
        slices.view_cell source.storage.tensor rows columns r c
        ∙ ap₂ (b.cell source.storage.tensor) (sym p) (sym q)
        ∙ source_holds i j (omega (arith, valid.halo_rows)) (omega (arith, valid.halo_columns))
        ∙ ap (λ k. at haloed k i j) valid.halo_columns

    -- They show the stencil around the cell.
    pub same_stencil : stencil_of b tiles m h w read_views r c ≡ stencil_at haloed (w + 2) r c
    same_stencil =
        let north =
          near (0, h) (1, w + 1) r (c + 1) (omega arith) (omega arith) (omega arith)
            (omega arith) in
        let south =
          near (2, shape.haloed.0) (1, w + 1) (r + 2) (c + 1) (omega arith) (omega arith)
            (omega arith) (omega arith) in
        let east =
          near (1, h + 1) (2, shape.haloed.1) (r + 1) (c + 2) (omega arith) (omega arith)
            (omega arith) (omega arith) in
        let west =
          near (1, h + 1) (0, w) (r + 1) c (omega arith) (omega arith) (omega arith)
            (omega arith) in
        let center =
          near (1, h + 1) (1, w + 1) (r + 1) (c + 1) (omega arith) (omega arith) (omega arith)
            (omega arith) in
        λ i. record {
          north = north i;
          south = south i;
          east = east i;
          west = west i;
          center = center i;
        }

module _ (b : Backend) (slices : SliceLaws b) (session : Session) (source : HaloGrid2D b)
    (kernel : ReadViews b → Block → b.Tensor → b.Tensor) (s : State b) (output : Field2D b)
    (valid : IsValid source.storage.shape)
    (usable : Usable b session source.storage.shape.haloed source.storage)
    (slot : (own_budget b session s).usage.operations < (own_budget b session s).limits.operations)
    (binds : (b.bind_to_thread session.ordinal s.world).1 ≡ done tt)
    (ends : (launched b session s output).ended ≡ done tt) where
  -- The output tensor after the launch.
  abbrev pub final : b.Tensor
  final =
      run_blocks b (kernel (views_of b slices source)) (launched b session s output).ran
        output.storage.tensor

  views_taken : directional_views b source ≡ ok (views_of b slices source)
  views_taken = directional_views-eq_ok b slices source valid usable.extents usable.row_stride

  -- The output after the launch.
  abbrev pub final_output : Field2D b
  final_output =
      written b output (kernel (views_of b slices source)) (launched b session s output).ran ready

  Outcome-final :
      {r : (State b × Field2D b) × Result (Unit {0})}
      → Outcome b session source kernel (entered b session s) output r
      → (r.1 ≡ ok tt) × (r.0.1 ≡ final_output)
  Outcome-final (unbound x o f) = absurd (x binds)
  Outcome-final (unsliced e n d o f) = absurd (n _ (sym d ∙ views_taken))
  Outcome-final (interrupted v d l o f) = absurd (l ends)
  Outcome-final (completed v d bd l o f) = (
    f,
    o
        ∙ ap (λ q. written b output (kernel q) (launched b session s output).ran ready)
            (ok_injective (sym d ∙ views_taken)),
  )

  pub StepOutcome-written :
      (v : Result (Unit {0})) (r : (State b × Field2D b) × Result (Unit {0}))
      → v ≡ ok tt
      → StepOutcome b session source v kernel s output r
      → (r.1 ≡ ok tt) × (r.0.1 ≡ final_output) × Restored b session s r.0.0
  StepOutcome-written v r accepted (rejected n q) = absurd (n accepted)
  StepOutcome-written v r accepted (busy p c e o t) = absurd (omega arith)
  StepOutcome-written v r accepted (admitted p c o t) =
      let (succeeds, same) = Outcome-final o in (succeeds, same, t)

  pub StepOutcome-final :
      (v : Result (Unit {0})) (r : (State b × Field2D b) × Result (Unit {0}))
      → v ≡ ok tt
      → StepOutcome b session source v kernel s output r
      → (r.1 ≡ ok tt) × (r.0.1.storage.tensor ≡ final)
  StepOutcome-final v r accepted outcome =
      let (succeeds, same, restored) = StepOutcome-written v r accepted outcome in
      (succeeds, ap (λ q. q.storage.tensor) same)
