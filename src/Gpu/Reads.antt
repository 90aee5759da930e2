-- ===== src/Gpu/Reads.antt =====
-- The views of a step read the source around each interior cell.
use gudra.Common.{ℕ, ◌+◌, ◌-◌, ◌≤◌, ◌≡◌, arith, true, [], ◌∷◌}
use gudra.Geometry.{height, width}
use gudra.Error.{ok}
use gudra.Shape.Domain.{IsValid}
use gudra.Backend.{Backend, done, HasExtent, positive}
use gudra.Gpu.{HaloGrid2D, ReadViews, matches_metadata}
use gudra.Gpu.Views.{directional_views}

-- The documented behaviour of slices: in range, they are views with the same strides, whose cells are
-- those of the tensor from the start of the ranges on.
pub record SliceLaws (b : Backend) : Type 0 where
  pub view : b.Tensor → ℕ × ℕ → ℕ × ℕ → b.Tensor
  pub slice_view :
      (t : b.Tensor) (rows columns : ℕ × ℕ) (h w : ℕ)
      → HasExtent b t h w
      → rows.0 ≤ rows.1
      → rows.1 ≤ h
      → columns.0 ≤ columns.1
      → columns.1 ≤ w
      → b.slice t rows columns ≡ done (view t rows columns)
  pub view_extent :
      (t : b.Tensor) (rows columns : ℕ × ℕ)
      → HasExtent b (view t rows columns) (rows.1 - rows.0) (columns.1 - columns.0)
  pub view_strides :
      (t : b.Tensor) (rows columns : ℕ × ℕ) → b.strides (view t rows columns) ≡ b.strides t
  pub view_cell :
      (t : b.Tensor) (rows columns : ℕ × ℕ) (r c : ℕ)
      → b.cell (view t rows columns) r c ≡ b.cell t (rows.0 + r) (columns.0 + c)

module _ (b : Backend) (laws : SliceLaws b) (source : HaloGrid2D b) where
  open laws use {view, slice_view, view_extent, view_strides, view_cell}

  abbrev tensor : b.Tensor
  tensor = source.storage.tensor

  abbrev h : ℕ
  h = height source.storage.shape

  abbrev w : ℕ
  w = width source.storage.shape

  -- The views that the code takes.
  abbrev pub views_of : ReadViews b
  views_of = record {
    center = view tensor (1, h + 1) (1, w + 1);
    north = view tensor (0, h) (1, w + 1);
    south = view tensor (2, source.storage.shape.haloed.0) (1, w + 1);
    east = view tensor (1, h + 1) (2, source.storage.shape.haloed.1);
    west = view tensor (1, h + 1) (0, w);
  }

  module _ (valid : IsValid source.storage.shape)
      (extent : HasExtent b tensor source.storage.shape.haloed.0 source.storage.shape.haloed.1)
      (strides : b.strides tensor ≡ positive source.storage.shape.haloed.1 ∷ positive 1 ∷ []) where
    open valid use {halo_rows, halo_columns}

    pub fits :
        (rows columns : ℕ × ℕ)
        → rows.1 - rows.0 ≡ h
        → columns.1 - columns.0 ≡ w
        → HasExtent b (view tensor rows columns) h w
    fits rows columns p q = rw (p, q) at (view_extent tensor rows columns)

    matches_extent : (t : b.Tensor) → HasExtent b t h w → matches_metadata (b.shape t) (h, w) ≡ true
    matches_extent t e = rw e (ground arith)

    matches_strides :
        (rows columns : ℕ × ℕ)
        → matches_metadata (b.strides (view tensor rows columns)) (source.storage.shape.haloed.1, 1)
          ≡ true
    matches_strides rows columns = rw (view_strides tensor rows columns, strides) (ground arith)

    slice_of :
        (rows columns : ℕ × ℕ)
        → rows.0 ≤ rows.1
        → rows.1 ≤ h + 2
        → columns.0 ≤ columns.1
        → columns.1 ≤ w + 2
        → b.slice tensor rows columns ≡ done (view tensor rows columns)
    slice_of rows columns p q r s =
        slice_view tensor rows columns source.storage.shape.haloed.0 source.storage.shape.haloed.1
          extent p (omega arith) r (omega arith)

    -- The five slices are taken without an error, and pass the check of their metadata.
    pub directional_views-eq_ok : directional_views b source ≡ ok views_of
    unfolding directional_views
    directional_views-eq_ok =
        let height : source.storage.shape.haloed.0 ≡ h + 2 = halo_rows in
        let width : source.storage.shape.haloed.1 ≡ w + 2 = halo_columns in
        rw (
          slice_of (1, h + 1) (1, w + 1) (omega arith) (omega arith) (omega arith) (omega arith),
          slice_of (0, h) (1, w + 1) (omega arith) (omega arith) (omega arith) (omega arith),
          slice_of (2, source.storage.shape.haloed.0) (1, w + 1) (omega arith) (omega arith)
              (omega arith) (omega arith),
          slice_of (1, h + 1) (2, source.storage.shape.haloed.1) (omega arith) (omega arith)
              (omega arith) (omega arith),
          slice_of (1, h + 1) (0, w) (omega arith) (omega arith) (omega arith) (omega arith),
          matches_extent _ (fits (1, h + 1) (1, w + 1) (omega arith) (omega arith)),
          matches_extent _ (fits (0, h) (1, w + 1) (omega arith) (omega arith)),
          matches_extent _
              (fits (2, source.storage.shape.haloed.0) (1, w + 1) (omega arith) (omega arith)),
          matches_extent _
              (fits (1, h + 1) (2, source.storage.shape.haloed.1) (omega arith) (omega arith)),
          matches_extent _ (fits (1, h + 1) (0, w) (omega arith) (omega arith)),
          matches_strides (1, h + 1) (1, w + 1),
          matches_strides (0, h) (1, w + 1),
          matches_strides (2, source.storage.shape.haloed.0) (1, w + 1),
          matches_strides (1, h + 1) (2, source.storage.shape.haloed.1),
          matches_strides (1, h + 1) (0, w),
        )
