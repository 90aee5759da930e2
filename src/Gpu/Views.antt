-- ===== src/Gpu/Views.antt =====
-- The five views of a source around its interior: `directional_views` (src/gpu/cutile_impl.rs).
use gudra.Common.{◌+◌, if◌then◌else◌, ◌||◌, not, List, [], ◌∷◌}
use gudra.Geometry.{Shape2D, height, width}
use gudra.Error.{Result, ok, err, ◌>>=◌, ◌>>◌, backend}
use gudra.Backend.{Backend, reply}
use gudra.Gpu.{HaloGrid2D, ReadViews, matches_metadata}

module _ (b : Backend) where
  open b use {Tensor}

  -- The loop over the views.
  abbrev pub check_views : Shape2D → List Tensor → Result (Unit {0})
  check_views shape [] = ok tt
  check_views shape (view ∷ rest) =
      if not (matches_metadata (b.shape view) shape.interior)
        || not (matches_metadata (b.strides view) (shape.haloed.1, 1))
      then err (backend "validate directional view" "shape/stride invariant failed")
      else check_views shape rest

  unfoldable pub directional_views : HaloGrid2D b → Result (ReadViews b)
  directional_views source = do
    let shape = source.storage.shape
    let h = height shape
    let w = width shape
    let tensor = source.storage.tensor
    center ← reply "slice center" (b.slice tensor (1, h + 1) (1, w + 1))
    north ← reply "slice north" (b.slice tensor (0, h) (1, w + 1))
    south ← reply "slice south" (b.slice tensor (2, shape.haloed.0) (1, w + 1))
    east ← reply "slice east" (b.slice tensor (1, h + 1) (2, shape.haloed.1))
    west ← reply "slice west" (b.slice tensor (1, h + 1) (0, w))
    check_views shape (center ∷ north ∷ south ∷ east ∷ west ∷ [])
    ok (record { center = center; north = north; south = south; east = east; west = west })
