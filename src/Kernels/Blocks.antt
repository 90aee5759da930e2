-- ===== src/Kernels/Blocks.antt =====
-- The cell values that the three kernels leave, for any order of their blocks.
use gudra.Common.{
  ℕ, ◌+◌, ◌-◌, ◌/◌, ◌%◌, ◌≤◌, ◌<◌, ◌≡◌, inl, inr, refl, ◌∙◌, arith, F32, Arithmetic, List,
  Bool-cases, ◌&&◌, ltb, leb, if◌then◌else◌,
}
use gudra.Params.{JacobiParams, LaplacianParams}
use gudra.Reference.{Stencil, jacobi_value, laplacian_value}
use gudra.Shape.{tile}
use gudra.Backend.{Backend, Block, Tile, TileLaws, HasExtent, ◌∈◌}
use gudra.Kernels.{jacobi, jacobi_tile, laplacian, laplacian_tile, timestep, run_blocks}
use gudra.Kernels.Schedule.{run_blocks_own, run_blocks-shape}

module _ (b : Backend) (laws : TileLaws b) (m : Arithmetic) (h w : ℕ) where
  open b use {Tensor, cell, load}

  -- Five views of the interior, with the extent of the output.
  pub record Views : Type 0 where
    pub center : Tensor
    pub north : Tensor
    pub south : Tensor
    pub east : Tensor
    pub west : Tensor
    pub center_fits : HasExtent b center h w
    pub north_fits : HasExtent b north h w
    pub south_fits : HasExtent b south h w
    pub east_fits : HasExtent b east h w
    pub west_fits : HasExtent b west h w

  abbrev pub stencil_of : Views → ℕ → ℕ → Stencil
  stencil_of v r c = record {
    north = cell v.north r c;
    south = cell v.south r c;
    east = cell v.east r c;
    west = cell v.west r c;
    center = cell v.center r c;
  }

  module _ (v : Views) (r c : ℕ) (hr : r < h) (hc : c < w) where
    lane :
        (t : Tensor)
        → HasExtent b t h w
        → load tile t (r / tile, c / tile) (r % tile) (c % tile) ≡ cell t r c
    lane t e = laws.load_cell tile t h w r c e hr hc (omega arith)

    jacobi_lane :
        (rhs : Tensor) (params : JacobiParams)
        → HasExtent b rhs h w
        → jacobi_tile b m
            (load tile v.center (r / tile, c / tile))
            (load tile v.north (r / tile, c / tile))
            (load tile v.south (r / tile, c / tile))
            (load tile v.east (r / tile, c / tile))
            (load tile v.west (r / tile, c / tile))
            (load tile rhs (r / tile, c / tile))
            params.omega
            params.h_squared
            (r % tile)
            (c % tile)
          ≡ jacobi_value m params (stencil_of v r c) (cell rhs r c)
    unfolding jacobi_tile jacobi_value
    jacobi_lane rhs params e = rw (
      lane v.center v.center_fits,
      lane v.north v.north_fits,
      lane v.south v.south_fits,
      lane v.east v.east_fits,
      lane v.west v.west_fits,
      lane rhs e,
    )

    laplacian_lane :
        (params : LaplacianParams)
        → laplacian_tile b m
            (load tile v.center (r / tile, c / tile))
            (load tile v.north (r / tile, c / tile))
            (load tile v.south (r / tile, c / tile))
            (load tile v.east (r / tile, c / tile))
            (load tile v.west (r / tile, c / tile))
            params.inverse_h_squared
            (r % tile)
            (c % tile)
          ≡ laplacian_value m params (stencil_of v r c)
    unfolding laplacian_tile laplacian_value
    laplacian_lane params = rw (
      lane v.center v.center_fits,
      lane v.north v.north_fits,
      lane v.south v.south_fits,
      lane v.east v.east_fits,
      lane v.west v.west_fits,
    )

  abbrev pub jacobi_kernel : Views → Tensor → JacobiParams → Block → Tensor → Tensor
  jacobi_kernel v rhs params =
      jacobi b m v.center v.north v.south v.east v.west rhs params.omega params.h_squared

  abbrev pub laplacian_kernel : Views → LaplacianParams → Block → Tensor → Tensor
  laplacian_kernel v params =
      laplacian b m v.center v.north v.south v.east v.west params.inverse_h_squared

  -- A launch of `jacobi` keeps the extent of its output.
  pub shape-jacobi :
      (v : Views) (rhs output : Tensor) (params : JacobiParams) (ran : List Block)
      → b.shape (run_blocks b (jacobi_kernel v rhs params) ran output) ≡ b.shape output
  unfolding jacobi
  shape-jacobi v rhs output params ran =
      run_blocks-shape b laws tile (omega arith) (jacobi_kernel v rhs params) _ (λ k t. refl) ran
        output

  -- Under the laws of tiles, in a launch of kernel `jacobi` whose blocks run in any order, and any
  -- of them more than once, a cell of the output whose block runs ends with the weighted update of
  -- the views and the right-hand side at that cell, computed as the CPU reference computes it.
  pub cell-jacobi :
      (v : Views) (rhs output : Tensor) (params : JacobiParams) (ran : List Block) (r c : ℕ)
      → HasExtent b rhs h w
      → HasExtent b output h w
      → r < h
      → c < w
      → (r / tile, c / tile) ∈ ran
      → cell (run_blocks b (jacobi_kernel v rhs params) ran output) r c
        ≡ jacobi_value m params (stencil_of v r c) (cell rhs r c)
  unfolding jacobi
  cell-jacobi v rhs output params ran r c er eo hr hc covered =
      run_blocks_own b laws tile (omega arith) (jacobi_kernel v rhs params) _ (λ k t. refl) ran
        output h w r c eo hr hc covered
      ∙ jacobi_lane v r c hr hc rhs params er

  -- Under the laws of tiles, in a launch of kernel `laplacian` whose blocks run in any order, a cell
  -- of the output whose block runs ends with the Laplacian of the views at that cell, computed as
  -- the CPU reference computes it.
  pub cell-laplacian :
      (v : Views) (output : Tensor) (params : LaplacianParams) (ran : List Block) (r c : ℕ)
      → HasExtent b output h w
      → r < h
      → c < w
      → (r / tile, c / tile) ∈ ran
      → cell (run_blocks b (laplacian_kernel v params) ran output) r c
        ≡ laplacian_value m params (stencil_of v r c)
  unfolding laplacian
  cell-laplacian v output params ran r c eo hr hc covered =
      run_blocks_own b laws tile (omega arith) (laplacian_kernel v params) _ (λ k t. refl) ran
        output h w r c eo hr hc covered
      ∙ laplacian_lane v r c hr hc params

  -- One timestep at a position of the haloed grid: the interior is updated, the halo copied.
  abbrev pub timestep_value : Tensor → Tensor → JacobiParams → ℕ → ℕ → F32
  timestep_value input rhs params r c =
      if ltb 0 r && leb r h && ltb 0 c && leb c w
      then jacobi_value m params
          (record {
            north = cell input (r - 1) c;
            south = cell input (r + 1) c;
            east = cell input r (c + 1);
            west = cell input r (c - 1);
            center = cell input r c;
          })
          (cell rhs (r - 1) (c - 1))
      else cell input r c

  load_one :
      (t : Tensor) (rows columns r c : ℕ)
      → HasExtent b t rows columns
      → r < rows
      → c < columns
      → load 1 t (r, c) 0 0 ≡ cell t r c
  load_one t rows columns r c e hr hc =
      let row : r / 1 ≡ r = omega arith in
      let column : c / 1 ≡ c = omega arith in
      let first : r % 1 ≡ 0 = omega arith in
      let second : c % 1 ≡ 0 = omega arith in
      rw (row, column, first, second) at (laws.load_cell 1 t rows columns r c e hr hc (omega arith))

  abbrev timestep_tile : Tensor → Tensor → JacobiParams → Block → Tile
  timestep_tile input rhs params k =
      if ltb 0 k.0 && leb k.0 h && ltb 0 k.1 && leb k.1 w
      then jacobi_tile b m (load 1 input (k.0, k.1)) (load 1 input (k.0 - 1, k.1))
          (load 1 input (k.0 + 1, k.1)) (load 1 input (k.0, k.1 + 1)) (load 1 input (k.0, k.1 - 1))
          (load 1 rhs (k.0 - 1, k.1 - 1)) params.omega params.h_squared
      else load 1 input (k.0, k.1)

  timestep_lane :
      (input rhs : Tensor) (params : JacobiParams) (r c : ℕ)
      → HasExtent b input (h + 2) (w + 2)
      → HasExtent b rhs h w
      → r < h + 2
      → c < w + 2
      → timestep_tile input rhs params (r, c) 0 0 ≡ timestep_value input rhs params r c
  unfolding jacobi_tile jacobi_value
  timestep_lane input rhs params r c ei er hr hc =
      elim (Bool-cases (ltb 0 r && leb r h && ltb 0 c && leb c w)) [
        | inr halo ↦ rw halo (load_one input (h + 2) (w + 2) r c ei hr hc)
        | inl interior ↦
            let above : 0 < r = ground arith in
            let below : r ≤ h = ground arith in
            let left : 0 < c = ground arith in
            let right : c ≤ w = ground arith in
            rw (
              interior,
              load_one input (h + 2) (w + 2) r c ei hr hc,
              load_one input (h + 2) (w + 2) (r - 1) c ei (omega arith) hc,
              load_one input (h + 2) (w + 2) (r + 1) c ei (omega arith) hc,
              load_one input (h + 2) (w + 2) r (c + 1) ei hr (omega arith),
              load_one input (h + 2) (w + 2) r (c - 1) ei hr (omega arith),
              load_one rhs h w (r - 1) (c - 1) er (omega arith) (omega arith),
            )
      ]

  abbrev pub timestep_kernel : Tensor → Tensor → JacobiParams → Block → Tensor → Tensor
  timestep_kernel input rhs params = timestep b m input rhs h w params.omega params.h_squared

  -- A launch of `timestep` keeps the extent of its output.
  pub shape-timestep :
      (input rhs output : Tensor) (params : JacobiParams) (ran : List Block)
      → b.shape (run_blocks b (timestep_kernel input rhs params) ran output) ≡ b.shape output
  unfolding timestep
  shape-timestep input rhs output params ran =
      run_blocks-shape b laws 1 (omega arith) (timestep_kernel input rhs params)
        (timestep_tile input rhs params) (λ k t. refl) ran output

  -- Under the laws of tiles, in a launch of kernel `timestep` whose blocks run in any order, a cell of
  -- the next haloed grid whose block runs ends with the old cell on the halo, bit for bit, and with
  -- the weighted update of the old grid on the interior.
  pub cell-timestep :
      (input rhs output : Tensor) (params : JacobiParams) (ran : List Block) (r c : ℕ)
      → HasExtent b input (h + 2) (w + 2)
      → HasExtent b rhs h w
      → HasExtent b output (h + 2) (w + 2)
      → r < h + 2
      → c < w + 2
      → (r, c) ∈ ran
      → cell (run_blocks b (timestep_kernel input rhs params) ran output) r c
        ≡ timestep_value input rhs params r c
  unfolding timestep
  cell-timestep input rhs output params ran r c ei er eo hr hc covered =
      let row : r / 1 ≡ r = omega arith in
      let column : c / 1 ≡ c = omega arith in
      let first : r % 1 ≡ 0 = omega arith in
      let second : c % 1 ≡ 0 = omega arith in
      rw (row, column, first, second) at
        (run_blocks_own b laws 1 (omega arith) (timestep_kernel input rhs params)
          (timestep_tile input rhs params) (λ k t. refl) ran output (h + 2) (w + 2) r c eo hr hc
          (rw (row, column) covered))
      ∙ timestep_lane input rhs params r c ei er hr hc
