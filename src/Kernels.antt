-- ===== src/Kernels.antt =====
-- The device functions (src/gpu/kernels.rs): what one block loads, computes and stores.
pub mod Schedule
pub mod Blocks
use gudra.Common.{
  ℕ, ◌+◌, ◌-◌, Bool, ◌&&◌, ltb, leb, if◌then◌else◌, F32, f32_one, f32_quarter, f32_four, Arithmetic,
  List, [], ◌∷◌,
}
use gudra.Backend.{Backend, Block, Tile}
use gudra.Shape.{tile}

-- Lane by lane: a scalar on every lane, and an operation on two tiles.
abbrev pub broadcast : F32 → Tile
broadcast x = λ i j. x

abbrev pub lanes : (F32 → F32 → F32) → Tile → Tile → Tile
lanes f a b = λ i j. f (a i j) (b i j)

module _ (b : Backend) (m : Arithmetic) where
  open b use {Tensor, load, store}
  open m use {add, sub, mul}

  unfoldable pub jacobi_tile : (center north south east west rhs : Tile) → F32 → F32 → Tile
  jacobi_tile center north south east west rhs omega h_squared =
      let weight = broadcast omega in
      let spacing_squared = broadcast h_squared in
      let one = broadcast f32_one in
      let quarter = broadcast f32_quarter in
      let candidate = lanes mul quarter (
        lanes sub (lanes add (lanes add (lanes add north south) east) west)
          (lanes mul spacing_squared rhs)) in
      lanes add (lanes mul (lanes sub one weight) center) (lanes mul weight candidate)

  -- Entry `jacobi`, run by one block on its tile of the output.
  unfoldable pub jacobi :
      (center north south east west rhs : Tensor) → F32 → F32 → Block → Tensor → Tensor
  jacobi center north south east west rhs omega h_squared block output =
      let center_values = load tile center block in
      let north_values = load tile north block in
      let south_values = load tile south block in
      let east_values = load tile east block in
      let west_values = load tile west block in
      let rhs_values = load tile rhs block in
      store tile output block (
        jacobi_tile center_values north_values south_values east_values west_values rhs_values omega
          h_squared)

  unfoldable pub laplacian_tile : (center north south east west : Tile) → F32 → Tile
  laplacian_tile center north south east west inverse_h_squared =
      let four = broadcast f32_four in
      let spacing = broadcast inverse_h_squared in
      lanes mul
        (lanes sub (lanes add (lanes add (lanes add north south) east) west)
          (lanes mul four center))
        spacing

  -- Entry `laplacian`.
  unfoldable pub laplacian : (center north south east west : Tensor) → F32 → Block → Tensor → Tensor
  laplacian center north south east west inverse_h_squared block output =
      let center_values = load tile center block in
      let north_values = load tile north block in
      let south_values = load tile south block in
      let east_values = load tile east block in
      let west_values = load tile west block in
      store tile output block (
        laplacian_tile center_values north_values south_values east_values west_values
          inverse_h_squared)

  -- Entry `timestep`, on tiles of one cell. Off the interior the old cell is copied; the neighbours
  -- are loaded on the interior only, where `row - 1` and `col - 1` are not negative.
  unfoldable pub timestep : (input rhs : Tensor) → ℕ → ℕ → F32 → F32 → Block → Tensor → Tensor
  unfolding jacobi_tile
  timestep input rhs height width omega h_squared (row, col) output =
      let center = load 1 input (row, col) in
      let north = load 1 input (row - 1, col) in
      let south = load 1 input (row + 1, col) in
      let east = load 1 input (row, col + 1) in
      let west = load 1 input (row, col - 1) in
      let forcing = load 1 rhs (row - 1, col - 1) in
      let value =
        if ltb 0 row && leb row height && ltb 0 col && leb col width
        then jacobi_tile center north south east west forcing omega h_squared
        else center in
      store 1 output (row, col) value

module _ (b : Backend) where
  open b use {Tensor}

  -- The blocks of a launch, in the order in which they ran.
  unfoldable pub run_blocks : (Block → Tensor → Tensor) → List Block → Tensor → Tensor
  run_blocks kernel [] output = output
  run_blocks kernel (block ∷ rest) output = run_blocks kernel rest (kernel block output)
