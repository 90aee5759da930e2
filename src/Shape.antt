-- ===== src/Shape.antt =====
-- `Shape2D::new` and its helpers (src/shape.rs).
pub mod Stages
pub mod Domain
pub mod Rejection
use gudra.Common.{
  ℕ, String, ◌*◌, ltb, if◌then◌else◌, checked_add, checked_mul, div_ceil, isize_max, i32_max,
  u32_max, u16_max, f32_size, List, [], ◌∷◌, ◌==◌,
}
use gudra.Geometry.{Shape2D}
use gudra.Error.{
  Error, Result, ok, err, ◌>>=◌, ◌>>◌, ok_or, empty_interior, shape_overflow, shape_limit,
}

abbrev pub tile : ℕ
tile = 16

abbrev pub max_blocks : ℕ
max_blocks = 65_535

unfoldable pub product : ℕ → ℕ → String → Result ℕ
product left right operation = ok_or (checked_mul left right) (shape_overflow operation)

unfoldable pub limit : String → ℕ → ℕ → Result (Unit {0})
limit quantity actual maximum =
    if ltb maximum actual then err (shape_limit quantity actual maximum) else ok tt

unfoldable pub element_count : ℕ → Result ℕ
element_count count =
    if ltb u32_max count then err (shape_limit "metadata elements" count i32_max) else ok count

unfoldable pub block_count : ℕ → Result ℕ
block_count blocks =
    if ltb u16_max blocks then err (shape_limit "launch blocks" blocks max_blocks) else ok blocks

-- The two loops of `new`, over pairs of a name and a number.
abbrev pub check_axes : List (String × ℕ) → Result (Unit {0})
check_axes [] = ok tt
check_axes ((axis, extent) ∷ rest) =
    if extent == 0 then err (empty_interior axis) else check_axes rest

abbrev pub check_limits : ℕ → List (String × ℕ) → Result (Unit {0})
check_limits maximum [] = ok tt
check_limits maximum ((quantity, actual) ∷ rest) =
    limit quantity actual maximum >> check_limits maximum rest

unfoldable pub new : ℕ → ℕ → Result Shape2D
new height width = do
  check_axes (("height", height) ∷ ("width", width) ∷ [])
  halo_height ← ok_or (checked_add height 2) (shape_overflow "height + 2")
  halo_width ← ok_or (checked_add width 2) (shape_overflow "width + 2")
  interior_len ← product height width "height * width"
  haloed_len ← product halo_height halo_width "halo height * halo width"
  interior_bytes ← product interior_len f32_size "interior bytes"
  haloed_bytes ← product haloed_len f32_size "haloed bytes"
  limit "interior bytes" interior_bytes isize_max
  limit "haloed bytes" haloed_bytes isize_max
  check_limits i32_max (
      ("height", height)
      ∷ ("width", width)
      ∷ ("halo height", halo_height)
      ∷ ("halo width", halo_width)
      ∷ ("interior elements", interior_len)
      ∷ ("haloed elements", haloed_len)
      ∷ [])
  let blocks_y = div_ceil height tile
  let blocks_x = div_ceil width tile
  limit "height blocks" blocks_y max_blocks
  limit "width blocks" blocks_x max_blocks
  grid_y ← block_count blocks_y
  grid_x ← block_count blocks_x
  interior_y ← element_count height
  interior_x ← element_count width
  haloed_y ← element_count halo_height
  haloed_x ← element_count halo_width
  interior_count ← element_count interior_len
  haloed_count ← element_count haloed_len
  ok (record {
    interior = (interior_y, interior_x);
    haloed = (haloed_y, haloed_x);
    interior_len = interior_count;
    haloed_len = haloed_count;
    interior_bytes = interior_bytes;
    haloed_bytes = haloed_bytes;
    grid = (grid_y, grid_x, 1);
  })
