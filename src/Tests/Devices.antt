-- ===== src/Tests/Devices.antt =====
-- A device that runs in the model: row-major tensors in memory, and launches over the whole grid.
use gudra.Common.{
  ℕ, zero, suc, ◌+◌, ◌-◌, ◌*◌, ◌/◌, ◌%◌, ◌<◌, ◌≡◌, refl, ap₂, inl, inr, arith, ◌==◌, ◌&&◌, leb,
  if◌then◌else◌, Bool, true, false, F32, f32_zero, List, [], ◌∷◌, ◌++◌, get_or, length, subst, sym,
}
use native.Mathlib.Nat.{div-add-mod', lt-div-mul-add, div-lt_iff_lt-mul}
use native.Mathlib.Decide.{ℕ_discrete}
use gudra.Backend.{
  Backend, Reply, done, failed, in_flight, finished, positive, Block, Tile, ◌∈◌, HasExtent,
  TileLaws, LaunchLaws,
}
use gudra.Loop.{grid}
use gudra.Loop.Cells.{grid-get_or}
use gudra.Gpu.Reads.{SliceLaws}
use gudra.Gpu.Transfers.{TransferLaws, RowMajor, Available}

pub record Memory : Type 0 where
  pub device : ℕ
  pub rows : ℕ
  pub columns : ℕ
  pub pitch : ℕ
  pub value : ℕ → ℕ → F32

abbrev pub part : Memory → ℕ × ℕ → ℕ × ℕ → Memory
part t rows columns = record t {
  rows = rows.1 - rows.0;
  columns = columns.1 - columns.0;
  value = λ r c. t.value (rows.0 + r) (columns.0 + c);
}

abbrev sliced : Memory → ℕ × ℕ → ℕ × ℕ → Reply Memory
sliced t rows columns =
    if leb rows.0 rows.1 && leb rows.1 t.rows && leb columns.0 columns.1 && leb columns.1 t.columns
    then done (part t rows columns)
    else failed "slice out of range"

abbrev stored : ℕ → Memory → Block → Tile → Memory
stored n t block tile = record t {
  value = λ r c. if r / n == block.0 && c / n == block.1 then tile (r % n) (c % n) else t.value r c;
}

-- The tiles of a row, and of the rows, that are left.
abbrev row_blocks : ℕ → ℕ → List Block
row_blocks i zero = []
row_blocks i (suc j) = (i, j) ∷ row_blocks i j

abbrev blocks : ℕ → ℕ → List Block
blocks zero columns = []
blocks (suc i) columns = row_blocks i columns ++ blocks i columns

abbrev pub from_host : ℕ → List F32 → Memory
from_host ordinal values = record {
  device = ordinal;
  rows = 1;
  columns = length values;
  pitch = length values;
  value = λ r c. get_or values (r * length values + c) f32_zero;
}

abbrev contents : Memory → List F32
contents t = grid t.rows t.columns t.value

abbrev pub reshaped : Memory → ℕ → ℕ → Memory
reshaped t h w = record {
  device = t.device;
  rows = h;
  columns = w;
  pitch = w;
  value = λ r c. get_or (contents t) (r * w + c) f32_zero;
}

-- Its state tells whether the next poll of a launch finds it in flight.
abbrev pub memory : Backend
memory = record {
  World = Bool;
  Tensor = Memory;
  device_id = λ t. t.device;
  shape = λ t. positive t.rows ∷ positive t.columns ∷ [];
  strides = λ t. positive t.pitch ∷ positive 1 ∷ [];
  cell = λ t. t.value;
  slice = sliced;
  load = λ n t block i j. t.value (block.0 * n + i) (block.1 * n + j);
  store = stored;
  create_device = λ ordinal world. (world, done tt);
  create_stream = λ ordinal world. (world, done tt);
  bind_to_thread = λ ordinal world. (world, done tt);
  copy_to_device = λ ordinal values world. (world, done (from_host ordinal values));
  reshape = λ t h w. done (reshaped t h w);
  launch = λ n t world. (
    world,
    record { ran = blocks ((t.rows + n - 1) / n) ((t.columns + n - 1) / n); ended = done tt },
  );
  poll_launch = λ n t submitted busy. if busy then (false, in_flight) else (
    true,
    finished
        (record { ran = blocks ((t.rows + n - 1) / n) ((t.columns + n - 1) / n); ended = done tt }),
  );
  drain = λ world. world;
  to_host_vec = λ t world. (world, done (contents t));
  is_sole = λ t world. true;
}

pub memory-TileLaws : TileLaws memory
memory-TileLaws = record {
  load_cell = λ n t h w r c e hr hc hn. ap₂ t.value (div-add-mod' r n) (div-add-mod' c n);
  store_own = λ n t tile h w r c e hr hc hn. ground arith;
  store_other = λ n t block tile r c hn other. ground arith;
  store_shape = λ n t block tile. refl;
  store_strides = λ n t block tile. refl;
  store_device = λ n t block tile. refl;
}

pub memory-SliceLaws : SliceLaws memory
memory-SliceLaws = record {
  view = part;
  slice_view = λ t rows columns h w e p q r s. ground arith;
  view_extent = λ t rows columns. refl;
  view_strides = λ t rows columns. refl;
  view_cell = λ t rows columns r c. refl;
}

∈-append_left : (k : Block) (xs ys : List Block) → k ∈ xs → k ∈ (xs ++ ys)
∈-append_left k [] ys i = absurd i
∈-append_left k (x ∷ xs) ys (inl e) = inl e
∈-append_left k (x ∷ xs) ys (inr i) = inr (∈-append_left k xs ys i)

∈-append_right : (k : Block) (xs ys : List Block) → k ∈ ys → k ∈ (xs ++ ys)
∈-append_right k [] ys i = i
∈-append_right k (x ∷ xs) ys i = inr (∈-append_right k xs ys i)

∈-row_blocks : (i j columns : ℕ) → j < columns → (i, j) ∈ row_blocks i columns
∈-row_blocks i j zero h = absurd (omega arith)
∈-row_blocks i j (suc columns) h = elim (ℕ_discrete j columns) [
  | yes e ↦ inl (λ k. (i, e k))
  | no ne ↦ inr (∈-row_blocks i j columns (omega arith))
]

∈-blocks : (i j rows columns : ℕ) → i < rows → j < columns → (i, j) ∈ blocks rows columns
∈-blocks i j zero columns hi hj = absurd (omega arith)
∈-blocks i j (suc rows) columns hi hj = elim (ℕ_discrete i rows) [
  | yes e ↦
      ∈-append_left (i, j) (row_blocks rows columns) (blocks rows columns)
        (subst (λ k. (i, j) ∈ row_blocks k columns) e (∈-row_blocks i j columns hj))
  | no ne ↦
      ∈-append_right (i, j) (row_blocks rows columns) (blocks rows columns)
        (∈-blocks i j rows columns (omega arith) hj)
]

tile_below : (n h r : ℕ) → 0 < n → r < h → r / n < (h + n - 1) / n
tile_below n h r hn hr =
    let above : h + n - 1 < (h + n - 1) / n * n + n = lt-div-mul-add hn in
    (div-lt_iff_lt-mul hn).1 (omega arith)

extent_rows : (t : Memory) (h w : ℕ) → HasExtent memory t h w → h ≡ t.rows
extent_rows t h w e = cc

extent_columns : (t : Memory) (h w : ℕ) → HasExtent memory t h w → w ≡ t.columns
extent_columns t h w e = cc

pub memory-LaunchLaws : LaunchLaws memory
memory-LaunchLaws = record {
  covers = λ n t world h w r c hn e hr hc ended.
      ∈-blocks (r / n) (c / n) _ _
        (subst (λ k. r / n < (k + n - 1) / n) (extent_rows t h w e) (tile_below n h r hn hr))
        (subst (λ k. c / n < (k + n - 1) / n) (extent_columns t h w e) (tile_below n w c hn hc));
}

done_injective : {A : Type 0} {x y : A} → done x ≡ done y → x ≡ y
done_injective e = cc

pub from_host-contents :
    (ordinal : ℕ) (values : List F32) → contents (from_host ordinal values) ≡ values
from_host-contents ordinal values = grid-get_or values 1 (length values) f32_zero (omega arith)

pub memory-TransferLaws : TransferLaws memory
memory-TransferLaws = record {
  contents = contents;
  copied_contents = λ ordinal xs world t e.
      subst (λ u. contents u ≡ xs) (done_injective e) (from_host-contents ordinal xs);
  copied_device = λ ordinal xs world t e. subst (λ u. u.device ≡ ordinal) (done_injective e) refl;
  reshape = reshaped;
  reshape_done = λ t h w size. refl;
  reshape_contents = λ t h w size. grid-get_or (contents t) h w f32_zero size;
  reshape_cell = λ t h w r c size hr hc. refl;
  reshape_extent = λ t h w. refl;
  reshape_strides = λ t h w. refl;
  reshape_device = λ t h w. refl;
  read_contents = λ t world xs e. sym (done_injective e);
  read_releases = λ t world xs e. refl;
}

pub memory-Available : Available memory
memory-Available = record {
  binds = λ ordinal world. refl;
  copies = λ ordinal xs world. (from_host ordinal xs, refl);
  reads = λ t world. (contents t, refl);
}

pub memory-RowMajor : RowMajor memory memory-TransferLaws
unfolding memory-TransferLaws
memory-RowMajor = record {
  contents_grid =
      λ t h w e. sym (ap₂ (λ i j. grid i j t.value) (extent_rows t h w e) (extent_columns t h w e));
}
