-- ===== src/Timesteps.antt =====
-- The fixed-Dirichlet runtime (src/gpu/timesteps.rs): two haloed grids that swap after each launch.
pub mod Values
pub mod Evolution
pub mod Batch
pub mod Host
pub mod Snapshot
pub mod Construction
pub mod Jobs
use gudra.Common.{
  ℕ, zero, suc, ◌+◌, ◌*◌, leb, ltb, if◌then◌else◌, String, F32, Arithmetic, Option, some, none,
  List, [], ◌∷◌, length, checked_add, checked_mul, f32_size, i32_max,
}
use gudra.Geometry.{Shape2D, height, width}
use gudra.Error.{Result, ok, err, panic, or_panic, check_len, shape_limit, backend}
use gudra.Shape.{max_blocks}
use gudra.Params.{JacobiParams}
use gudra.Backend.{Backend, Block}
use gudra.Kernels.{timestep}
use gudra.Session.{
  Run, ◌>>=◌, ◌>>◌, lift, zoom, scoped, owned, after_drop, Session, State, call, admit_buffer,
  admit_operation, drop_guard, bind,
}
use gudra.Gpu.{Buffer, HaloGrid2D, Field2D, upload_reserved}
use gudra.Gpu.Steps.{execute, drop_buffer}

-- `i32::try_from(n).unwrap_or(i32::MAX)`.
abbrev pub to_i32 : ℕ → ℕ
to_i32 n = if leb n i32_max then n else i32_max

-- The loop over the quantities.
abbrev pub check_blocks : List (String × ℕ) → Result (Unit {0})
check_blocks [] = ok tt
check_blocks ((quantity, actual) ∷ rest) =
    if ltb 65535 actual then err (shape_limit quantity actual 65535) else check_blocks rest

module _ (b : Backend) where
  pub record DoubleGrid : Type 0 where
    pub current : HaloGrid2D b
    pub next : HaloGrid2D b
    pub rhs : Field2D b
    pub completed : ℕ

module _ (b : Backend) where
  open b use {Tensor}

  -- A failure drops what is still owned: guards and buffers, the last one first.
  unfoldable pub double_grid :
      Session → Shape2D → List F32 → List F32 → Run (State b) (DoubleGrid b)
  double_grid session shape initial rhs = do
    lift (check_len "source" shape.haloed_len (length initial))
    lift (check_len "rhs" shape.interior_len (length rhs))
    lift (
        check_blocks (
          ("timestep row blocks", shape.haloed.0)
          ∷ ("timestep column blocks", shape.haloed.1)
          ∷ []))
    bytes ← lift (or_panic (checked_mul shape.haloed_len f32_size))
    first ← admit_buffer b session bytes
    second ← owned (drop_guard b session first) (admit_buffer b session bytes)
    forcing ←
        owned (drop_guard b session first)
          (owned (drop_guard b session second) (admit_buffer b session shape.interior_bytes))
    current ← owned (drop_guard b session second) (
        owned (drop_guard b session forcing)
          (upload_reserved b session shape initial shape.haloed first))
    next ← owned (drop_guard b session forcing) (
        owned (drop_buffer b current) (upload_reserved b session shape initial shape.haloed second))
    field ←
        owned (drop_buffer b current)
          (owned (drop_buffer b next) (upload_reserved b session shape rhs shape.interior forcing))
    lift (
        ok (record {
          current = record { storage = current };
          next = record { storage = next };
          rhs = record { storage = field };
          completed = 0;
        }))

  abbrev pub shape : DoubleGrid b → Shape2D
  shape grid = grid.current.storage.shape

  unfoldable pub check_count : DoubleGrid b → ℕ → Result (Unit {0})
  check_count grid steps = count (checked_add grid.completed steps)
    where
      count : Option ℕ → Result (Unit {0})
      count none = err (backend "validate timestep count" "completed counter overflow")
      count (some total) = ok tt

  -- The counter's addition panics on overflow.
  unfoldable pub swap_completed : DoubleGrid b → DoubleGrid b × Result (Unit {0})
  swap_completed grid =
      let swapped = record grid { current = grid.next; next = grid.current } in
      count swapped (checked_add grid.completed 1)
    where
      count : DoubleGrid b → Option ℕ → DoubleGrid b × Result (Unit {0})
      count grid none = (grid, panic)
      count grid (some total) = (record grid { completed = total }, ok tt)

  -- A grid that is dropped drops its three buffers in the order of the fields.
  abbrev pub drop_grid : DoubleGrid b → Run (State b) (Unit {0})
  drop_grid grid =
      scoped (drop_buffer b grid.rhs.storage)
        (scoped (drop_buffer b grid.next.storage) (drop_buffer b grid.current.storage))

module _ (b : Backend) (m : Arithmetic) where
  open b use {Tensor}

  -- `operation`: the kernel over tiles of one cell of the next grid.
  unfoldable pub operation : DoubleGrid b → JacobiParams → Block → Tensor → Tensor
  operation grid params =
      timestep b m grid.current.storage.tensor grid.rhs.storage.tensor
        (to_i32 (height (shape b grid))) (to_i32 (width (shape b grid))) params.omega
        params.h_squared

  -- One turn of the loop. The grid is part of the state, so that a failure can drop it.
  unfoldable pub run_step : JacobiParams → Run (State b × DoubleGrid b) (Unit {0})
  unfolding execute operation swap_completed
  run_step params (s, grid) =
      let ((s', tensor), r) =
        execute b 1 "execute timestep" (operation grid params) (s, grid.next.storage.tensor) in
      let grid' = record grid {
        next = record { storage = record grid.next.storage { tensor = tensor } };
      } in
      (lift r >> λ (s, grid). let (grid, r) = swap_completed b grid in ((s, grid), r)) (s', grid')

  unfoldable pub run_steps : ℕ → JacobiParams → Run (State b × DoubleGrid b) (Unit {0})
  unfolding run_step
  run_steps zero params = lift (ok tt)
  run_steps (suc steps) params = run_step params >> run_steps steps params

  abbrev pub return_grid :
      (State b × DoubleGrid b) × Result (Unit {0}) → State b × Result (DoubleGrid b)
  return_grid ((s, grid), ok done) = (s, ok grid)
  return_grid ((s, grid), err e) = after_drop (err e) (drop_grid b grid s)
  return_grid ((s, grid), panic) = after_drop panic (drop_grid b grid s)

  unfoldable pub advance : DoubleGrid b → ℕ → JacobiParams → Run (State b) (DoubleGrid b)
  unfolding run_steps
  advance grid steps params s =
      let session = grid.current.storage.session in
      return_grid (
        (lift (check_count b grid steps)
            >> (zoom (admit_operation b session) >>= λ operation.
                scoped (zoom (drop_guard b session operation))
                  (zoom (bind b session) >> run_steps steps params)))
          (s, grid))

module _ (b : Backend) where
  -- `Arc::try_unwrap` of the tensor that was shared with the copy: an error if the copy still holds it.
  unfoldable pub unwrap_shared : b.Tensor → Run (State b) (Unit {0})
  unwrap_shared tensor s =
      if b.is_sole tensor s.world
      then (s, ok tt)
      else (s, err (backend "observe timesteps" "unexpected retained tensor alias"))

  -- The snapshot of the current grid, which is returned with its owner. The tensor is moved out
  -- and back, with the other parts of its buffer as they were.
  unfoldable pub observe : DoubleGrid b → Run (State b) (DoubleGrid b × List F32)
  observe grid s =
      let session = grid.current.storage.session in
      let out =
        (zoom (admit_operation b session) >>= λ operation.
        scoped (zoom (drop_guard b session operation)) (
          zoom (bind b session)
          >> (zoom (call b "observe timesteps" (b.to_host_vec grid.current.storage.tensor))
              >>= λ host. zoom (unwrap_shared grid.current.storage.tensor) >> lift (ok host))))
          (s, grid) in
      finish out
    where
      finish :
          (State b × DoubleGrid b) × Result (List F32) → State b × Result (DoubleGrid b × List F32)
      finish ((s, grid), ok host) = (s, ok (grid, host))
      finish ((s, grid), err e) = after_drop (err e) (drop_grid b grid s)
      finish ((s, grid), panic) = after_drop panic (drop_grid b grid s)
