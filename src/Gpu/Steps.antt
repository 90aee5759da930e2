-- ===== src/Gpu/Steps.antt =====
-- Blocking steps and readback (src/gpu/cutile_impl.rs): `step_into`, `laplacian_into`, `step`,
-- `into_host`.
use gudra.Common.{ℕ, String, F32, Arithmetic, none, some, List}
use gudra.Error.{Result, ok, err, panic}
use gudra.Shape.{tile}
use gudra.Completion.{ensure_ready}
use gudra.Completion
use gudra.Params.{JacobiParams, LaplacianParams}
use gudra.Backend.{Backend, reply, Block}
use gudra.Kernels.{jacobi, laplacian, run_blocks}
use gudra.Session.{
  Run, ◌>>=◌, ◌>>◌, lift, zoom, scoped, owned, after_drop, Session, State, call, admit_operation,
  drop_guard, bind,
}
use gudra.Gpu.{Buffer, HaloGrid2D, Field2D, ReadViews, zeros}
use gudra.Gpu.Validation.{validate_fields, validate_step}
use gudra.Gpu.Views.{directional_views}

module _ (b : Backend) where
  open b use {Tensor}

  -- `kernel(…).sync_on(stream).map_err(…)`, on tiles of a side: the blocks that ran have written
  -- the tensor.
  unfoldable pub execute :
      ℕ
      → String
      → (Block → Tensor → Tensor)
      → State b × Tensor
      → (State b × Tensor) × Result (Unit {0})
  execute side label kernel (s, tensor) =
      let (w, l) = b.launch side tensor s.world in
      ((record s { world = w }, run_blocks b kernel l.ran tensor), reply label l.ended)

  -- `completion.run(|| …)` on the storage of the output.
  unfoldable pub run_output :
      String → (Block → Tensor → Tensor) → Run (State b × Field2D b) (Unit {0})
  unfolding execute Completion.run
  run_output label kernel (s, output) =
      let ((completion, (s', tensor)), r) =
        Completion.run (execute tile label kernel)
          (output.storage.completion, (s, output.storage.tensor)) in
      (
        (
          s',
          record { storage = record output.storage { tensor = tensor; completion = completion } },
        ),
        r,
      )

  -- What follows the validation: admission, binding, views, and the guarded launch.
  unfoldable pub admitted_run :
      Session
      → HaloGrid2D b
      → String
      → (ReadViews b → Block → Tensor → Tensor)
      → Run (State b × Field2D b) (Unit {0})
  unfolding run_output
  admitted_run session source label kernel = do
    operation ← zoom (admit_operation b session)
    scoped (zoom (drop_guard b session operation)) do
      zoom (bind b session)
      views ← lift (directional_views b source)
      run_output label (kernel views)

  -- A buffer that goes out of scope gives its charge back.
  abbrev pub drop_buffer : Buffer b → Run (State b) (Unit {0})
  drop_buffer buffer = drop_guard b buffer.session buffer.reservation

  -- `let mut output = …; step_into(…, &mut output)?; Ok(output)`.
  abbrev pub return_output :
      (State b × Field2D b) × Result (Unit {0}) → State b × Result (Field2D b)
  return_output ((s, output), ok done) = (s, ok output)
  return_output ((s, output), err e) = after_drop (err e) (drop_buffer output.storage s)
  return_output ((s, output), panic) = after_drop panic (drop_buffer output.storage s)

  -- `Field2D::into_host`, which consumes the field: a failure before the binding drops the whole
  -- field, and afterwards its parts are dropped before the guard of the operation.
  unfoldable pub into_host : Field2D b → Run (State b) (List F32)
  into_host field =
      let session = field.storage.session in
      owned (drop_buffer field.storage)
        (lift (ensure_ready field.storage.completion "field") >> admit_operation b session)
      >>= λ operation. scoped (drop_guard b session operation) (
          scoped (drop_buffer field.storage)
            (bind b session >> call b "read back field" (b.to_host_vec field.storage.tensor)))

module _ (b : Backend) (m : Arithmetic) where
  open b use {Tensor}

  abbrev pub jacobi_on : Field2D b → JacobiParams → ReadViews b → Block → Tensor → Tensor
  jacobi_on rhs params v =
      jacobi b m v.center v.north v.south v.east v.west rhs.storage.tensor params.omega
        params.h_squared

  abbrev pub laplacian_on : LaplacianParams → ReadViews b → Block → Tensor → Tensor
  laplacian_on params v =
      laplacian b m v.center v.north v.south v.east v.west params.inverse_h_squared

  -- The output is part of the state: it is borrowed, and keeps what was written.
  unfoldable pub step_into :
      Session → HaloGrid2D b → Field2D b → JacobiParams → Run (State b × Field2D b) (Unit {0})
  unfolding admitted_run
  step_into session source rhs params (s, output) =
      (lift (validate_step b session source rhs (some output))
          >> admitted_run b session source "execute Jacobi step" (jacobi_on rhs params))
        (s, output)

  unfoldable pub laplacian_into :
      Session → HaloGrid2D b → LaplacianParams → Run (State b × Field2D b) (Unit {0})
  unfolding admitted_run
  laplacian_into session source params (s, output) =
      (lift (validate_fields b session source none (some output))
          >> admitted_run b session source "execute Laplacian" (laplacian_on params))
        (s, output)

  unfoldable pub step :
      Session → HaloGrid2D b → Field2D b → JacobiParams → Run (State b) (Field2D b)
  unfolding step_into
  step session source rhs params = do
    lift (validate_step b session source rhs none)
    output ← zeros b session source.storage.shape
    λ s. return_output b (step_into session source rhs params (s, output))
