-- ===== src/Gpu/Jobs.antt =====
-- The lazy, owned step (src/gpu/cutile_impl.rs: `step_into_async`) as a state that is polled or
-- dropped.
pub mod Charges
pub mod Creation
pub mod Finish
pub mod Refinement
use gudra.Common.{ℕ, Bool, true, false, String, Arithmetic, some, List}
use gudra.Error.{Result, ok, err, panic}
use gudra.Shape.{tile}
use gudra.Admission.{Reservation}
use gudra.Params.{JacobiParams}
use gudra.Backend.{Backend, reply, Block, Launch, Progress, in_flight, finished}
use gudra.Kernels.{run_blocks}
use gudra.Session.{
  Run, ◌>>=◌, ◌>>◌, lift, scoped, owned, after_drop, Session, State, admit_operation, drop_guard,
  bind,
}
use gudra.Gpu.{Buffer, HaloGrid2D, Field2D, ReadViews, StepBuffers}
use gudra.Gpu.Validation.{validate_step}
use gudra.Executor.{Poll, pending, ready}
use gudra.Gpu.Views.{directional_views}
use gudra.Gpu.Steps.{drop_buffer, jacobi_on}

module _ (b : Backend) where
  -- What the future has moved into itself.
  pub record Frame : Type 0 where
    pub session : Session
    pub operation : Reservation
    pub source : HaloGrid2D b
    pub rhs : Field2D b
    pub output : Field2D b
    pub params : JacobiParams

module _ (b : Backend) where
  -- Before the first poll; with a launch in flight; and after the result was handed out.
  pub data Job : Type 0 where
    unpolled : Frame b → Job
    awaiting : Frame b → ReadViews b → Job
    returned : Job

module _ (b : Backend) where
  -- The guard of the operation is a variable of the body, and the buffers are captured in the order
  -- of their first use.
  abbrev pub drop_frame : Frame b → Run (State b) (Unit {0})
  drop_frame f = scoped (drop_buffer b f.rhs.storage) (
      scoped (drop_buffer b f.output.storage)
        (scoped (drop_buffer b f.source.storage) (drop_guard b f.session f.operation)))

  -- The future is dropped: a launch in flight is waited for first.
  unfoldable pub drop_job : Job b → Run (State b) (Unit {0})
  drop_job (unpolled f) s = drop_frame f s
  drop_job (awaiting f views) s = drop_frame f (record s { world = b.drain s.world })
  drop_job returned s = (s, ok tt)

  -- Validation and admission happen at once; a failure drops the three arguments.
  unfoldable pub step_into_async :
      Session → HaloGrid2D b → Field2D b → Field2D b → JacobiParams → Run (State b) (Job b)
  step_into_async session source rhs output params =
      owned
        (scoped (drop_buffer b source.storage)
          (scoped (drop_buffer b rhs.storage) (drop_buffer b output.storage)))
        (lift (validate_step b session source rhs (some output))
          >> (admit_operation b session >>= λ operation. lift (
              ok (
                unpolled (record {
                  session = session;
                  operation = operation;
                  source = source;
                  rhs = rhs;
                  output = output;
                  params = params;
                })))))

module _ (b : Backend) (m : Arithmetic) where
  abbrev pub hand_out : State b × Result (StepBuffers b) → (State b × Job b) × Poll (StepBuffers b)
  hand_out (s, r) = ((s, returned), ready r)

  -- The frame with the blocks that ran written to its output.
  abbrev pub written_frame : Frame b → ReadViews b → List Block → Frame b
  written_frame f views blocks = record f {
    output = record {
      storage = record f.output.storage {
        tensor = run_blocks b (jacobi_on b m f.rhs f.params views) blocks f.output.storage.tensor;
      };
    };
  }

  -- What follows the launch. On success the buffers leave the frame, and the guard is dropped.
  abbrev pub conclude : Frame b → Result (Unit {0}) → State b → State b × Result (StepBuffers b)
  conclude f (ok done) s =
      after_drop (ok (record { source = f.source; rhs = f.rhs; output = f.output }))
        (drop_guard b f.session f.operation s)
  conclude f (err e) s = after_drop (err e) (drop_frame b f s)
  conclude f panic s = after_drop panic (drop_frame b f s)

  abbrev pub advance_frame :
      Frame b → ReadViews b → State b → Progress → (State b × Job b) × Poll (StepBuffers b)
  advance_frame f views s in_flight = ((s, awaiting f views), pending)
  advance_frame f views s (finished l) =
      hand_out
        (conclude (written_frame f views l.ran) (reply "execute async Jacobi step" l.ended) s)

  -- `DeviceFuture::scheduled(op, …).await`.
  unfoldable pub poll_frame :
      Frame b → ReadViews b → Bool → State b → (State b × Job b) × Poll (StepBuffers b)
  poll_frame f views submitted s =
      let (w, progress) = b.poll_launch tile f.output.storage.tensor submitted s.world in
      advance_frame f views (record s { world = w }) progress

  -- What follows the binding and the views of the first poll.
  abbrev pub enter_frame :
      Frame b → State b × Result (ReadViews b) → (State b × Job b) × Poll (StepBuffers b)
  enter_frame f (s, ok views) = poll_frame f views false s
  enter_frame f (s, err e) = hand_out (after_drop (err e) (drop_frame b f s))
  enter_frame f (s, panic) = hand_out (after_drop panic (drop_frame b f s))

  -- A poll after the result was handed out panics.
  unfoldable pub poll : Job b → State b → (State b × Job b) × Poll (StepBuffers b)
  poll (unpolled f) s = enter_frame f ((bind b f.session >> lift (directional_views b f.source)) s)
  poll (awaiting f views) s = poll_frame f views true s
  poll returned s = ((s, returned), ready panic)
