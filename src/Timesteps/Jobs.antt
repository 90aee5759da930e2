-- ===== src/Timesteps/Jobs.antt =====
-- The lazy, owned batch (src/gpu/timesteps.rs: `advance_async`) as a state that is polled or dropped.
pub mod Charges
pub mod Creation
pub mod Finish
pub mod Batch
use gudra.Common.{ℕ, zero, suc, Bool, true, false, Arithmetic, List}
use gudra.Error.{Result, ok, err, panic}
use gudra.Admission.{Reservation}
use gudra.Params.{JacobiParams}
use gudra.Backend.{Backend, reply, Block, Progress, in_flight, finished}
use gudra.Kernels.{run_blocks}
use gudra.Executor.{Poll, pending, ready}
use gudra.Session.{
  Run, ◌>>=◌, ◌>>◌, lift, scoped, owned, after_drop, Session, State, admit_operation, drop_guard,
  bind,
}
use gudra.Timesteps.{DoubleGrid, check_count, swap_completed, operation, drop_grid}

module _ (b : Backend) where
  -- What the future has moved into itself, but for the number of steps.
  pub record GridFrame : Type 0 where
    pub session : Session
    pub guard : Reservation
    pub grid : DoubleGrid b
    pub params : JacobiParams

module _ (b : Backend) where
  -- Before the first poll, with the steps to make; with a launch in flight, and the steps after it;
  -- and after the result was handed out.
  pub data GridJob : Type 0 where
    unpolled : GridFrame b → ℕ → GridJob
    awaiting : GridFrame b → ℕ → GridJob
    returned : GridJob

module _ (b : Backend) where
  -- The guard of the operation is a variable of the body or captured before the grid.
  abbrev pub drop_frame : GridFrame b → Run (State b) (Unit {0})
  drop_frame f = scoped (drop_grid b f.grid) (drop_guard b f.session f.guard)

  -- The future is dropped: a launch in flight is waited for first.
  unfoldable pub drop_job : GridJob b → Run (State b) (Unit {0})
  drop_job (unpolled f steps) s = drop_frame f s
  drop_job (awaiting f steps) s = drop_frame f (record s { world = b.drain s.world })
  drop_job returned s = (s, ok tt)

  -- The check and the admission happen at once; a failure drops the grid.
  unfoldable pub advance_async : DoubleGrid b → ℕ → JacobiParams → Run (State b) (GridJob b)
  advance_async grid steps params =
      let session = grid.current.storage.session in
      owned (drop_grid b grid) (
        lift (check_count b grid steps)
        >> (admit_operation b session >>= λ guard. lift (
            ok (
              unpolled (record { session = session; guard = guard; grid = grid; params = params })
                steps))))

module _ (b : Backend) where
  -- What a poll makes.
  abbrev pub Turn : Type 0
  Turn = (State b × GridJob b) × Poll (DoubleGrid b)

module _ (b : Backend) where
  abbrev pub hand_out : State b × Result (DoubleGrid b) → Turn b
  hand_out (s, r) = ((s, returned), ready r)

  -- An early return of the body.
  abbrev pub fail : GridFrame b → Result (DoubleGrid b) → State b → Turn b
  fail f r s = hand_out (after_drop r (drop_frame b f s))

module _ (b : Backend) (m : Arithmetic) where
  -- What follows one step of the loop.
  abbrev pub Rest : Type 0
  Rest = GridFrame b → State b → Turn b

  -- The frame with the blocks that ran written to the next grid.
  abbrev pub written_frame : GridFrame b → List Block → GridFrame b
  written_frame f blocks = record f {
    grid = record f.grid {
      next = record {
        storage = record f.grid.next.storage {
          tensor = run_blocks b (operation b m f.grid f.params) blocks f.grid.next.storage.tensor;
        };
      };
    };
  }

  abbrev pub swapped : Rest → GridFrame b → DoubleGrid b × Result (Unit {0}) → State b → Turn b
  swapped rest f (grid, ok done) s = rest (record f { grid = grid }) s
  swapped rest f (grid, err e) s = fail b (record f { grid = grid }) (err e) s
  swapped rest f (grid, panic) s = fail b (record f { grid = grid }) panic s

  abbrev pub conclude : Rest → GridFrame b → Result (Unit {0}) → State b → Turn b
  conclude rest f (ok done) s = swapped rest f (swap_completed b f.grid) s
  conclude rest f (err e) s = fail b f (err e) s
  conclude rest f panic s = fail b f panic s

  abbrev pub advance_frame : Rest → ℕ → GridFrame b → State b → Progress → Turn b
  advance_frame rest steps f s in_flight = ((s, awaiting f steps), pending)
  advance_frame rest steps f s (finished l) =
      conclude rest (written_frame f l.ran) (reply "execute async timestep" l.ended) s

  -- `DeviceFuture::scheduled(op, …).await`, with the steps that are left after this one.
  unfoldable pub poll_launch : Rest → ℕ → GridFrame b → Bool → State b → Turn b
  poll_launch rest steps f submitted s =
      let (w, progress) = b.poll_launch 1 f.grid.next.storage.tensor submitted s.world in
      advance_frame rest steps f (record s { world = w }) progress

  abbrev pub bound : Rest → ℕ → GridFrame b → State b × Result (Unit {0}) → Turn b
  bound rest steps f (s, ok done) = poll_launch rest steps f false s
  bound rest steps f (s, err e) = fail b f (err e) s
  bound rest steps f (s, panic) = fail b f panic s

  -- The loop from the top, with the steps that are left.
  unfoldable pub run_loop : ℕ → Rest
  run_loop zero f s = hand_out b (after_drop (ok f.grid) (drop_guard b f.session f.guard s))
  run_loop (suc steps) f s = bound (run_loop steps) steps f (bind b f.session s)

  -- A poll after the result was handed out panics.
  unfoldable pub poll : GridJob b → State b → Turn b
  poll (unpolled f steps) s = run_loop steps f s
  poll (awaiting f steps) s = poll_launch (run_loop steps) steps f true s
  poll returned s = ((s, returned), ready panic)
