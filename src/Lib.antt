-- ===== src/Lib.antt =====
-- Verification of gudra: alias-safe weighted Jacobi and five-point Laplacian operators on haloed
-- two-dimensional f32 grids.
--
-- Parts of the program and their modules (paths from the repository's root):
--
--   src/shape.rs      Geometry (the record Shape2D and its accessors), Shape (`new` and its helpers)
--   src/error.rs      Error (Error, Result, check_len), Error/Display (the text of an error)
--   src/limits.rs     Limits (ResourceLimits, check_shape), Admission (module `admission`)
--   src/completion.rs Completion
--   src/params.rs     Params
--   src/reference.rs  Loop (the loops that write a slice), Reference (jacobi_into, laplacian_into)
--   src/gpu/kernels.rs      Kernels (one block of each entry, and launches as sequences of blocks)
--   src/gpu/cutile_impl.rs  Session (sessions and guards), Gpu (owners, uploads), Gpu/Validation,
--                           Gpu/Views (directional_views), Gpu/Steps (blocking steps, into_host),
--                           Gpu/Jobs (step_into_async)
--   src/gpu/mod.rs          the records HaloGrid2D, Field2D and StepBuffers in Gpu, DoubleGrid in
--                           Timesteps
--   src/gpu/timesteps.rs    Timesteps, Timesteps/Jobs (advance_async)
--   examples/poisson_timesteps.rs  Executor (complete), Examples/HostLoop (the loop on the host, also
--                           of poisson_residual.rs), Examples/Compared (a batch and its snapshot)
--   examples/poisson_step.rs  Examples/DeviceUpdate (uploads, a step and the readback)
--   cuTile and CUDA         Backend, the parameter of every module above that calls them
--
-- How they interact: every constructor validates and returns a Result; a Shape2D fixes the lengths
-- that the reference demands and the bytes that the budgets admit; Limits.check_shape is the static
-- form of the admission that Admission decides with the live usage. A step on the device validates
-- its buffers, takes an operation from the budget of its session, slices the source into five
-- views, and launches a kernel under the guard of Completion; a grid of timesteps launches the
-- kernel timestep from one haloed buffer into the other and swaps them.
--
-- Conventions. A fallible function returns Error.Result, whose third constructor `panic` stands for
-- unwinding: an index out of range, or an arithmetic overflow as a build with overflow checks
-- reports it. Where a theorem says that no panic occurs, a build without the checks computes the
-- same values. Machine integers are natural numbers; usize has 64 bits, and its checked operations
-- are written out in Common/Words. An f32 is its bit pattern; classification and comparison with
-- zero are read off the bits, and the rounded operations are the parameter Common.Arithmetic, which
-- no theorem restricts. The tile arithmetic of the kernels rounds after each operation; a device
-- may contract a product and a sum into one rounding (src/reference.rs allows it), and then the
-- theorems that relate it to the CPU for one arithmetic do not apply. A function that writes a
-- slice returns it with its result (Loop.Effect). The loops run over ranges, so no fuel is needed.
-- A budget sits behind a lock, so a history of it is a sequence of whole method calls in any order
-- (Admission.History). A Reservation leaves out its reference to the budget, since it is always
-- used with the budget that made it.
--
-- The backend is a record of the calls that the code makes. A call returns a value, fails with a
-- text or unwinds, and changes a hidden state. A launch yields the blocks that ran, in their order,
-- and how it ended; a block is one atomic step, since the blocks write disjoint tiles. What the
-- theorems rely on is in TileLaws, LaunchLaws, SliceLaws, TransferLaws and RowMajor, which
-- Tests/Devices.antt fills for a device in memory. Kernel arguments of type i32 and block
-- coordinates are natural numbers. Sessions are told apart by a number where the code compares
-- addresses, and their budgets stand in one state. The Arc around a tensor is not modelled, save
-- that observe asks whether the copy still shares it (Backend.is_sole): a copy that ran has let go
-- of it by TransferLaws, and otherwise observe fails. A guard is dropped where its scope ends, in
-- the code's order; a buffer that the code moves into a call belongs to the callee. An output or a
-- grid that the code changes in place is part of the state of the computation (Session.Run).
--
-- A future of the code is a state of its own (Gpu/Jobs, Timesteps/Jobs): what it has captured
-- before the first poll, the same with a launch in flight, or nothing once its result was handed
-- out. A poll and a drop are functions on it, so that every order of polls and drops is a sequence
-- of calls. A poll of a launch (Backend.poll_launch) finds it in flight or ended; PollLaws says
-- what an ended one has covered, and a Responsive backend finishes every launch within a number of
-- polls, its patience. Executor.complete is the loop of the example that polls until a deadline,
-- which is a number of polls: patience suffices for a step, and for a batch patience + 1 for each
-- of its steps. Session/Ledger counts what a list of guards has charged and what their drops give
-- back, and Session/Ends how a computation ends for the budget of its session. Gpu/Stored and
-- Gpu/Pipeline follow a host slice through the uploads, a step and the readback.
--
-- A text is the list of its code points, and a usize is written with at most 20 digits; the text of
-- an f32 is a parameter (Error/Display).
--
-- Not modelled: the wakers of the futures, since a poll may come at any time; the abort of the
-- process by the backend when completion cannot be proved; the input data of the examples, their
-- tolerance checks, and what they print and measure; and the libraries below vendor/.
pub mod Common
pub mod Geometry
pub mod Error
pub mod Shape
pub mod Limits
pub mod Admission
pub mod Completion
pub mod Params
pub mod Loop
pub mod Reference
pub mod Backend
pub mod Kernels
pub mod Session
pub mod Executor
pub mod Gpu
pub mod Timesteps
pub mod Examples
mod Tests
