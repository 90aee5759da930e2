-- ===== src/Gpu/Jobs/Refinement.antt =====
-- A step that is created, polled until it is ready, and compared with the CPU reference.
use gudra.Common.{ℕ, ◌<◌, ◌≤◌, ◌≡◌, refl, Arithmetic, List, length, F32}
use gudra.Geometry.{Shape2D, height, width}
use gudra.Error.{Result, ok}
use gudra.Shape.Domain.{IsValid}
use gudra.Admission.Decision.{InRange}
use gudra.Params.{JacobiParams}
use gudra.Reference
use gudra.Reference.{jacobi_value}
use gudra.Backend.{Backend, done, TileLaws, PollLaws, Responsive}
use gudra.Executor.{complete}
use gudra.Session.{◌>>=◌, Session, State}
use gudra.Session.Scopes.{own_budget, entered, operation_guard, Restored}
use gudra.Session.Inside.{admit_operation-Inside}
use gudra.Gpu.{HaloGrid2D, Field2D, StepBuffers}
use gudra.Gpu.Accepted.{Accepts, validate_step-eq_ok_iff}
use gudra.Gpu.Reads.{SliceLaws, views_of, directional_views-eq_ok}
use gudra.Gpu.Written.{jacobi_into-ok, run_blocks-jacobi_into}
use gudra.Gpu.Around.{Holds}
use gudra.Gpu.Jobs.{Frame, returned, step_into_async, poll, drop_job}
use gudra.Gpu.Jobs.Finish.{Finished, complete-Finished}

module _ (b : Backend) (session : Session) (source : HaloGrid2D b) (rhs output : Field2D b)
    (s : State b) where
  -- The step meets no obstacle: it is valid, a slot is free, and the device binds.
  pub record Starts : Type 0 where
    pub valid : IsValid source.storage.shape
    pub range : InRange (own_budget b session s).limits
    pub accepts : Accepts b session source rhs output
    pub slot :
        (own_budget b session s).usage.operations < (own_budget b session s).limits.operations
    pub binds : (b.bind_to_thread session.ordinal s.world).1 ≡ done tt

module _ (b : Backend) (tiles : TileLaws b) (slices : SliceLaws b) (laws : PollLaws b)
    (responsive : Responsive b) (m : Arithmetic) (session : Session) (source : HaloGrid2D b)
    (rhs output : Field2D b) (params : JacobiParams) (s : State b) where
  abbrev shape : Shape2D
  shape = source.storage.shape

  abbrev h : ℕ
  h = height shape

  abbrev w : ℕ
  w = width shape

  -- `complete(gpu.step_into_async(…)?)`.
  abbrev ran : ℕ → State b × Result (StepBuffers b)
  ran polls =
      (step_into_async b session source rhs output params
          >>= complete (poll b m) (drop_job b) polls)
        s

  module _ (starts : Starts b session source rhs output s) where
    open starts use {valid, range, accepts, slot, binds}

    abbrev frame : Frame b
    frame = record {
      session = session;
      operation = operation_guard;
      source = source;
      rhs = rhs;
      output = output;
      params = params;
    }

    ran-Finished :
        (polls : ℕ)
        → responsive.patience ≤ polls
        → Finished b m session s frame
            (views_of b slices source)
            (ran polls).1
            returned
            (ran polls).0
    unfolding step_into_async
    ran-Finished polls enough =
        let (e, inside) = admit_operation-Inside b session s range slot in
        rw ((validate_step-eq_ok_iff b session source rhs output).1 accepts, e)
          (complete-Finished b m session s frame (views_of b slices source) laws responsive refl
            (directional_views-eq_ok b slices source valid accepts.source_usable.extents
              accepts.source_usable.row_stride)
            polls (entered b session s) enough binds inside)

    module _ (polls : ℕ) (enough : responsive.patience ≤ polls) (haloed forcing out : List F32)
        (source_size : shape.haloed_len ≡ length haloed)
        (rhs_size : shape.interior_len ≡ length forcing)
        (out_size : shape.interior_len ≡ length out)
        (source_holds : Holds b source.storage.tensor shape.haloed.0 shape.haloed.1 haloed)
        (rhs_holds : Holds b rhs.storage.tensor h w forcing) where
      -- Under the documented behaviour of tiles, slices and polled launches, on a backend that
      -- finishes its launches, a step that meets no obstacle is ready before a deadline that is
      -- late enough. It hands out the source and the right-hand side as they were, and an output
      -- that holds what `jacobi_into` makes of their host slices, for one arithmetic on both. The
      -- budgets of all sessions are what they were before.
      pub step_into_async-jacobi_into :
          let cpu = Reference.jacobi_into m shape haloed forcing out params in
          (cpu.1 ≡ ok tt)
          × (after : StepBuffers b) × ((ran polls).1 ≡ ok after)
          × (after.source ≡ source)
          × (after.rhs ≡ rhs)
          × Holds b after.output.storage.tensor h w cpu.0
          × Restored b session s (ran polls).0
      step_into_async-jacobi_into =
          let fin = ran-Finished polls enough in
          (
            jacobi_into-ok b tiles slices m session source rhs output params valid accepts haloed
                forcing out source_size rhs_size out_size source_holds rhs_holds,
            _,
            fin.result,
            refl,
            refl,
            (λ r c hr hc.
                run_blocks-jacobi_into b tiles slices m session source rhs output params valid
                  accepts haloed forcing out source_size rhs_size out_size source_holds rhs_holds
                  fin.launch.ran r c hr hc
                  (fin.covers h w r c accepts.output_usable.extents hr hc)),
            fin.restored,
          )
