-- ===== src/Tests/Jobs.antt =====
-- Steps that are polled, on the device that runs in the model.
use gudra.Common.{if◌then◌else◌, ◌≡◌, refl, arith, true, false, Bool}
use gudra.Error.{ok}
use gudra.Limits.{default}
use gudra.Admission
use gudra.Admission.{Budget, Reservation}
use gudra.Reference
use gudra.Executor.{complete}
use gudra.Executor.Creation.{Created}
use gudra.Session.{◌>>=◌, State}
use gudra.Session.Scopes.{Restored, operation_guard}
use gudra.Session.Ledger.{Apart}
use gudra.Gpu.{StepBuffers}
use gudra.Gpu.Around.{Holds}
use gudra.Gpu.Jobs.{Frame, Job, unpolled, awaiting, step_into_async, poll, drop_job}
use gudra.Gpu.Jobs.Charges.{IsHome, JobPolled, poll-JobPolled, drop_job-Paid, buffer_guards}
use gudra.Gpu.Jobs.Creation.{step_into_async-Created}
use gudra.Gpu.Jobs.Refinement.{Starts, step_into_async-jacobi_into}
use gudra.Tests.Stencils.{single, single-IsValid, plain, source, rhs, output, params}
use gudra.Tests.Devices.{memory, memory-TileLaws, memory-SliceLaws, part}
use gudra.Tests.Polling.{memory-PollLaws, memory_responsive}
use gudra.Tests.Steps.{
  session, source_grid, rhs_field, output_field, start, start-InRange, step_accepted,
  resident-Holds,
}

step_starts : Starts memory session source_grid rhs_field output_field start
step_starts = record {
  valid = single-IsValid;
  range = start-InRange;
  accepts = step_accepted;
  slot = omega arith;
  binds = refl;
}

step_into_async-jacobi_into_example :
    let ran =
      (step_into_async memory session source_grid rhs_field output_field params
          >>= complete (poll memory plain) (drop_job memory) 5)
        start in
    let cpu = Reference.jacobi_into plain single source rhs output params in
    (cpu.1 ≡ ok tt)
    × (after : StepBuffers memory) × (ran.1 ≡ ok after)
    × (after.source ≡ source_grid)
    × (after.rhs ≡ rhs_field)
    × Holds memory after.output.storage.tensor 1 1 cpu.0
    × Restored memory session start ran.0
step_into_async-jacobi_into_example =
    step_into_async-jacobi_into memory memory-TileLaws memory-SliceLaws memory-PollLaws
      memory_responsive plain session source_grid rhs_field output_field params start step_starts 5
      (omega arith) source rhs output refl refl refl (resident-Holds source 3 3)
      (resident-Holds rhs 1 1)

-- A budget with three buffers of four bytes, and with an operation beside them.
abbrev pub base : Budget
base = Admission.new default

abbrev pub holding : Bool → State memory
holding running = record start {
  budgets = λ i. record base {
    usage = record { bytes = 12; buffers = 3; operations = if running then 1 else 0 };
  };
}

abbrev frame : Frame memory
frame = record {
  session = session;
  operation = operation_guard;
  source = source_grid;
  rhs = rhs_field;
  output = output_field;
  params = params;
}

abbrev job : Job memory
job = awaiting frame (record {
  center = part source_grid.storage.tensor (1, 2) (1, 2);
  north = part source_grid.storage.tensor (0, 1) (1, 2);
  south = part source_grid.storage.tensor (2, 3) (1, 2);
  east = part source_grid.storage.tensor (1, 2) (2, 3);
  west = part source_grid.storage.tensor (1, 2) (0, 1);
})

frame-IsHome : IsHome memory session frame
frame-IsHome = record { frame_home = refl; source_home = refl; rhs_home = refl; output_home = refl }

poll-JobPolled_example :
    JobPolled memory session base (holding true) (poll memory plain job (holding true))
poll-JobPolled_example =
    poll-JobPolled memory session base (holding true) plain job frame-IsHome
      (record { limits = refl; bytes = refl; buffers = refl; operations = refl })

drop_job-Paid_example :
    let r = drop_job memory job (holding true) in
    (r.1 ≡ ok tt)
    × (r.0.budgets session.id ≡ base)
    × Apart memory session (holding true) r.0
    × ((f : Frame memory) → job ≡ unpolled f → r.0.world ≡ (holding true).world)
drop_job-Paid_example =
    drop_job-Paid memory session base (holding true) job frame-IsHome
      (record { limits = refl; bytes = refl; buffers = refl; operations = refl })

step_into_async-Created_example :
    Created memory session base
      (holding false)
      (buffer_guards memory session source_grid rhs_field output_field)
      (λ operation. unpolled (record {
        session = session;
        operation = operation;
        source = source_grid;
        rhs = rhs_field;
        output = output_field;
        params = params;
      }))
      (step_into_async memory session source_grid rhs_field output_field params (holding false))
step_into_async-Created_example =
    step_into_async-Created memory session base (holding false) source_grid rhs_field output_field
      params refl refl refl start-InRange
      (record { limits = refl; bytes = refl; buffers = refl; operations = refl })
