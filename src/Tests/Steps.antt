-- ===== src/Tests/Steps.antt =====
-- The device operations on the device that runs in the model, on a single interior cell.
use gudra.Common.{
  ◌+◌, ◌-◌, ◌*◌, checked_add, checked_sub, ℕ, ◌≡◌, ◌↔◌, refl, ap, inl, inr, arith, true, F32, some,
  none, List, [], ◌∷◌,
}
use gudra.Error.{ok, err, context_mismatch}
use gudra.Limits.{default}
use gudra.Admission
use gudra.Admission.{Reservation}
use gudra.Admission.Decision.{InRange}
use gudra.Completion.{ready, ensure_ready}
use gudra.Reference
use gudra.Reference.{jacobi_value, laplacian_value}
use gudra.Reference.Cells.{at}
use gudra.Kernels.{run_blocks, jacobi, jacobi_tile}
use gudra.Loop.{row_from, rows_from}
use gudra.Kernels.Blocks.{
  Views, stencil_of, jacobi_kernel, timestep_kernel, timestep_value, cell-jacobi, cell-timestep,
}
use gudra.Session.{Session, State, admit_operation, drop_guard, bind}
use gudra.Session.Scopes.{own_budget}
use gudra.Gpu.{Buffer, HaloGrid2D, Field2D, shape_discrete}
use gudra.Gpu.Accepted.{Accepts, validate_step-eq_ok_iff}
use gudra.Gpu.Validation.{validate_step, validate_fields, check_buffer, check_metadata}
use gudra.Gpu.Views.{directional_views}
use gudra.Gpu.Steps.{step_into, laplacian_into, jacobi_on, laplacian_on}
use gudra.Gpu.Outcome.{StepOutcome, step_into-StepOutcome, laplacian_into-StepOutcome}
use gudra.Gpu.Around.{Holds}
use gudra.Gpu.Laplacian.{Unhindered, laplacian_into-laplacian_into}
use gudra.Gpu.Refinement.{Runs, step_into-jacobi_into}
use gudra.Tests.Stencils.{single, single-IsValid, plain, source, rhs, output, params, spacing}
use gudra.Tests.Devices.{
  Memory, memory, reshaped, from_host, from_host-contents, part, memory-TileLaws, memory-SliceLaws,
  memory-LaunchLaws,
}

abbrev pub session : Session
session = record { id = 0; ordinal = 0 }

abbrev resident : List F32 → ℕ → ℕ → Memory
resident values h w = reshaped (from_host 0 values) h w

pub resident-Holds : (values : List F32) (h w : ℕ) → Holds memory (resident values h w) h w values
resident-Holds values h w r c hr hc = ap (λ xs. at xs w r c) (from_host-contents 0 values)

abbrev buffer : List F32 → ℕ → ℕ → Buffer memory
buffer values h w = record {
  tensor = resident values h w;
  shape = single;
  session = session;
  completion = ready;
  reservation = record { bytes = 4; is_buffer = true };
}

abbrev pub source_grid : HaloGrid2D memory
source_grid = record { storage = buffer source 3 3 }

abbrev pub rhs_field : Field2D memory
rhs_field = record { storage = buffer rhs 1 1 }

abbrev pub output_field : Field2D memory
output_field = record { storage = buffer output 1 1 }

abbrev pub start : State memory
start = record { world = true; budgets = λ i. Admission.new default; next_session = 1 }

pub start-InRange : InRange (own_budget memory session start).limits
start-InRange = omega arith

pub step_accepted : Accepts memory session source_grid rhs_field output_field
step_accepted = record {
  rhs_shape = refl;
  output_shape = refl;
  source_usable = record {
    is_ready = refl;
    own_session = refl;
    own_device = refl;
    extents = refl;
    row_stride = refl;
  };
  rhs_usable = record {
    is_ready = refl;
    own_session = refl;
    own_device = refl;
    extents = refl;
    row_stride = refl;
  };
  output_usable = record {
    is_ready = refl;
    own_session = refl;
    own_device = refl;
    extents = refl;
    row_stride = refl;
  };
}

step_runs : Runs memory session source_grid rhs_field start output_field
step_runs = record {
  valid = single-IsValid;
  range = start-InRange;
  accepts = step_accepted;
  slot = omega arith;
  binds = refl;
  ends = refl;
}

step_into-jacobi_into_example :
    let device =
      step_into memory plain session source_grid rhs_field params (start, output_field) in
    let cpu = Reference.jacobi_into plain single source rhs output params in
    (device.1 ≡ ok tt) × (cpu.1 ≡ ok tt) × (device.0.1.storage.tensor.value 0 0 ≡ at cpu.0 1 0 0)
step_into-jacobi_into_example =
    step_into-jacobi_into memory memory-TileLaws memory-SliceLaws memory-LaunchLaws plain session
      source_grid rhs_field params start output_field step_runs source rhs output refl refl refl
      (resident-Holds source 3 3) (resident-Holds rhs 1 1) 0 0 (omega arith) (omega arith)

step_into-StepOutcome_example :
    StepOutcome memory session source_grid
      (validate_step memory session source_grid rhs_field (some output_field))
      (jacobi_on memory plain rhs_field params)
      start
      output_field
      (step_into memory plain session source_grid rhs_field params (start, output_field))
step_into-StepOutcome_example =
    step_into-StepOutcome memory plain session source_grid start output_field rhs_field params
      start-InRange

laplacian_into-StepOutcome_example :
    StepOutcome memory session source_grid
      (validate_fields memory session source_grid none (some output_field))
      (laplacian_on memory plain spacing)
      start
      output_field
      (laplacian_into memory plain session source_grid spacing (start, output_field))
laplacian_into-StepOutcome_example =
    laplacian_into-StepOutcome memory plain session source_grid start output_field spacing
      start-InRange

validate_step-eq_ok_iff_example :
    (validate_step memory session source_grid rhs_field (some output_field) ≡ ok tt)
    ↔ Accepts memory session source_grid rhs_field output_field
validate_step-eq_ok_iff_example =
    validate_step-eq_ok_iff memory session source_grid rhs_field output_field

abbrev views : Views memory memory-TileLaws plain 1 1
views = record {
  center = part (resident source 3 3) (1, 2) (1, 2);
  north = part (resident source 3 3) (0, 1) (1, 2);
  south = part (resident source 3 3) (2, 3) (1, 2);
  east = part (resident source 3 3) (1, 2) (2, 3);
  west = part (resident source 3 3) (1, 2) (0, 1);
  center_fits = refl;
  north_fits = refl;
  south_fits = refl;
  east_fits = refl;
  west_fits = refl;
}

cell-jacobi_example :
    (run_blocks memory
        (jacobi_kernel memory memory-TileLaws plain 1 1 views (resident rhs 1 1) params)
        ((0, 0) ∷ [])
        (resident output 1 1)).value
      0 0
    ≡ jacobi_value plain params
        (stencil_of memory memory-TileLaws plain 1 1 views 0 0)
        ((resident rhs 1 1).value 0 0)
cell-jacobi_example =
    cell-jacobi memory memory-TileLaws plain 1 1 views (resident rhs 1 1) (resident output 1 1)
      params ((0, 0) ∷ []) 0 0 refl refl (omega arith) (omega arith) (inl refl)

cell-timestep_example :
    (run_blocks memory
        (timestep_kernel memory memory-TileLaws plain 1 1
          (resident source 3 3)
          (resident rhs 1 1)
          params)
        ((2, 1) ∷ (1, 1) ∷ [])
        (resident source 3 3)).value
      1 1
    ≡ timestep_value memory memory-TileLaws plain 1 1
        (resident source 3 3)
        (resident rhs 1 1)
        params
        1
        1
cell-timestep_example =
    cell-timestep memory memory-TileLaws plain 1 1 (resident source 3 3) (resident rhs 1 1)
      (resident source 3 3) params ((2, 1) ∷ (1, 1) ∷ []) 1 1 refl refl refl (omega arith)
      (omega arith) (inr (inl refl))

unhindered : Unhindered memory session source_grid start output_field
unhindered = record {
  valid = single-IsValid;
  range = start-InRange;
  accepts = record {
    output_shape = refl;
    source_usable = step_accepted.source_usable;
    output_usable = step_accepted.output_usable;
  };
  slot = omega arith;
  binds = refl;
  ends = refl;
}

laplacian_into-laplacian_into_example :
    let device = laplacian_into memory plain session source_grid spacing (start, output_field) in
    let cpu = Reference.laplacian_into plain single source output spacing in
    (device.1 ≡ ok tt) × (cpu.1 ≡ ok tt) × (device.0.1.storage.tensor.value 0 0 ≡ at cpu.0 1 0 0)
laplacian_into-laplacian_into_example =
    laplacian_into-laplacian_into memory memory-TileLaws memory-SliceLaws memory-LaunchLaws plain
      session source_grid spacing start output_field unhindered source output refl refl
      (resident-Holds source 3 3) 0 0 (omega arith) (omega arith)

-- The step of the device on the fixture gives the number of the run on the CPU.
device_update :
    (step_into memory plain session source_grid rhs_field params
        (start, output_field)).0.1.storage.tensor.value
      0 0
    ≡ (0x3f80_0000 - 2) * 4 + 2 * (0x3e80_0000 * 2)
unfolding shape_discrete step_into validate_step directional_views admit_operation drop_guard bind
    run_blocks jacobi jacobi_tile check_buffer check_metadata Admission.operation Admission.release
    ensure_ready checked_add checked_sub row_from rows_from native.Mathlib.Decide.ℕ_discrete
device_update = refl

-- A second session cannot use the buffers of the first.
other_session :
    validate_step memory (record { id = 1; ordinal = 0 }) source_grid rhs_field (some output_field)
    ≡ err (context_mismatch "source")
unfolding shape_discrete validate_step check_buffer check_metadata ensure_ready
    native.Mathlib.Decide.ℕ_discrete
other_session = refl
