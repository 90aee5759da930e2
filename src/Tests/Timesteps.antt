-- ===== src/Tests/Timesteps.antt =====
-- Batches of timesteps on the device that runs in the model.
use gudra.Common.{
  ℕ, false, true, checked_add, checked_sub, checked_mul, usize_max, ◌≡◌, refl, arith,
}
use gudra.Error.{Result, err, check_len, resource_limit, backend, ok}
use gudra.Limits.{default}
use gudra.Admission
use gudra.Admission.{Usage, no_usage}
use gudra.Backend.{Backend}
use gudra.Gpu.{Buffer, upload_reserved}
use gudra.Session.{admit_buffer, admit_operation, drop_guard, bind, State}
use gudra.Timesteps.{double_grid, check_count, DoubleGrid, advance, observe, unwrap_shared}
use gudra.Timesteps.Batch.{Ready, Advanced, advance-Advanced}
use gudra.Gpu.Around.{Holds}
use gudra.Timesteps.Host.{host_steps, advance-host_steps}
use gudra.Tests.Stencils.{plain, params, single, single-IsValid, source, rhs}
use gudra.Tests.Devices.{memory, memory-TileLaws, memory-LaunchLaws}
use gudra.Tests.Steps.{session, source_grid, rhs_field, start, start-InRange, resident-Holds}

abbrev pub fixed : DoubleGrid memory
fixed = record { current = source_grid; next = source_grid; rhs = rhs_field; completed = 5 }

pub fixed-Ready : Ready memory 1 1 fixed 2 start
fixed-Ready = record {
  formed = record {
    interior = refl;
    next_interior = refl;
    current_extent = refl;
    next_extent = refl;
    rhs_extent = refl;
    one_session = refl;
  };
  small = (omega arith, omega arith);
  fits = omega arith;
  range = start-InRange;
  slot = omega arith;
  binds = refl;
  completes = λ n t world. refl;
}

advance-Advanced_example :
    (s' : State memory) × (after : DoubleGrid memory) × (advance memory plain fixed 2 params start
      ≡ (s', ok after))
    × Advanced memory plain params 1 1 fixed 2 start s' after
advance-Advanced_example =
    advance-Advanced memory memory-TileLaws memory-LaunchLaws plain params 1 1 fixed 2 start
      fixed-Ready

advance-host_steps_example :
    (s' : State memory) × (after : DoubleGrid memory) × (advance memory plain fixed 2 params start
      ≡ (s', ok after))
    × Holds memory after.current.storage.tensor 3 3 (host_steps plain single rhs params 2 source)
advance-host_steps_example =
    advance-host_steps memory memory-TileLaws memory-LaunchLaws plain params single single-IsValid
      fixed 2 start fixed-Ready source rhs refl refl (resident-Holds source 3 3)
      (resident-Holds rhs 1 1)

-- The fixture of the unit test: room for the three buffers, and for one operation.
abbrev narrow : ℕ → State memory
narrow buffers = record start {
  budgets = λ i.
      Admission.new
        (record { buffer_bytes = 36; total_bytes = 76; buffers = buffers; operations = 1 });
}

usage_of : {A : Type 0} → State memory × Result A → Usage
usage_of r = (r.0.budgets 0).usage

three_charged :
    usage_of (double_grid memory session single source rhs (narrow 3))
    ≡ record { bytes = 76; buffers = 3; operations = 0 }
unfolding usage_of double_grid check_len admit_buffer admit_operation drop_guard bind
    upload_reserved Admission.buffer Admission.operation Admission.release checked_mul checked_add
    checked_sub
three_charged = refl

-- Without a slot for the forcing, the charges of the two grids are given back.
third_refused :
    (usage_of (double_grid memory session single source rhs (narrow 2)) ≡ no_usage)
    × ((double_grid memory session single source rhs (narrow 2)).1
        ≡ err (resource_limit "live buffers" 2))
unfolding usage_of double_grid check_len admit_buffer admit_operation drop_guard bind
    upload_reserved Admission.buffer Admission.operation Admission.release checked_mul checked_add
    checked_sub
third_refused = (refl, refl)

-- A counter that would overflow consumes the grid: its three charges are given back.
abbrev holding : State memory
holding = record start {
  budgets = λ i. record (Admission.new default) {
    usage = record { bytes = 12; buffers = 3; operations = 0 };
  };
}

count_refused :
    let r = advance memory plain (record fixed { completed = usize_max }) 1 params holding in
    (usage_of r ≡ no_usage)
    × (r.1 ≡ err (backend "validate timestep count" "completed counter overflow"))
unfolding usage_of advance check_count drop_guard Admission.release checked_add checked_sub
count_refused = (refl, refl)

-- A copy that keeps its share of the tensor consumes the grid: its three charges are given back.
abbrev keeping : Backend
keeping = record memory { is_sole = λ t world. false }

abbrev kept : Buffer memory → Buffer keeping
kept buffer = record {
  tensor = buffer.tensor;
  shape = buffer.shape;
  session = buffer.session;
  completion = buffer.completion;
  reservation = buffer.reservation;
}

abbrev kept_grid : DoubleGrid keeping
kept_grid = record {
  current = record { storage = kept fixed.current.storage };
  next = record { storage = kept fixed.next.storage };
  rhs = record { storage = kept fixed.rhs.storage };
  completed = 5;
}

abbrev kept_holding : State keeping
kept_holding = record { world = true; budgets = holding.budgets; next_session = 1 }

usage_of_kept : {A : Type 0} → State keeping × Result A → Usage
usage_of_kept r = (r.0.budgets 0).usage

alias_refused :
    let r = observe keeping kept_grid kept_holding in
    (usage_of_kept r ≡ no_usage)
    × (r.1 ≡ err (backend "observe timesteps" "unexpected retained tensor alias"))
unfolding usage_of_kept observe unwrap_shared admit_operation bind drop_guard Admission.operation
    Admission.release checked_add checked_sub
alias_refused = (refl, refl)
