-- ===== src/Tests/Batches.antt =====
-- Batches that are polled, on the device that runs in the model.
use gudra.Common.{ℕ, ◌≡◌, refl, arith, true}
use gudra.Error.{Result, ok}
use gudra.Executor.{complete}
use gudra.Session.{◌>>=◌, State}
use gudra.Session.Scopes.{operation_guard}
use gudra.Timesteps.{DoubleGrid, advance}
use gudra.Timesteps.Values.{Agree}
use gudra.Timesteps.Batch.{Advanced}
use gudra.Timesteps.Jobs.{GridFrame, awaiting, advance_async, poll, drop_job}
use gudra.Timesteps.Jobs.Charges.{IsHomeGrid, GridPolled, poll-GridPolled}
use gudra.Timesteps.Jobs.Batch.{Starts, advance_async-Advanced, advance_async-advance}
use gudra.Tests.Stencils.{plain, params}
use gudra.Tests.Devices.{memory, memory-TileLaws, memory-LaunchLaws}
use gudra.Tests.Polling.{memory-PollLaws, memory_responsive}
use gudra.Tests.Steps.{session, start, start-InRange}
use gudra.Tests.Jobs.{base, holding}
use gudra.Tests.Timesteps.{fixed, fixed-Ready}

pub fixed-Starts : Starts memory 1 1 fixed 2 start
fixed-Starts = record {
  formed = fixed-Ready.formed;
  small = fixed-Ready.small;
  fits = omega arith;
  range = start-InRange;
  slot = omega arith;
  binds = λ world. refl;
}

abbrev polled : State memory × Result (DoubleGrid memory)
polled =
    (advance_async memory fixed 2 params >>= complete (poll memory plain) (drop_job memory) 4) start

advance_async-Advanced_example :
    (after : DoubleGrid memory) × (polled.1 ≡ ok after)
    × Advanced memory plain params 1 1 fixed 2 start polled.0 after
advance_async-Advanced_example =
    advance_async-Advanced memory memory-TileLaws memory-PollLaws memory_responsive plain params 1 1
      fixed 2 start fixed-Starts 4 (omega arith)

advance_async-advance_example :
    (blocked : State memory) × (other : DoubleGrid memory) × (advance memory plain fixed 2 params
        start
      ≡ (blocked, ok other))
    × (after : DoubleGrid memory) × (polled.1 ≡ ok after)
    × (after.completed ≡ other.completed)
    × Agree 1 1
        (memory.cell after.current.storage.tensor)
        (memory.cell other.current.storage.tensor)
    × ((i : ℕ) → polled.0.budgets i ≡ blocked.budgets i)
advance_async-advance_example =
    advance_async-advance memory memory-TileLaws memory-PollLaws memory_responsive plain params 1 1
      fixed 2 start fixed-Starts 4 (omega arith) memory-LaunchLaws fixed-Ready

abbrev frame : GridFrame memory
frame = record { session = session; guard = operation_guard; grid = fixed; params = params }

fixed-IsHomeGrid : IsHomeGrid memory session fixed
fixed-IsHomeGrid = record { current_home = refl; next_home = refl; rhs_home = refl }

poll-GridPolled_example :
    GridPolled memory session base
      (holding true)
      (poll memory plain (awaiting frame 1) (holding true))
poll-GridPolled_example =
    poll-GridPolled memory session base (holding true) plain (awaiting frame 1)
      (refl, fixed-IsHomeGrid)
      (record { limits = refl; bytes = refl; buffers = refl; operations = refl })
