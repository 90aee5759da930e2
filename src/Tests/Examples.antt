-- ===== src/Tests/Examples.antt =====
-- The programs of examples/ on the device that runs in the model.
use gudra.Common.{◌+◌, ◌≡◌, refl, arith, f32_zero, replicate}
use gudra.Error.{ok}
use gudra.Reference
use gudra.Session.{State}
use gudra.Session.Scopes.{Restored}
use gudra.Timesteps.{DoubleGrid}
use gudra.Examples.HostLoop.{host_loop}
use gudra.Examples.Compared.{advance_and_observe, advance_and_observe-host_loop}
use gudra.Examples.DeviceUpdate.{Roomy, device_update, device_update-jacobi_into}
use gudra.Tests.Stencils.{single, single-IsValid, plain, source, rhs, output, params}
use gudra.Tests.Devices.{
  memory, memory-TileLaws, memory-SliceLaws, memory-LaunchLaws, memory-TransferLaws,
  memory-RowMajor, memory-Available,
}
use gudra.Tests.Polling.{memory-PollLaws, memory_responsive}
use gudra.Tests.Steps.{session, start, start-InRange, resident-Holds}
use gudra.Tests.Timesteps.{fixed}
use gudra.Tests.Batches.{fixed-Starts}

advance_and_observe-host_loop_example :
    let device = advance_and_observe memory plain params fixed 2 4 start in
    let host = host_loop plain single rhs params 2 (source, output) in
    (host.1 ≡ ok tt)
    × (after : DoubleGrid memory) × (s' : State memory) × (device ≡ (s', ok (after, host.0.0)))
    × (after.completed ≡ 5 + 2)
    × Restored memory session start s'
advance_and_observe-host_loop_example =
    advance_and_observe-host_loop memory memory-TileLaws memory-PollLaws memory_responsive
      memory-TransferLaws memory-RowMajor memory-Available plain params single single-IsValid fixed
      2 4 start fixed-Starts (omega arith) source rhs output refl refl refl
      (resident-Holds source 3 3) (resident-Holds rhs 1 1)

start-Roomy : Roomy memory session single start
start-Roomy = record {
  range = start-InRange;
  halo_fits = omega arith;
  field_fits = omega arith;
  total = omega arith;
  buffers = omega arith;
  slot = omega arith;
}

device_update-jacobi_into_example :
    let cpu = Reference.jacobi_into plain single source rhs (replicate 1 f32_zero) params in
    (cpu.1 ≡ ok tt)
    × (s' : State memory) × (device_update memory plain session single source rhs params start
        ≡ (s', ok cpu.0))
    × Restored memory session start s'
device_update-jacobi_into_example =
    device_update-jacobi_into memory memory-TileLaws memory-SliceLaws memory-LaunchLaws
      memory-TransferLaws memory-RowMajor memory-Available (λ n t world. refl) plain session single
      params start single-IsValid start-Roomy source rhs refl refl
