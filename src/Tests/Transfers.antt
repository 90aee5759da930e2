-- ===== src/Tests/Transfers.antt =====
-- Uploads and readback on the device that runs in the model.
use gudra.Common.{◌≡◌, refl, arith}
use gudra.Error.{ok}
use gudra.Session.{State}
use gudra.Session.Scopes.{Restored}
use gudra.Gpu.{Field2D, upload_field}
use gudra.Gpu.Steps.{into_host}
use gudra.Gpu.Accepted.{Usable}
use gudra.Gpu.Stored.{Room}
use gudra.Gpu.RoundTrip.{upload_field-into_host}
use gudra.Tests.Stencils.{single, single-IsValid, rhs}
use gudra.Tests.Devices.{memory, memory-TransferLaws, memory-Available}
use gudra.Tests.Steps.{session, start, start-InRange}

roomy : Room memory session start 4
roomy = record {
  range = start-InRange;
  small = omega arith;
  total = omega arith;
  buffer = omega arith;
  slot = omega arith;
}

upload_field-into_host_example :
    (s' : State memory) × (field : Field2D memory) × (s'' : State memory) × (upload_field memory
        session single rhs start
      ≡ (s', ok field))
    × Usable memory session (1, 1) field.storage
    × (into_host memory field s' ≡ (s'', ok rhs))
    × Restored memory session start s''
upload_field-into_host_example =
    upload_field-into_host memory memory-TransferLaws memory-Available session start single rhs
      single-IsValid refl roomy
