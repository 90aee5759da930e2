-- ===== src/Tests/Charges.antt =====
-- The charges of uploads and steps on the device that runs in the model.
use gudra.Common.{arith}
use gudra.Gpu.{upload_halo, upload_field}
use gudra.Gpu.Steps.{step}
use gudra.Timesteps.{double_grid}
use gudra.Timesteps.Construction.{double_grid-EndsGrid}
use gudra.Timesteps.Construction.Uploads.{EndsGrid}
use gudra.Gpu.Charges.{HaloCharging, FieldCharging, uploads-Charging}
use gudra.Gpu.StepCharges.{step-FieldCharging}
use gudra.Tests.Stencils.{plain, params, single, source, rhs}
use gudra.Tests.Devices.{memory}
use gudra.Tests.Steps.{session, start, start-InRange, source_grid, rhs_field}

uploads-Charging_example :
    HaloCharging memory session start 36 (upload_halo memory session single source start)
    × FieldCharging memory session start 36 (upload_field memory session single source start)
uploads-Charging_example =
    uploads-Charging memory session start start-InRange single source (omega arith)

step-FieldCharging_example :
    FieldCharging memory session start 4
      (step memory plain session source_grid rhs_field params start)
step-FieldCharging_example =
    step-FieldCharging memory plain session start start-InRange source_grid rhs_field params

double_grid-EndsGrid_example :
    EndsGrid memory session
      (start.budgets 0)
      start
      single
      (double_grid memory session single source rhs start)
double_grid-EndsGrid_example =
    double_grid-EndsGrid memory session start single source rhs start-InRange
