-- ===== src/Tests/Unready.antt =====
-- A field that was left unavailable, on the device that runs in the model.
use gudra.Common.{◌≡◌, refl, true, false, [], ◌∷◌}
use gudra.Error.{err, invalid_buffer}
use gudra.Session.Ledger.{Carries}
use gudra.Gpu.{Field2D}
use gudra.Gpu.Steps.{step, step_into, laplacian_into, into_host}
use gudra.Gpu.Jobs.{step_into_async}
use gudra.Gpu.Unready.{refused_everywhere}
use gudra.Tests.Stencils.{plain, params, spacing}
use gudra.Tests.Devices.{memory}
use gudra.Tests.Steps.{session, source_grid, rhs_field, output_field, step_accepted}
use gudra.Tests.Jobs.{base, holding}

abbrev broken : Field2D memory
broken = record {
  storage = record output_field.storage { completion = record { uncertain = true } };
}

refused_everywhere_example :
    let s = holding false in
    (step_into memory plain session source_grid rhs_field params (s, broken)
      ≡ ((s, broken), err (invalid_buffer "output")))
    × (laplacian_into memory plain session source_grid spacing (s, broken)
        ≡ ((s, broken), err (invalid_buffer "output")))
    × (step_into memory plain session source_grid broken params (s, rhs_field)
        ≡ ((s, rhs_field), err (invalid_buffer "rhs")))
    × (step memory plain session source_grid broken params s ≡ (s, err (invalid_buffer "rhs")))
    × (let r = step_into_async memory session source_grid rhs_field broken params s in
        (r.1 ≡ err (invalid_buffer "output"))
        × Carries memory session base [] r.0
        × (r.0.world ≡ s.world))
    × (let r = into_host memory broken s in
        (r.1 ≡ err (invalid_buffer "field"))
        × Carries memory session base
            (rhs_field.storage.reservation ∷ source_grid.storage.reservation ∷ [])
            r.0
        × (r.0.world ≡ s.world))
refused_everywhere_example =
    refused_everywhere memory session source_grid rhs_field broken refl refl
      step_accepted.source_usable step_accepted.rhs_usable refl plain base (holding false) params
      spacing refl refl refl
      (record { limits = refl; bytes = refl; buffers = refl; operations = refl })
