-- ===== src/Gpu/Unready.antt =====
-- A field that an incomplete call has left unavailable (src/gpu/verification.rs:
-- `invalidated_field_is_rejected_by_every_public_data_path`).
use gudra.Common.{◌≡◌, refl, arith, Arithmetic, String, [], ◌∷◌, some, none, true}
use gudra.Error.{ok, err, invalid_buffer}
use gudra.Params.{JacobiParams, LaplacianParams}
use gudra.Admission.{Budget, Reservation}
use gudra.Completion.{ensure_ready}
use gudra.Backend.{Backend}
use gudra.Session.{Session, State}
use gudra.Session.Ledger.{Owes-rotated, Carries, after_drop-Pays, after_drop-ok}
use gudra.Gpu.{HaloGrid2D, Field2D}
use gudra.Gpu.Accepted.{Usable, check_buffer_iff}
use gudra.Gpu.Validation.{check_fields, check_buffer, validate_fields, validate_step}
use gudra.Gpu.Steps.{drop_buffer, step, step_into, laplacian_into, into_host}
use gudra.Gpu.Jobs.{Job, step_into_async}
use gudra.Gpu.Jobs.Charges.{drop_buffer-Pays, buffer_guards}
use gudra.Gpu.Jobs.Creation.{drop_three-Pays}

module _ (b : Backend) (session : Session) (source : HaloGrid2D b) (rhs field : Field2D b)
    (rhs_shape : rhs.storage.shape ≡ source.storage.shape)
    (field_shape : field.storage.shape ≡ source.storage.shape)
    (source_usable : Usable b session source.storage.shape.haloed source.storage)
    (rhs_usable : Usable b session source.storage.shape.interior rhs.storage)
    (unready : field.storage.completion.uncertain ≡ true) where
  fields_fit :
      (one two : Field2D b)
      → one.storage.shape ≡ source.storage.shape
      → two.storage.shape ≡ source.storage.shape
      → check_fields b source.storage.shape (("rhs", some one) ∷ ("output", some two) ∷ []) ≡ ok tt
  fields_fit one two p q = ground arith

  unready_refused :
      (role : String)
      → check_buffer b session source.storage.shape role field.storage ≡ err (invalid_buffer role)
  unfolding check_buffer ensure_ready
  unready_refused role = ground arith

  not_ready : ensure_ready field.storage.completion "field" ≡ err (invalid_buffer "field")
  unfolding ensure_ready
  not_ready = ground arith

  source_passes : check_buffer b session source.storage.shape "source" source.storage ≡ ok tt
  source_passes =
      (check_buffer_iff b session source.storage.shape "source" source.storage).1 source_usable

  rhs_passes : check_buffer b session source.storage.shape "rhs" rhs.storage ≡ ok tt
  rhs_passes = (check_buffer_iff b session source.storage.shape "rhs" rhs.storage).1 rhs_usable

  output_refused : validate_step b session source rhs (some field) ≡ err (invalid_buffer "output")
  unfolding validate_step
  output_refused =
      rw
        (
          fields_fit rhs field rhs_shape field_shape,
          source_passes,
          rhs_passes,
          unready_refused "output",
        )
        refl

  rhs_refused : validate_step b session source field (some rhs) ≡ err (invalid_buffer "rhs")
  unfolding validate_step
  rhs_refused =
      rw (fields_fit field rhs field_shape rhs_shape, source_passes, unready_refused "rhs") refl

  -- The same with the source alone, and without an output.
  laplacian_refused :
      validate_fields b session source none (some field) ≡ err (invalid_buffer "output")
  unfolding validate_fields
  laplacian_refused = rw (output_fits, source_passes, unready_refused "output") refl
    where
      output_fits :
          check_fields b source.storage.shape (("rhs", none) ∷ ("output", some field) ∷ []) ≡ ok tt
      output_fits = ground arith

  step_refused : validate_step b session source field none ≡ err (invalid_buffer "rhs")
  unfolding validate_step
  step_refused = rw (rhs_fits, source_passes, unready_refused "rhs") refl
    where
      rhs_fits :
          check_fields b source.storage.shape (("rhs", some field) ∷ ("output", none) ∷ []) ≡ ok tt
      rhs_fits = ground arith

  module _ (m : Arithmetic) (base : Budget) (s : State b) (params : JacobiParams)
      (laplacian : LaplacianParams) (source_home : source.storage.session ≡ session)
      (rhs_home : rhs.storage.session ≡ session) (field_home : field.storage.session ≡ session)
      (carries : Carries b session base (buffer_guards b session source rhs field) s) where
    turned :
        Carries b session base
          (field.storage.reservation ∷ rhs.storage.reservation ∷ source.storage.reservation ∷ [])
          s
    turned =
        Owes-rotated base (s.budgets session.id) source.storage.reservation
          field.storage.reservation rhs.storage.reservation carries

    async_refused :
        let r = step_into_async b session source rhs field params s in
        (r.1 ≡ err (invalid_buffer "output"))
        × Carries b session base [] r.0
        × (r.0.world ≡ s.world)
    unfolding step_into_async
    async_refused =
        let (e, c, a, w) =
          after_drop-Pays b session _
            (field.storage.reservation ∷ rhs.storage.reservation ∷ source.storage.reservation ∷ [])
            (drop_three-Pays b session base s source rhs field params source_home rhs_home
              field_home)
            {A = Job b} (err (invalid_buffer "output")) base [] s turned in
        rw output_refused (e, c, w)

    readback_refused :
        let r = into_host b field s in
        (r.1 ≡ err (invalid_buffer "field"))
        × Carries b session base (rhs.storage.reservation ∷ source.storage.reservation ∷ []) r.0
        × (r.0.world ≡ s.world)
    unfolding into_host
    readback_refused =
        let paid =
          drop_buffer-Pays b session field.storage field_home base
            (rhs.storage.reservation ∷ source.storage.reservation ∷ []) s turned in
        rw
          (
            not_ready,
            after_drop-ok {A = Reservation} (err (invalid_buffer "field"))
                (drop_buffer b field.storage s) paid.done,
          )
          (refl, paid.carries, paid.quiet)

    -- Take a source, a right-hand side and a field that a session holds, all of one shape, where
    -- the first two can be used and the field is left unavailable by an incomplete call. As an
    -- output it is refused by `step_into`, `laplacian_into` and `step_into_async`, as a right-hand
    -- side by `step_into` and `step`, and by `into_host`; the error names its role. The borrowing
    -- calls leave the state and the output as they were; of the consuming calls, the
    -- asynchronous step gives the charges of its three buffers back and the readback that of the
    -- field, and neither does anything on the device.
    pub refused_everywhere :
        (step_into b m session source rhs params (s, field)
          ≡ ((s, field), err (invalid_buffer "output")))
        × (laplacian_into b m session source laplacian (s, field)
            ≡ ((s, field), err (invalid_buffer "output")))
        × (step_into b m session source field params (s, rhs)
            ≡ ((s, rhs), err (invalid_buffer "rhs")))
        × (step b m session source field params s ≡ (s, err (invalid_buffer "rhs")))
        × (let r = step_into_async b session source rhs field params s in
            (r.1 ≡ err (invalid_buffer "output"))
            × Carries b session base [] r.0
            × (r.0.world ≡ s.world))
        × (let r = into_host b field s in
            (r.1 ≡ err (invalid_buffer "field"))
            × Carries b session base (rhs.storage.reservation ∷ source.storage.reservation ∷ []) r.0
            × (r.0.world ≡ s.world))
    unfolding step_into laplacian_into step
    refused_everywhere = (
      rw output_refused refl,
      rw laplacian_refused refl,
      rw rhs_refused refl,
      rw step_refused refl,
      async_refused,
      readback_refused,
    )
