-- ===== src/Gpu/Pipeline.antt =====
-- A step between its uploads and its readback (src/gpu/cutile_impl.rs: `step`, `into_host`).
use gudra.Common.{
  ℕ, ◌*◌, ◌/◌, ◌<◌, ◌≡◌, refl, sym, ◌∙◌, ap, arith, F32, f32_zero, f32_size, Arithmetic, List,
  length, replicate, length-replicate, some,
}
use gudra.Geometry.{Shape2D, height, width}
use gudra.Error.{Result, ok, err, panic}
use gudra.Shape.{tile}
use gudra.Shape.Domain.{IsValid}
use gudra.Params.{JacobiParams}
use gudra.Admission.Decision.{InRange, with_buffer}
use gudra.Reference
use gudra.Backend.{Backend, Block, done, TileLaws, LaunchLaws, ◌∈◌}
use gudra.Session.{◌>>=◌, Session, State}
use gudra.Session.Scopes.{own_budget, Restored}
use gudra.Session.Charges.{own-Charged}
use gudra.Gpu.{HaloGrid2D, Field2D}
use gudra.Gpu.Validation.{validate_step}
use gudra.Gpu.Accepted.{Accepts, Usable, validate_step-eq_ok_iff, validate_step-eq_ok_none}
use gudra.Gpu.Reads.{SliceLaws}
use gudra.Gpu.Steps.{step, step_into, into_host, jacobi_on, return_output}
use gudra.Gpu.Outcome.{launched, step_into-StepOutcome}
use gudra.Gpu.Around.{Holds, StepOutcome-written, final_output}
use gudra.Gpu.Written.{run_blocks-list}
use gudra.Gpu.Transfers.{TransferLaws, RowMajor, Available}
use gudra.Gpu.Stored.{Room, Stored, zeros-Stored}
use gudra.Gpu.RoundTrip.{into_host-eq}

module _ (b : Backend) (tiles : TileLaws b) (slices : SliceLaws b) (launches : LaunchLaws b)
    (transfers : TransferLaws b) (row_major : RowMajor b transfers) (available : Available b)
    (completes : (n : ℕ) (t : b.Tensor) (world : b.World) → (b.launch n t world).1.ended ≡ done tt)
    (m : Arithmetic) (session : Session) (source : HaloGrid2D b) (rhs : Field2D b)
    (params : JacobiParams) (s : State b) where
  abbrev shape : Shape2D
  shape = source.storage.shape

  abbrev h : ℕ
  h = height shape

  abbrev w : ℕ
  w = width shape

  abbrev blank : List F32
  blank = replicate shape.interior_len f32_zero

  abbrev n : ℕ
  n = length blank * f32_size

  return_output-eq :
      (q : (State b × Field2D b) × Result (Unit {0}))
      → q.1 ≡ ok tt
      → return_output b q ≡ (q.0.0, ok q.0.1)
  return_output-eq ((s', output), ok t) e = refl
  return_output-eq ((s', output), err x) e = cc
  return_output-eq ((s', output), panic) e = cc

  module _ (valid : IsValid shape) (rhs_shape : rhs.storage.shape ≡ shape)
      (source_usable : Usable b session shape.haloed source.storage)
      (rhs_usable : Usable b session shape.interior rhs.storage) (room : Room b session s n)
      (haloed forcing : List F32) (source_size : shape.haloed_len ≡ length haloed)
      (rhs_size : shape.interior_len ≡ length forcing)
      (source_holds : Holds b source.storage.tensor shape.haloed.0 shape.haloed.1 haloed)
      (rhs_holds : Holds b rhs.storage.tensor h w forcing) where
    -- The output that the step makes, and the end of its launch.
    module _ (made : State b) (output : Field2D b)
        (stored : Stored b transfers available session s shape blank shape.interior made
          output.storage) where
      abbrev ran : List Block
      ran = (launched b session made output).ran

      accepts : Accepts b session source rhs output
      accepts = record {
        rhs_shape = rhs_shape;
        output_shape = stored.same_shape;
        source_usable = source_usable;
        rhs_usable = rhs_usable;
        output_usable = stored.usable;
      }

      covers : (r c : ℕ) → r < h → c < w → (r / tile, c / tile) ∈ ran
      covers r c hr hc =
          launches.covers tile output.storage.tensor _ h w r c (omega arith) stored.usable.extents
            hr hc (completes tile output.storage.tensor _)

      own : own_budget b session made ≡ with_buffer (own_budget b session s) n
      own = own-Charged b session s n made stored.charge

      range : InRange (own_budget b session made).limits
      range = rw own room.range

      slot :
          (own_budget b session made).usage.operations
          < (own_budget b session made).limits.operations
      slot = rw own room.slot

      abbrev stepped : (State b × Field2D b) × Result (Unit {0})
      stepped = step_into b m session source rhs params (made, output)

      abbrev final : Field2D b
      final =
          final_output b slices session source (jacobi_on b m rhs params) made output valid
            source_usable slot (available.binds session.ordinal made.world)
            (completes tile output.storage.tensor _)

      stepped-written :
          (stepped.1 ≡ ok tt) × (stepped.0.1 ≡ final) × Restored b session made stepped.0.0
      stepped-written =
          StepOutcome-written b slices session source (jacobi_on b m rhs params) made output valid
            source_usable slot (available.binds session.ordinal made.world)
            (completes tile output.storage.tensor _)
            (validate_step b session source rhs (some output)) stepped
            ((validate_step-eq_ok_iff b session source rhs output).1 accepts)
            (step_into-StepOutcome b m session source made output rhs params range)

      -- The list that the output holds afterwards.
      final-contents :
          transfers.contents final.storage.tensor
          ≡ (Reference.jacobi_into m shape haloed forcing blank params).0
      final-contents =
          let (extent, list) =
            run_blocks-list b tiles slices m session source rhs output params valid accepts haloed
              forcing blank source_size rhs_size
              (sym (length-replicate shape.interior_len f32_zero)) source_holds rhs_holds ran
              covers in
          row_major.contents_grid final.storage.tensor h w (extent ∙ stored.usable.extents) ∙ list

      stepped-into_host :
          (s' : State b) × (into_host b stepped.0.1 stepped.0.0
            ≡ (s', ok (Reference.jacobi_into m shape haloed forcing blank params).0))
          × Restored b session s s'
      stepped-into_host =
          let (succeeds, same, restored) = stepped-written in
          let (s', down, back) =
            into_host-eq b transfers available session s n stepped.0.0 stepped.0.1 room
              (ap (λ o. o.storage.completion.uncertain) same)
              (ap (λ o. o.storage.session) same ∙ stored.same_session)
              (ap (λ o. o.storage.reservation) same ∙ stored.guard)
              (λ i. restored i ∙ stored.charge i) in
          (
            s',
            down
                ∙ ap (λ xs. (s', ok xs))
                    (ap (λ o. transfers.contents o.storage.tensor) same ∙ final-contents),
            back,
          )

    -- The step and the readback of its output.
    pub step-into_host :
        let cpu = Reference.jacobi_into m shape haloed forcing blank params in
        (s' : State b) × ((step b m session source rhs params >>= into_host b) s ≡ (s', ok cpu.0))
        × Restored b session s s'
    unfolding step
    step-into_host =
        let (made, output, e, stored) =
          zeros-Stored b transfers available session s shape valid room in
        let (s', down, back) = stepped-into_host made output stored in
        let succeeds = (stepped-written made output stored).0 in
        (
          s',
          rw
              (
                validate_step-eq_ok_none b session source rhs rhs_shape source_usable rhs_usable,
                e,
                return_output-eq (stepped made output stored) succeeds,
              )
              down,
          back,
        )
