-- ===== src/Examples/DeviceUpdate.antt =====
-- One update on the device (examples/poisson_step.rs): two uploads, a step, and a readback.
use gudra.Common.{
  ℕ, ◌+◌, ◌*◌, ◌≤◌, ◌<◌, ◌≡◌, refl, sym, ◌∙◌, ap, ap₂, subst, arith, F32, f32_zero, f32_size,
  Arithmetic, List, length, replicate, length-replicate,
}
use gudra.Geometry.{Shape2D, height, width}
use gudra.Error.{Result, ok}
use gudra.Shape.Domain.{IsValid}
use gudra.Params.{JacobiParams}
use gudra.Admission.{Budget}
use gudra.Admission.Decision.{InRange, with_buffer}
use gudra.Reference
use gudra.Reference.Filled.{jacobi_into-grid}
use gudra.Backend.{Backend, done, TileLaws, LaunchLaws}
use gudra.Session.{Run, ◌>>=◌, scoped, Session, State, drop_guard}
use gudra.Session.Scopes.{own_budget, Restored}
use gudra.Session.Charges.{
  buffer_guard, Charged, own-Charged, returned, returned-Restored, drop_guard-Charged,
}
use gudra.Gpu.{Buffer, upload_halo, upload_field}
use gudra.Gpu.Accepted.{Usable}
use gudra.Gpu.Around.{Holds}
use gudra.Gpu.Reads.{SliceLaws}
use gudra.Gpu.Steps.{drop_buffer, step, into_host}
use gudra.Gpu.Transfers.{TransferLaws, RowMajor, Available}
use gudra.Gpu.Stored.{Room, upload_halo-Stored, upload_field-Stored}
use gudra.Gpu.Pipeline.{step-into_host}

module _ (b : Backend) (m : Arithmetic) where
  -- The owners of the source and of the right-hand side go out of scope at the end.
  unfoldable pub device_update :
      Session → Shape2D → List F32 → List F32 → JacobiParams → Run (State b) (List F32)
  device_update session shape haloed forcing params =
      upload_halo b session shape haloed >>= λ source. scoped (drop_buffer b source.storage) (
        upload_field b session shape forcing >>= λ rhs.
        scoped (drop_buffer b rhs.storage) (step b m session source rhs params >>= into_host b))

module _ (b : Backend) (session : Session) (shape : Shape2D) (s : State b) where
  -- The budget has room for the three buffers of the step, and for an operation.
  pub record Roomy : Type 0 where
    pub range : InRange (own_budget b session s).limits
    pub halo_fits : shape.haloed_bytes ≤ (own_budget b session s).limits.buffer_bytes
    pub field_fits : shape.interior_bytes ≤ (own_budget b session s).limits.buffer_bytes
    pub total :
        (own_budget b session s).usage.bytes
          + (shape.haloed_bytes + shape.interior_bytes + shape.interior_bytes)
        ≤ (own_budget b session s).limits.total_bytes
    pub buffers :
        (own_budget b session s).usage.buffers + 3 ≤ (own_budget b session s).limits.buffers
    pub slot :
        (own_budget b session s).usage.operations < (own_budget b session s).limits.operations

module _ (b : Backend) (tiles : TileLaws b) (slices : SliceLaws b) (launches : LaunchLaws b)
    (transfers : TransferLaws b) (row_major : RowMajor b transfers) (available : Available b)
    (completes : (n : ℕ) (t : b.Tensor) (world : b.World) → (b.launch n t world).1.ended ≡ done tt)
    (m : Arithmetic) (session : Session) (shape : Shape2D) (params : JacobiParams) (s : State b)
    (valid : IsValid shape) (roomy : Roomy b session shape s) (haloed forcing : List F32)
    (source_size : shape.haloed_len ≡ length haloed)
    (rhs_size : shape.interior_len ≡ length forcing) where
  open roomy use {range, halo_fits, field_fits, total, buffers, slot}

  abbrev halo_bytes : ℕ
  halo_bytes = length haloed * f32_size

  abbrev field_bytes : ℕ
  field_bytes = length forcing * f32_size

  -- A budget that is known has room.
  known-Room :
      (s' : State b) (n : ℕ) (budget : Budget)
      → own_budget b session s' ≡ budget
      → InRange budget.limits
      → n ≤ budget.limits.buffer_bytes
      → budget.usage.bytes + n ≤ budget.limits.total_bytes
      → budget.usage.buffers < budget.limits.buffers
      → budget.usage.operations < budget.limits.operations
      → Room b session s' n
  known-Room s' n budget e range small total buffer slot = record {
    range = subst (λ k. InRange k.limits) (sym e) range;
    small = subst (λ k. n ≤ k.limits.buffer_bytes) (sym e) small;
    total = subst (λ k. k.usage.bytes + n ≤ k.limits.total_bytes) (sym e) total;
    buffer = subst (λ k. k.usage.buffers < k.limits.buffers) (sym e) buffer;
    slot = subst (λ k. k.usage.operations < k.limits.operations) (sym e) slot;
  }

  room : Room b session s halo_bytes
  room = record {
    range = range;
    small = omega (arith, valid.halo_bytes);
    total = omega (arith, valid.halo_bytes);
    buffer = omega arith;
    slot = slot;
  }

  -- The output of the step, before it is written.
  abbrev blank : List F32
  blank = replicate shape.interior_len f32_zero

  abbrev cpu : List F32 × Result (Unit {0})
  cpu = Reference.jacobi_into m shape haloed forcing blank params

  -- After the upload of the source, and after that of the right-hand side.
  module _ (once : State b) (charge : Charged b session s halo_bytes once) where
    own_once : own_budget b session once ≡ with_buffer (own_budget b session s) halo_bytes
    own_once = own-Charged b session s halo_bytes once charge

    once-Room : Room b session once field_bytes
    once-Room =
        known-Room once field_bytes (with_buffer (own_budget b session s) halo_bytes) own_once range
          (omega (arith, valid.bytes)) (omega (arith, valid.halo_bytes, valid.bytes)) (omega arith)
          slot

    module _ (twice : State b) (charge_twice : Charged b session once field_bytes twice) where
      own_twice : own_budget b session twice ≡ with_buffer (own_budget b session once) field_bytes
      own_twice = own-Charged b session once field_bytes twice charge_twice

      twice-Room : (count : ℕ) → count ≡ length forcing → Room b session twice (count * f32_size)
      twice-Room count e =
          known-Room twice (count * f32_size)
            (with_buffer (with_buffer (own_budget b session s) halo_bytes) field_bytes)
            (own_twice ∙ ap (λ k. with_buffer k field_bytes) own_once) range
            (omega (arith, valid.bytes)) (omega (arith, valid.halo_bytes, valid.bytes))
            (omega arith) slot

  -- The drop of an owner whose charge is the last one.
  drop_buffer-Restored :
      (before s' : State b) (buffer : Buffer b) (n : ℕ)
      → buffer.session ≡ session
      → buffer.reservation ≡ buffer_guard n
      → Charged b session before n s'
      → (drop_buffer b buffer s' ≡ (returned b session before s', ok tt))
        × Restored b session before (returned b session before s')
  drop_buffer-Restored before s' buffer n home guard charge = (
    ap₂ (λ k g. drop_guard b k g s') home guard ∙ drop_guard-Charged b session before n s' charge,
    returned-Restored b session before n s' charge,
  )

  -- Under the documented behaviour of tiles, slices, launches and copies, on a backend whose calls
  -- succeed, and with room in the budget: the uploads, the step and the readback give exactly the
  -- list that `jacobi_into` computes from the same slices, for one arithmetic on both; `jacobi_into`
  -- succeeds; and once the owners are out of scope, every budget is what it was before.
  pub device_update-jacobi_into :
      (cpu.1 ≡ ok tt)
      × (s' : State b) × (device_update b m session shape haloed forcing params s ≡ (s', ok cpu.0))
      × Restored b session s s'
  unfolding device_update
  device_update-jacobi_into =
      let (once, source, up, st) =
        upload_halo-Stored b transfers available session s shape haloed valid source_size room in
      let (twice, rhs, up', st') =
        upload_field-Stored b transfers available session once shape forcing valid rhs_size
          (once-Room once st.charge) in
      let same = sym st.same_shape in
      let (s', down, restored) =
        step-into_host b tiles slices launches transfers row_major available completes m session
          source rhs params twice (subst IsValid same valid) (st'.same_shape ∙ same)
          (subst (λ k. Usable b session k.haloed source.storage) same st.usable)
          (subst (λ k. Usable b session k.interior rhs.storage) same st'.usable)
          (twice-Room once st.charge twice st'.charge _
            (length-replicate _ f32_zero ∙ ap (λ k. k.interior_len) st.same_shape ∙ rhs_size))
          haloed forcing (ap (λ k. k.haloed_len) st.same_shape ∙ source_size)
          (ap (λ k. k.interior_len) st.same_shape ∙ rhs_size)
          (subst (λ k. Holds b source.storage.tensor k.haloed.0 k.haloed.1 haloed) same st.holds)
          (subst (λ k. Holds b rhs.storage.tensor (height k) (width k) forcing) same st'.holds) in
      let read =
        down
        ∙ ap
            (λ k. (
              s',
              ok
                  (Reference.jacobi_into m k haloed forcing (replicate k.interior_len f32_zero)
                    params).0,
            ))
            st.same_shape in
      let (e, inner) =
        drop_buffer-Restored once s' rhs.storage field_bytes st'.same_session st'.guard
          (λ i. restored i ∙ st'.charge i) in
      let (e', outer) =
        drop_buffer-Restored s (returned b session once s') source.storage halo_bytes
          st.same_session st.guard (λ i. inner i ∙ st.charge i) in
      (
        ap (λ q. q.1)
            (jacobi_into-grid m shape valid haloed blank source_size
              (sym (length-replicate shape.interior_len f32_zero)) forcing params rhs_size),
        returned b session s (returned b session once s'),
        rw (up, up', read, e, e') refl,
        outer,
      )
