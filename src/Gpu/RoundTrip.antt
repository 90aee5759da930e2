-- ===== src/Gpu/RoundTrip.antt =====
-- A field that is uploaded and read back: `upload_field`, `into_host` (src/gpu/cutile_impl.rs).
use gudra.Common.{
  ℕ, ◌*◌, ◌<◌, ◌==◌, ◌≡◌, refl, ◌∙◌, ap, inl, inr, arith, false, Bool-cases, F32, f32_size, List,
  length, checked_sub,
}
use gudra.Geometry.{Shape2D}
use gudra.Error.{ok}
use gudra.Shape.Domain.{IsValid}
use gudra.Admission
use gudra.Admission.{Reservation, Budget}
use gudra.Admission.Decision.{
  InRange, with_buffer, with_operation, OperationVerdict, operation-OperationVerdict, busy, started,
}
use gudra.Completion.{ensure_ready}
use gudra.Backend.{Backend}
use gudra.Session.{Session, State, set_budget, admit_operation, drop_guard, bind}
use gudra.Session.Scopes.{own_budget, Restored, operation_guard, ==_self}
use gudra.Session.Charges.{buffer_guard, Charged, own-Charged}
use gudra.Gpu.{Field2D, upload_field}
use gudra.Gpu.Steps.{into_host}
use gudra.Gpu.Accepted.{Usable}
use gudra.Gpu.Transfers.{TransferLaws, Available}
use gudra.Gpu.Stored.{Room, upload_field-Stored}

-- A buffer guard can be dropped while an operation runs.
release_inside :
    (budget : Budget) (n : ℕ)
    → Admission.release (with_operation (with_buffer budget n)) (buffer_guard n)
      ≡ ok (with_operation budget)
unfolding Admission.release checked_sub
release_inside budget n = ground arith

release_after :
    (budget : Budget) → Admission.release (with_operation budget) operation_guard ≡ ok budget
unfolding Admission.release checked_sub
release_after budget = ground arith

-- An admission with a slot free.
operation_free :
    (budget : Budget)
    → InRange budget.limits
    → budget.usage.operations < budget.limits.operations
    → Admission.operation budget ≡ (with_operation budget, ok operation_guard)
operation_free budget range slot = go (operation-OperationVerdict budget range)
  where
    go :
        OperationVerdict budget (Admission.operation budget)
        → Admission.operation budget ≡ (with_operation budget, ok operation_guard)
    go (busy c q) = absurd (omega arith)
    go (started c q) = q

module _ (b : Backend) (laws : TransferLaws b) (available : Available b) (session : Session)
    (s : State b) where
  -- The state after a readback: the operation is admitted, the buffer and then the operation are
  -- given back.
  abbrev read_state : ℕ → State b → Field2D b → State b
  read_state n s' field =
      let inside = with_operation (with_buffer (own_budget b session s) n) in
      let world = (b.bind_to_thread session.ordinal s'.world).0 in
      set_budget b
        (set_budget b
          (record (set_budget b s' session.id inside) {
            world = (b.to_host_vec field.storage.tensor world).0;
          })
          session.id (with_operation (own_budget b session s)))
        session.id (own_budget b session s)

  pub into_host-eq :
      (n : ℕ) (s' : State b) (field : Field2D b)
      → Room b session s n
      → field.storage.completion.uncertain ≡ false
      → field.storage.session ≡ session
      → field.storage.reservation ≡ buffer_guard n
      → Charged b session s n s'
      → (s'' : State b) × (into_host b field s' ≡ (s'', ok (laws.contents field.storage.tensor)))
        × Restored b session s s''
  unfolding into_host ensure_ready admit_operation drop_guard bind
  into_host-eq n s' field room is_ready same_session guard charge =
      let own : s'.budgets session.id ≡ with_buffer (own_budget b session s) n =
        own-Charged b session s n s' charge in
      let world = (b.bind_to_thread session.ordinal s'.world).0 in
      let host = available.reads field.storage.tensor world in
      (
        read_state n s' field,
        rw
            (
              is_ready,
              same_session,
              guard,
              own,
              operation_free (with_buffer (own_budget b session s) n) room.range room.slot,
              available.binds session.ordinal s'.world,
              host.1,
              ==_self session.id,
              release_inside (own_budget b session s) n,
              ==_self session.id,
              release_after (own_budget b session s),
            )
            (λ i. (
              read_state n s' field,
              ok (laws.read_contents field.storage.tensor world host.0 host.1 i),
            )),
        λ i. elim (Bool-cases (i == session.id)) [
          | inl own ↦ ground arith
          | inr other ↦ rw (other, charge i, other) refl
        ],
      )

  -- Under the documented behaviour of copies, a field with the values of the interior that is uploaded, when the budget has room for it and the
  -- backend's copies succeed, is read back as the same values, bit for bit; before, it can be
  -- used by the steps of the session, and after, every budget is what it was before the upload.
  pub upload_field-into_host :
      (shape : Shape2D) (values : List F32)
      → IsValid shape
      → shape.interior_len ≡ length values
      → Room b session s (length values * f32_size)
      → (s' : State b) × (field : Field2D b) × (s'' : State b) × (upload_field b session shape
            values s
          ≡ (s', ok field))
        × Usable b session shape.interior field.storage
        × (into_host b field s' ≡ (s'', ok values))
        × Restored b session s s''
  upload_field-into_host shape values valid size room =
      let (s', field, up, holds) =
        upload_field-Stored b laws available session s shape values valid size room in
      let (s'', down, restored) =
        into_host-eq (length values * f32_size) s' field room holds.usable.is_ready
          holds.same_session holds.guard holds.charge in
      (s', field, s'', up, holds.usable, down ∙ ap (λ xs. (s'', ok xs)) holds.contents, restored)
