-- ===== src/Gpu/Jobs/Creation.antt =====
-- What the creation of a step that is still to be polled charges to the budget of its session.
use gudra.Common.{◌≡◌, List, [], ◌∷◌, ◌++◌, some}
use gudra.Params.{JacobiParams}
use gudra.Admission.{Budget, Reservation}
use gudra.Admission.Decision.{InRange}
use gudra.Backend.{Backend}
use gudra.Executor.Creation.{Created, owned-Created}
use gudra.Session.{Run, scoped, Session, State}
use gudra.Session.Ledger.{Owes-rotated, Carries, Pays, scoped-Pays}
use gudra.Gpu.{HaloGrid2D, Field2D}
use gudra.Gpu.Validation.{validate_step}
use gudra.Gpu.Steps.{drop_buffer}
use gudra.Gpu.Jobs.{unpolled, step_into_async}
use gudra.Gpu.Jobs.Charges.{drop_buffer-Pays, buffer_guards}

module _ (b : Backend) (session : Session) (base : Budget) (s : State b) (source : HaloGrid2D b)
    (rhs output : Field2D b) (params : JacobiParams)
    (source_home : source.storage.session ≡ session) (rhs_home : rhs.storage.session ≡ session)
    (output_home : output.storage.session ≡ session) where
  abbrev three : List Reservation
  three = output.storage.reservation ∷ rhs.storage.reservation ∷ source.storage.reservation ∷ []

  abbrev pub drop_three : Run (State b) (Unit {0})
  drop_three =
      scoped (drop_buffer b source.storage)
        (scoped (drop_buffer b rhs.storage) (drop_buffer b output.storage))

  pub drop_three-Pays : Pays b session drop_three three
  drop_three-Pays =
      let first = output.storage.reservation ∷ [] in
      let second = rhs.storage.reservation ∷ [] in
      let third = source.storage.reservation ∷ [] in
      scoped-Pays b session _ _ third (first ++ second)
        (drop_buffer-Pays b session source.storage source_home)
        (scoped-Pays b session _ _ second first (drop_buffer-Pays b session rhs.storage rhs_home)
          (drop_buffer-Pays b session output.storage output_home))

  -- Under limits of type `usize`, and for three buffers of the session, a call of
  -- `step_into_async` moves charges only: it returns a job that is still to be polled, made of
  -- the arguments and charged with one operation more, or it fails and the charges of the three
  -- buffers are given back. It does nothing on the device, and leaves other budgets alone.
  pub step_into_async-Created :
      InRange base.limits
      → Carries b session base (buffer_guards b session source rhs output) s
      → Created b session base s
          (buffer_guards b session source rhs output)
          (λ operation. unpolled (record {
            session = session;
            operation = operation;
            source = source;
            rhs = rhs;
            output = output;
            params = params;
          }))
          (step_into_async b session source rhs output params s)
  unfolding step_into_async
  step_into_async-Created =
      owned-Created b session base s (buffer_guards b session source rhs output) _ drop_three three
        drop_three-Pays
        (λ s' carries.
          Owes-rotated base (s'.budgets session.id) source.storage.reservation
            output.storage.reservation rhs.storage.reservation carries)
        (validate_step b session source rhs (some output))
