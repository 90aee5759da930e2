-- ===== src/Gpu/StepCharges.antt =====
-- What `step` charges to the budgets, whatever the backend answers (src/gpu/cutile_impl.rs).
use gudra.Common.{ℕ, ◌≡◌, refl, ◌∙◌, ap, Arithmetic, none}
use gudra.Error.{Result, ok, err, panic, ok_injective}
use gudra.Admission.Decision.{InRange}
use gudra.Params.{JacobiParams}
use gudra.Backend.{Backend, Block}
use gudra.Session.{Run, ◌>>=◌, resume, lift, Session, State}
use gudra.Session.Scopes.{own_budget, Restored, entered}
use gudra.Session.Charges.{
  buffer_guard, Charged, own-Charged, nothing, owner, returned-Restored, drop_guard-Charged,
}
use gudra.Gpu.{Field2D, HaloGrid2D, ReadViews, zeros}
use gudra.Gpu.Validation.{validate_step}
use gudra.Gpu.Steps.{step, step_into, return_output, jacobi_on}
use gudra.Gpu.Outcome.{
  Outcome, StepOutcome, step_into-StepOutcome, rejected, busy, admitted, unbound, unsliced,
  interrupted, completed,
}
use gudra.Gpu.Charges.{FieldCharging, zeros-FieldCharging}

module _ (b : Backend) (session : Session) (source : HaloGrid2D b) where
  -- The output keeps its guard and its session.
  abbrev Keeps : Field2D b → Field2D b → Type 0
  Keeps output after =
      (after.storage.reservation ≡ output.storage.reservation)
      × (after.storage.session ≡ output.storage.session)

  same-Keeps : (output after : Field2D b) → after ≡ output → Keeps output after
  same-Keeps output after e = (ap (λ o. o.storage.reservation) e, ap (λ o. o.storage.session) e)

  module _ (kernel : ReadViews b → Block → b.Tensor → b.Tensor) (output : Field2D b)
      (r : (State b × Field2D b) × Result (Unit {0})) where
    Outcome-Keeps : (s : State b) → Outcome b session source kernel s output r → Keeps output r.0.1
    Outcome-Keeps s (unbound n o f) = same-Keeps output r.0.1 o
    Outcome-Keeps s (unsliced e n d o f) = same-Keeps output r.0.1 o
    Outcome-Keeps s (interrupted v d n o f) =
        (ap (λ o. o.storage.reservation) o, ap (λ o. o.storage.session) o)
    Outcome-Keeps s (completed v d p l o f) =
        (ap (λ o. o.storage.reservation) o, ap (λ o. o.storage.session) o)

    StepOutcome-Keeps :
        (valid : Result (Unit {0})) (s : State b)
        → StepOutcome b session source valid kernel s output r
        → Restored b session s r.0.0 × Keeps output r.0.1
    StepOutcome-Keeps valid s (rejected n e) =
        ((λ i. ap (λ q. q.0.0.budgets i) e), same-Keeps output r.0.1 (ap (λ q. q.0.1) e))
    StepOutcome-Keeps valid s (busy p c e o restored) = (restored, same-Keeps output r.0.1 o)
    StepOutcome-Keeps valid s (admitted p c o restored) =
        (restored, Outcome-Keeps (entered b session s) o)

module _ (b : Backend) (m : Arithmetic) (session : Session) (s : State b)
    (range : InRange (own_budget b session s).limits) where
  return_output-FieldCharging :
      (n : ℕ) (r : (State b × Field2D b) × Result (Unit {0}))
      → Charged b session s n r.0.0
      → r.0.1.storage.reservation ≡ buffer_guard n
      → r.0.1.storage.session ≡ session
      → FieldCharging b session s n (return_output b r)
  return_output-FieldCharging n ((s', output), ok t) charge guard home =
      owner output refl guard home charge
  return_output-FieldCharging n ((s', output), err e) charge guard home =
      rw (guard, home, drop_guard-Charged b session s n s' charge)
        (nothing (λ a z. cc) (returned-Restored b session s n s' charge))
  return_output-FieldCharging n ((s', output), panic) charge guard home =
      rw (guard, home, drop_guard-Charged b session s n s' charge)
        (nothing (λ a z. cc) (returned-Restored b session s n s' charge))

  module _ (source : HaloGrid2D b) (rhs : Field2D b) (params : JacobiParams) where
    abbrev n : ℕ
    n = source.storage.shape.interior_bytes

    abbrev last : Field2D b → Run (State b) (Field2D b)
    last output s' = return_output b (step_into b m session source rhs params (s', output))

    last-FieldCharging :
        (r : State b × Result (Field2D b))
        → FieldCharging b session s n r
        → FieldCharging b session s n (resume r last)
    last-FieldCharging (s', ok x) (nothing never restored) = absurd (never x refl)
    last-FieldCharging (s', ok x) (owner a e guard home charge) =
        let own_range : InRange (own_budget b session s').limits =
          rw (own-Charged b session s n s' charge) range in
        let (restored, keeps) =
          StepOutcome-Keeps b session source (jacobi_on b m rhs params) x _ _ s'
            (step_into-StepOutcome b m session source s' x rhs params own_range) in
        let same = ok_injective e in
        return_output-FieldCharging n (step_into b m session source rhs params (s', x))
          (λ i. restored i ∙ charge i) (keeps.0 ∙ ap (λ y. y.storage.reservation) same ∙ guard)
          (keeps.1 ∙ ap (λ y. y.storage.session) same ∙ home)
    last-FieldCharging (s', err x) (nothing never restored) = nothing (λ a z. cc) restored
    last-FieldCharging (s', err x) (owner a e guard home charge) = absurd cc
    last-FieldCharging (s', panic) (nothing never restored) = nothing (λ a z. cc) restored
    last-FieldCharging (s', panic) (owner a e guard home charge) = absurd cc

    -- Under limits of type `usize` and whatever the backend answers, `step` either fails with every
    -- budget as it was, its new output given back, or returns a field of the session whose
    -- guard holds the bytes of the interior, and exactly these and one buffer are charged.
    pub step-FieldCharging : FieldCharging b session s n (step b m session source rhs params s)
    unfolding step
    step-FieldCharging = go (validate_step b session source rhs none)
      where
        go :
            (valid : Result (Unit {0}))
            → FieldCharging b session s n
                ((lift valid >>= λ _. zeros b session source.storage.shape >>= last) s)
        go (ok t) =
            last-FieldCharging (zeros b session source.storage.shape s)
              (zeros-FieldCharging b session s range source.storage.shape)
        go (err e) = nothing (λ a z. cc) (λ i. refl)
        go panic = nothing (λ a z. cc) (λ i. refl)
