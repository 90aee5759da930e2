-- ===== src/Session/Scopes.antt =====
-- An operation guard of a scope gives back what it charged, however the scope ends.
use gudra.Common.{ℕ, ◌≤◌, ◌<◌, ◌≡◌, inl, inr, arith, true, false, ◌==◌, Bool-cases}
use gudra.Error.{Result, ok, err, resource_limit}
use gudra.Admission
use gudra.Admission.{Budget, Reservation}
use gudra.Admission.Decision.{
  InRange, with_operation, OperationVerdict, operation-OperationVerdict, busy, started,
}
use gudra.Admission.Recovery.{release-operation}
use gudra.Backend.{Backend}
use gudra.Session.{
  Run, ◌>>=◌, zoom, scoped, Session, State, set_budget, admit_operation, drop_guard,
}

abbrev pub operation_guard : Reservation
operation_guard = record { bytes = 0; is_buffer = false }

pub ==_self : (i : ℕ) → (i == i) ≡ true
==_self i = ground arith

module _ (b : Backend) (session : Session) (s : State b) where
  -- The budget of the session.
  abbrev pub own_budget : Budget
  own_budget = s.budgets session.id

  -- The state inside an operation, and after it.
  abbrev pub entered : State b
  entered = set_budget b s session.id (with_operation own_budget)

  abbrev pub left : State b → State b
  left s' = set_budget b s' session.id own_budget

  -- Every session has the budget that it had in `s`.
  abbrev pub Restored : State b → Type 0
  Restored s' = (i : ℕ) → s'.budgets i ≡ s.budgets i

  pub left-Restored : (s' : State b) → s'.budgets ≡ entered.budgets → Restored (left s')
  left-Restored s' e i = elim (Bool-cases (i == session.id)) [
    | inl own ↦ ground arith
    | inr other ↦ rw (other, e, other)
  ]

  pub refused-Restored : Restored (set_budget b s session.id own_budget)
  refused-Restored i = ground arith

  pub leave :
      (s' : State b)
      → InRange own_budget.limits
      → Admission.operation own_budget ≡ (with_operation own_budget, ok operation_guard)
      → s'.budgets ≡ entered.budgets
      → drop_guard b session operation_guard s' ≡ (left s', ok tt)
  unfolding drop_guard
  leave s' range q e = rw (
    e,
    ==_self session.id,
    release-operation own_budget (with_operation own_budget) operation_guard range q,
  )

-- What a scope with an operation guard makes of its body.
pub data OperationScope (b : Backend) (session : Session) (s : State b) {X A : Type 0} (x : X)
    (body : Run (State b × X) A) (r : (State b × X) × Result A) : Type 0 where
  full :
      (own_budget b session s).limits.operations ≤ (own_budget b session s).usage.operations
      → r ≡ (
        (set_budget b s session.id (own_budget b session s), x),
        err (resource_limit "operations" (own_budget b session s).limits.operations),
      )
      → OperationScope b session s x body r
  ran :
      (own_budget b session s).usage.operations < (own_budget b session s).limits.operations
      → (let out = body (entered b session s, x) in
          r ≡ ((left b session s out.0.0, out.0.1), out.1))
      → OperationScope b session s x body r

module _ (b : Backend) (session : Session) (s : State b) {X A : Type 0} (x : X)
    (body : Run (State b × X) A) where
  -- A body that leaves the budgets alone runs inside one admitted operation or not at all.
  pub scoped-OperationScope :
      InRange (own_budget b session s).limits
      → (body (entered b session s, x)).0.0.budgets ≡ (entered b session s).budgets
      → OperationScope b session s x body (
          (zoom (admit_operation b session) >>= λ operation.
          scoped (zoom (drop_guard b session operation)) body)
            (s, x))
  unfolding admit_operation
  scoped-OperationScope range quiet = go (operation-OperationVerdict (own_budget b session s) range)
    where
      go :
          OperationVerdict (own_budget b session s) (Admission.operation (own_budget b session s))
          → OperationScope b session s x body (
              (zoom (admit_operation b session) >>= λ operation.
              scoped (zoom (drop_guard b session operation)) body)
                (s, x))
      go (busy c q) = full c (rw q)
      go (started c q) =
          ran c (rw (q, leave b session s (body (entered b session s, x)).0.0 range q quiet))
