-- ===== src/Session/Plain.antt =====
-- An operation guard around a body that leaves the budgets alone.
use gudra.Common.{◌≤◌, ◌<◌, ◌≡◌, refl, arith}
use gudra.Admission
use gudra.Admission.{Reservation, Budget}
use gudra.Admission.Decision.{InRange, OperationVerdict, operation-OperationVerdict, busy, started}
use gudra.Error.{Result, err, resource_limit}
use gudra.Backend.{Backend}
use gudra.Session.{Run, ◌>>=◌, scoped, Session, State, set_budget, admit_operation, drop_guard}
use gudra.Session.Scopes.{own_budget, entered, left, leave}

-- What such a scope ends in.
pub data PlainScope (b : Backend) (session : Session) (s : State b) {A : Type 0}
    (body : Run (State b) A) (r : State b × Result A) : Type 0 where
  full :
      (own_budget b session s).limits.operations ≤ (own_budget b session s).usage.operations
      → r ≡ (
        set_budget b s session.id (own_budget b session s),
        err (resource_limit "operations" (own_budget b session s).limits.operations),
      )
      → PlainScope b session s body r
  ran :
      (own_budget b session s).usage.operations < (own_budget b session s).limits.operations
      → r ≡ (left b session s (body (entered b session s)).0, (body (entered b session s)).1)
      → PlainScope b session s body r

module _ (b : Backend) (session : Session) (s : State b) {A : Type 0} (body : Run (State b) A)
    (range : InRange (own_budget b session s).limits)
    (quiet : (body (entered b session s)).0.budgets ≡ (entered b session s).budgets) where
  abbrev scope : State b × Result A
  scope =
      (admit_operation b session >>= λ operation. scoped (drop_guard b session operation) body) s

  pub scoped-PlainScope : PlainScope b session s body scope
  unfolding admit_operation
  scoped-PlainScope = go (operation-OperationVerdict (own_budget b session s) range)
    where
      go :
          OperationVerdict (own_budget b session s) (Admission.operation (own_budget b session s))
          → PlainScope b session s body scope
      go (busy c q) = full c (rw q refl)
      go (started c q) =
          ran c (rw (q, leave b session s (body (entered b session s)).0 range q quiet) refl)

  pub scoped_lem :
      (own_budget b session s).usage.operations < (own_budget b session s).limits.operations
      → scope ≡ (left b session s (body (entered b session s)).0, (body (entered b session s)).1)
  scoped_lem slot = go scoped-PlainScope
    where
      go :
          PlainScope b session s body scope
          → scope
            ≡ (left b session s (body (entered b session s)).0, (body (entered b session s)).1)
      go (full c q) = absurd (omega arith)
      go (ran c q) = q
