-- ===== src/Executor/Charges.antt =====
-- What a future that is polled charges to the budget of its session.
use gudra.Common.{◌≡◌, sym, ◌∙◌, subst, List, [], ◌++◌}
use gudra.Error.{Result}
use gudra.Admission.{Budget, Reservation}
use gudra.Backend.{Backend}
use gudra.Executor.{Poll, pending, ready}
use gudra.Session.{Run, Session, State, after_drop}
use gudra.Session.Ledger.{Carries, Apart, Pays, after_drop-Pays}

-- What a poll has handed out.
abbrev pub poll_guards :
    {A : Type 0} (result_guards : Result A → List Reservation) → Poll A → List Reservation
poll_guards result_guards pending = []
poll_guards result_guards (ready r) = result_guards r

-- A future `J` with the guards that it holds, and an invariant of it.
module _ (b : Backend) (session : Session) (base : Budget) (s : State b) {J A : Type 0}
    (job_guards : J → List Reservation) (result_guards : Result A → List Reservation)
    (Home : J → Type 0) where
  -- After a poll the charges are those of the future and of what it handed out.
  pub record Polled (r : (State b × J) × Poll A) : Type 0 where
    pub carries : Carries b session base (job_guards r.0.1 ++ poll_guards result_guards r.1) r.0.0
    pub apart : Apart b session s r.0.0
    pub home : Home r.0.1

  -- A future that has ended and holds nothing hands out its result after a drop.
  module _ (end : J) (empty : job_guards end ≡ []) (ended : Home end) where
    pub dropped-Polled :
        (drop : Run (State b) (Unit {0})) (gs : List Reservation) (x : Result A) (s' : State b)
        → Pays b session drop gs
        → Carries b session base (gs ++ result_guards x) s'
        → Apart b session s s'
        → let q = after_drop x (drop s') in Polled ((q.0, end), ready q.1)
    dropped-Polled drop gs x s' pays carries apart =
        let (e, c, a, w) =
          after_drop-Pays b session drop gs pays x base (result_guards x) s' carries in
        record {
          carries =
              subst
                (λ l.
                  Carries b session base (l ++ result_guards (after_drop x (drop s')).1)
                    (after_drop x (drop s')).0)
                (sym empty)
                (subst (λ r. Carries b session base (result_guards r) (after_drop x (drop s')).0)
                  (sym e) c);
          apart = λ i h. a i h ∙ apart i h;
          home = ended;
        }
