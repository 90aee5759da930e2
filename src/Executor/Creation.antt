-- ===== src/Executor/Creation.antt =====
-- What the creation of a future charges to the budget of its session.
use gudra.Common.{◌≡◌, ◌≢◌, ◌⊎◌, inl, inr, refl, sym, ◌∙◌, List, [], ◌∷◌, ◌++◌}
use gudra.Error.{Result, ok, err, panic}
use gudra.Admission.{Budget, Reservation}
use gudra.Admission.Decision.{InRange}
use gudra.Backend.{Backend}
use gudra.Session.{
  Run, ◌>>=◌, ◌>>◌, lift, resume, owned, owned_result, after_drop, Session, State, admit_operation,
}
use gudra.Session.Scopes.{operation_guard}
use gudra.Session.Ledger.{
  Owes-nothing, Takes, refused, granted, admit_operation-Takes, Carries, Apart, Pays,
  after_drop-Pays,
}

-- A future is made of the guard of its operation, and holds the guards of a list beside it.
module _ (b : Backend) (session : Session) (base : Budget) (s : State b) {J : Type 0}
    (gs : List Reservation) (make : Reservation → J) where
  -- A future with one operation more, or a failure after which the guards have been given back.
  pub record Created (r : State b × Result J) : Type 0 where
    pub quiet : r.0.world ≡ s.world
    pub apart : Apart b session s r.0
    pub outcome :
        ((r.1 ≡ ok (make operation_guard)) × Carries b session base (operation_guard ∷ gs) r.0)
        ⊎ (((job : J) → r.1 ≢ ok job) × (r.0.budgets session.id ≡ base))

  -- A failed call drops its arguments, whose guards are those of the list in some order.
  module _ (drop : Run (State b) (Unit {0})) (held : List Reservation)
      (pays : Pays b session drop held)
      (reorder : (s' : State b)
        → Carries b session base gs s'
        → Carries b session base (held ++ []) s') where
    dropped-Created :
        (x : Result J) (s' : State b)
        → ((job : J) → x ≢ ok job)
        → Carries b session base gs s'
        → Apart b session s s'
        → s'.world ≡ s.world
        → Created (after_drop x (drop s'))
    dropped-Created x s' never carries apart quiet =
        let (e, c, a, w) =
          after_drop-Pays b session drop held pays x base [] s' (reorder s' carries) in
        record {
          quiet = w ∙ quiet;
          apart = λ i h. a i h ∙ apart i h;
          outcome = inr ((λ job q. never job (sym e ∙ q)), Owes-nothing base _ c);
        }

    admitted-Created :
        (r : State b × Result Reservation)
        → Takes b session operation_guard base gs s r
        → Created (owned_result drop (resume r (λ g. lift (ok (make g)))))
    admitted-Created (s', x) (refused e q c a w) =
        rw q (dropped-Created (err e) s' (λ job z. cc) c a w)
    admitted-Created (s', x) (granted q c a w) =
        rw q (record { quiet = w; apart = a; outcome = inl (refl, c) })

    pub owned-Created :
        (valid : Result (Unit {0}))
        → InRange base.limits
        → Carries b session base gs s
        → Created
            (owned drop (lift valid >> (admit_operation b session >>= λ g. lift (ok (make g)))) s)
    owned-Created (ok t) range carries =
        admitted-Created (admit_operation b session s)
          (admit_operation-Takes b session base gs s range carries)
    owned-Created (err x) range carries =
        dropped-Created (err x) s (λ job z. cc) carries (λ i h. refl) refl
    owned-Created panic range carries =
        dropped-Created panic s (λ job z. cc) carries (λ i h. refl) refl
