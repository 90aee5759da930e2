-- ===== src/Session/Inside.antt =====
-- A stretch of a future's life with one operation of its session in flight.
use gudra.Common.{
  ℕ, ◌<◌, ◌≡◌, refl, sym, ◌∙◌, subst, arith, inl, inr, false, ◌==◌, Bool-cases, [], ◌∷◌,
}
use gudra.Error.{Result, ok}
use gudra.Admission
use gudra.Admission.{Budget, Reservation}
use gudra.Admission.Decision.{InRange, OperationVerdict, operation-OperationVerdict, busy, started}
use gudra.Backend.{Backend}
use gudra.Session.{Session, State, admit_operation, drop_guard, after_drop}
use gudra.Session.Scopes.{==_self, own_budget, entered, Restored, operation_guard}
use gudra.Session.Ledger.{Owes, Owes-nothing, Pays, drop_guard-Pays, after_drop-Pays}

module _ (b : Backend) (session : Session) (s : State b) where
  -- Budgets that are those of `s`, but for the charge of the guard.
  pub record Inside (guard : Reservation) (budgets : ℕ → Budget) : Type 0 where
    pub charged : Owes (own_budget b session s) (guard ∷ []) (budgets session.id)
    pub apart : (i : ℕ) → (i == session.id) ≡ false → budgets i ≡ s.budgets i

  pub admit_operation-Inside :
      InRange (own_budget b session s).limits
      → (own_budget b session s).usage.operations < (own_budget b session s).limits.operations
      → (admit_operation b session s ≡ (entered b session s, ok operation_guard))
        × Inside operation_guard (entered b session s).budgets
  unfolding admit_operation
  admit_operation-Inside range slot = go (operation-OperationVerdict (own_budget b session s) range)
    where
      go :
          OperationVerdict (own_budget b session s) (Admission.operation (own_budget b session s))
          → (admit_operation b session s ≡ (entered b session s, ok operation_guard))
            × Inside operation_guard (entered b session s).budgets
      go (busy full q) = absurd (omega arith)
      go (started free q) = (
        rw q refl,
        record {
          charged = rw (==_self session.id) (record {
            limits = refl;
            bytes = omega arith;
            buffers = omega arith;
            operations = omega arith;
          });
          apart = λ i h. rw h refl;
        },
      )

  -- The drop of the guard ends it.
  pub drop_guard-Restored :
      {A : Type 0} (k : Session) (guard : Reservation) (r : Result A) (s' : State b)
      → k ≡ session
      → Inside guard s'.budgets
      → let q = after_drop r (drop_guard b k guard s') in (q.1 ≡ r) × Restored b session s q.0
  drop_guard-Restored k guard r s' own inside =
      let pays =
        subst (λ k. Pays b session (drop_guard b k guard) (guard ∷ [])) (sym own)
          (drop_guard-Pays b session guard) in
      let (e, c, a, w) =
        after_drop-Pays b session (drop_guard b k guard) (guard ∷ []) pays r
          (own_budget b session s) [] s' inside.charged in
      (
        e,
        λ i. elim (Bool-cases (i == session.id)) [
          | inl own ↦
              let same : i ≡ session.id = ground arith in
              subst (λ j. (after_drop r (drop_guard b k guard s')).0.budgets j ≡ s.budgets j)
                (sym same) (Owes-nothing (own_budget b session s) _ c)
          | inr other ↦ a i other ∙ inside.apart i other
        ],
      )
