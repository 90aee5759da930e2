-- ===== src/Session/Ledger.antt =====
-- The charges that a list of guards has made to the budget of a session, and their drops.
mod Debts
pub use Debts.*
use gudra.Common.{
  ℕ, ◌+◌, ◌-◌, Bool-cases, ◌==◌, ◌≡◌, refl, sym, ◌∙◌, subst, inl, inr, arith, false, if◌then◌else◌,
  checked_sub, List, [], ◌∷◌, ◌++◌,
}
use gudra.Error.{Error, Result, ok, err, panic}
use gudra.Admission
use gudra.Admission.{Budget, Reservation}
use gudra.Backend.{Backend}
use mathlib.Core.List.{append_assoc}
use gudra.Admission.Decision.{
  InRange, BufferVerdict, buffer-BufferVerdict, large_buffer, no_room, no_slot, admitted,
  OperationVerdict, operation-OperationVerdict, busy, started,
}
use gudra.Session.Scopes.{==_self, operation_guard}
use gudra.Session.Charges.{buffer_guard}
use gudra.Session.{
  Run, scoped, after_drop, Session, State, drop_guard, admit_operation, admit_buffer,
}

pub after_drop-ok :
    {S A : Type 0} (r : Result A) (q : S × Result (Unit {0}))
    → q.1 ≡ ok tt
    → after_drop r q ≡ (q.0, r)
after_drop-ok r (s, ok t) e = refl
after_drop-ok r (s, err x) e = cc
after_drop-ok r (s, panic) e = cc

module _ (b : Backend) (session : Session) where
  -- Budgets of other sessions are left alone.
  abbrev pub Apart : State b → State b → Type 0
  Apart s s' = (i : ℕ) → (i == session.id) ≡ false → s'.budgets i ≡ s.budgets i

  -- The budget of the session, with what the guards have charged.
  abbrev pub Carries : Budget → List Reservation → State b → Type 0
  Carries base gs s = Owes base gs (s.budgets session.id)

  -- A computation that succeeds and gives back what some guards have charged.
  pub record Paid (base : Budget) (gs : List Reservation) (s : State b)
      (r : State b × Result (Unit {0})) : Type 0 where
    pub done : r.1 ≡ ok tt
    pub carries : Carries base gs r.0
    pub apart : Apart s r.0
    pub quiet : r.0.world ≡ s.world

  abbrev pub Pays : Run (State b) (Unit {0}) → List Reservation → Type 0
  Pays m gs =
      (base : Budget) (rest : List Reservation) (s : State b)
      → Carries base (gs ++ rest) s
      → Paid base rest s (m s)

  pub drop_guard-Pays : (g : Reservation) → Pays (drop_guard b session g) (g ∷ [])
  unfolding drop_guard
  drop_guard-Pays g base rest s c =
      let (e, o) = release-Owes base (s.budgets session.id) g rest c in
      rw e (record {
        done = refl;
        carries = rw (==_self session.id) o;
        apart = λ i h. rw h refl;
        quiet = refl;
      })

  pub scoped-Pays :
      (d m : Run (State b) (Unit {0})) (gs hs : List Reservation)
      → Pays d gs
      → Pays m hs
      → Pays (scoped d m) (hs ++ gs)
  scoped-Pays d m gs hs dp mp base rest s c =
      let first =
        mp base (gs ++ rest) s (subst (λ l. Carries base l s) (append_assoc hs gs rest) c) in
      let second = dp base rest (m s).0 first.carries in
      rw (after_drop-ok (m s).1 (d (m s).0) second.done) (record {
        done = first.done;
        carries = second.carries;
        apart = λ i h. second.apart i h ∙ first.apart i h;
        quiet = second.quiet ∙ first.quiet;
      })

  -- A failure whose drops pay keeps its error.
  pub after_drop-Pays :
      (m : Run (State b) (Unit {0})) (gs : List Reservation)
      → Pays m gs
      → {A : Type 0} (r : Result A) (base : Budget) (rest : List Reservation) (s : State b)
      → Carries base (gs ++ rest) s
      → (after_drop r (m s)).1 ≡ r
        × Carries base rest (after_drop r (m s)).0
        × Apart s (after_drop r (m s)).0
        × ((after_drop r (m s)).0.world ≡ s.world)
  after_drop-Pays m gs mp r base rest s c =
      let paid = mp base rest s c in
      rw (after_drop-ok r (m s) paid.done) (refl, paid.carries, paid.apart, paid.quiet)

  -- What an admission makes of the charges.
  pub data Takes (made : Reservation) (base : Budget) (gs : List Reservation) (s : State b)
      (r : State b × Result Reservation) : Type 0 where
    refused :
        (e : Error)
        → r.1 ≡ err e
        → Carries base gs r.0
        → Apart s r.0
        → r.0.world ≡ s.world
        → Takes made base gs s r
    granted :
        r.1 ≡ ok made
        → Carries base (made ∷ gs) r.0
        → Apart s r.0
        → r.0.world ≡ s.world
        → Takes made base gs s r

  pub admit_operation-Takes :
      (base : Budget) (gs : List Reservation) (s : State b)
      → InRange base.limits
      → Carries base gs s
      → Takes operation_guard base gs s (admit_operation b session s)
  unfolding admit_operation
  admit_operation-Takes base gs s range c =
      go (operation-OperationVerdict (s.budgets session.id) (subst InRange (sym c.limits) range))
    where
      go :
          OperationVerdict (s.budgets session.id) (Admission.operation (s.budgets session.id))
          → Takes operation_guard base gs s (admit_operation b session s)
      go (busy full q) = rw q (refused _ refl (rw (==_self session.id) c) (λ i h. rw h refl) refl)
      go (started free q) = rw q (
          granted refl
            (rw (==_self session.id) (record {
              limits = c.limits;
              bytes = omega (arith, c.bytes);
              buffers = omega (arith, c.buffers);
              operations = omega (arith, c.operations);
            }))
            (λ i h. rw h refl) refl)

  pub admit_buffer-Takes :
      (n : ℕ) (base : Budget) (gs : List Reservation) (s : State b)
      → InRange base.limits
      → Carries base gs s
      → Takes (buffer_guard n) base gs s (admit_buffer b session n s)
  unfolding admit_buffer
  admit_buffer-Takes n base gs s range c =
      go (buffer-BufferVerdict (s.budgets session.id) n (subst InRange (sym c.limits) range))
    where
      go :
          BufferVerdict (s.budgets session.id) n (Admission.buffer (s.budgets session.id) n)
          → Takes (buffer_guard n) base gs s (admit_buffer b session n s)
      go (large_buffer large q) =
          rw q (refused _ refl (rw (==_self session.id) c) (λ i h. rw h refl) refl)
      go (no_room fits full q) =
          rw q (refused _ refl (rw (==_self session.id) c) (λ i h. rw h refl) refl)
      go (no_slot fits total full q) =
          rw q (refused _ refl (rw (==_self session.id) c) (λ i h. rw h refl) refl)
      go (admitted fits total slot q) = rw q (
          granted refl
            (rw (==_self session.id) (record {
              limits = c.limits;
              bytes = omega (arith, c.bytes);
              buffers = omega (arith, c.buffers);
              operations = omega (arith, c.operations);
            }))
            (λ i h. rw h refl) refl)
