-- ===== src/Session/Charges.antt =====
-- What a buffer guard charges to the budget of a session, and its drop.
use gudra.Common.{ℕ, ◌==◌, ◌≡◌, ◌≢◌, refl, ◌∙◌, inl, inr, arith, true, Bool-cases, checked_sub}
use gudra.Error.{Result, ok, err, panic}
use gudra.Admission
use gudra.Admission.{Budget, Reservation}
use gudra.Admission.Decision.{
  InRange, with_buffer, BufferVerdict, buffer-BufferVerdict, large_buffer, no_room, no_slot,
  admitted,
}
use gudra.Backend.{Backend}
use gudra.Session.{owned_result, Session, State, set_budget, admit_buffer, drop_guard}
use gudra.Session.Scopes.{own_budget, Restored, refused-Restored}

abbrev pub buffer_guard : ℕ → Reservation
buffer_guard n = record { bytes = n; is_buffer = true }

release_charged :
    (budget : Budget) (n : ℕ)
    → Admission.release (with_buffer budget n) (buffer_guard n) ≡ ok budget
unfolding Admission.release checked_sub
release_charged budget n = ground arith

module _ (b : Backend) (session : Session) (s : State b) where
  abbrev pub charged : ℕ → State b
  charged n = set_budget b s session.id (with_buffer (own_budget b session s) n)

  -- Every budget is as it was in `s`, but for the charge of a buffer of `n` bytes.
  abbrev pub Charged : ℕ → State b → Type 0
  Charged n s' = (i : ℕ) → s'.budgets i ≡ (charged n).budgets i

  pub own-Charged :
      (n : ℕ) (s' : State b)
      → Charged n s'
      → s'.budgets session.id ≡ with_buffer (own_budget b session s) n
  own-Charged n s' charge = charge session.id ∙ ground arith

  -- The state after the drop of the guard.
  abbrev pub returned : State b → State b
  returned s' = set_budget b s' session.id (own_budget b session s)

  pub drop_guard-Charged :
      (n : ℕ) (s' : State b)
      → Charged n s'
      → drop_guard b session (buffer_guard n) s' ≡ (returned s', ok tt)
  unfolding drop_guard
  drop_guard-Charged n s' charge =
      rw (own-Charged n s' charge, release_charged (own_budget b session s) n) refl

  pub returned-Restored : (n : ℕ) (s' : State b) → Charged n s' → Restored b session s (returned s')
  returned-Restored n s' charge i = elim (Bool-cases (i == session.id)) [
    | inl own ↦ ground arith
    | inr other ↦ rw (other, charge i, other) refl
  ]

  -- What an operation that makes an owner of a buffer may end in, for the guard and the session of
  -- the owner: nothing is charged, or an owner comes back and exactly its guard is charged.
  pub data Charging (n : ℕ) {A : Type 0} (guard : A → Reservation) (home : A → Session)
      (r : State b × Result A) : Type 0 where
    nothing : ((a : A) → r.1 ≢ ok a) → Restored b session s r.0 → Charging n guard home r
    owner :
        (a : A)
        → r.1 ≡ ok a
        → guard a ≡ buffer_guard n
        → home a ≡ session
        → Charged n r.0
        → Charging n guard home r

  -- An owner that a scope holds with its guard charged.
  pub owned-Charging :
      (n : ℕ) {A : Type 0} (guard : A → Reservation) (home : A → Session) (r : State b × Result A)
      → Charged n r.0
      → ((a : A) → r.1 ≡ ok a → (guard a ≡ buffer_guard n) × (home a ≡ session))
      → Charging n guard home (owned_result (drop_guard b session (buffer_guard n)) r)
  owned-Charging n guard home (s', ok a) charge made =
      owner a refl (made a refl).0 (made a refl).1 charge
  owned-Charging n guard home (s', err e) charge made =
      rw (drop_guard-Charged n s' charge) (nothing (λ a z. cc) (returned-Restored n s' charge))
  owned-Charging n guard home (s', panic) charge made =
      rw (drop_guard-Charged n s' charge) (nothing (λ a z. cc) (returned-Restored n s' charge))

  -- The admission of a buffer.
  pub admit_buffer-Charging :
      (n : ℕ)
      → InRange (own_budget b session s).limits
      → Charging n (λ r. r) (λ r. session) (admit_buffer b session n s)
  unfolding admit_buffer
  admit_buffer-Charging n range = go (buffer-BufferVerdict (own_budget b session s) n range)
    where
      go :
          BufferVerdict (own_budget b session s) n (Admission.buffer (own_budget b session s) n)
          → Charging n (λ r. r) (λ r. session) (admit_buffer b session n s)
      go (large_buffer large q) = rw q (nothing (λ a z. cc) (refused-Restored b session s))
      go (no_room fits full q) = rw q (nothing (λ a z. cc) (refused-Restored b session s))
      go (no_slot fits total full q) = rw q (nothing (λ a z. cc) (refused-Restored b session s))
      go (admitted fits total slot q) = rw q (owner (buffer_guard n) refl refl refl (λ i. refl))
