-- ===== src/Session.antt =====
-- Sessions, their budgets, and the guards of a scope (src/gpu/cutile_impl.rs: Session, Reservation).
pub mod Scopes
pub mod Plain
pub mod Charges
pub mod Ledger
pub mod Inside
pub mod Ends
use gudra.Common.{ℕ, ◌+◌, ◌==◌, if◌then◌else◌, String}
use gudra.Error.{Result, ok, err, panic}
use gudra.Limits.{ResourceLimits}
use gudra.Admission
use gudra.Admission.{Budget, Reservation}
use gudra.Backend.{Backend, Reply, reply}

-- A computation on a state, which an error or a panic ends.
abbrev pub Run : Type 0 → Type 0 → Type 0
Run S A = S → S × Result A

-- `?` on a computation.
abbrev pub resume : {S A B : Type 0} → S × Result A → (A → Run S B) → S × Result B
resume (s, ok a) next = next a s
resume (s, err e) next = (s, err e)
resume (s, panic) next = (s, panic)

infixl 5 ◌>>=◌ ◌>>◌
abbrev pub ◌>>=◌ : {S A B : Type 0} → Run S A → (A → Run S B) → Run S B
(m >>= next) s = resume (m s) next

abbrev pub ◌>>◌ : {S B : Type 0} → Run S (Unit {0}) → Run S B → Run S B
m >> next = m >>= λ _. next

abbrev pub lift : {S A : Type 0} → Result A → Run S A
lift r s = (s, r)

-- A computation on a part of the state.
abbrev pub zoom : {S X A : Type 0} → Run S A → Run (S × X) A
zoom m (s, x) = let (s', r) = m s in ((s', x), r)

-- What the drops at the end of a scope make of its result: a panic in a drop wins.
abbrev pub after_drop : {S A : Type 0} → Result A → S × Result (Unit {0}) → S × Result A
after_drop r (s, ok done) = (s, r)
after_drop r (s, err e) = (s, panic)
after_drop r (s, panic) = (s, panic)

-- `let _guard = …; body`: the drop runs however the body ends.
abbrev pub scoped : {S A : Type 0} → Run S (Unit {0}) → Run S A → Run S A
scoped drop body s = let (s', r) = body s in after_drop r (drop s')

-- A value that the body moves into its result: the drop runs only if the body fails.
abbrev pub owned_result : {S A : Type 0} → Run S (Unit {0}) → S × Result A → S × Result A
owned_result drop (s, ok a) = (s, ok a)
owned_result drop (s, err e) = after_drop (err e) (drop s)
owned_result drop (s, panic) = after_drop panic (drop s)

abbrev pub owned : {S A : Type 0} → Run S (Unit {0}) → Run S A → Run S A
owned drop body s = owned_result drop (body s)

-- A session is told apart from all others by its number, as the code tells them apart by address.
pub record Session : Type 0 where
  pub id : ℕ
  pub ordinal : ℕ

module _ (b : Backend) where
  open b use {World}

  -- The backend's state, and the budget of each session.
  pub record State : Type 0 where
    pub world : World
    pub budgets : ℕ → Budget
    pub next_session : ℕ

module _ (b : Backend) where
  open b use {World}

  abbrev pub set_budget : State b → ℕ → Budget → State b
  set_budget s id budget = record s { budgets = λ i. if i == id then budget else s.budgets i }

  -- A backend call whose failure is reported under a label.
  abbrev pub call : {A : Type 0} → String → (World → World × Reply A) → Run (State b) A
  call label f s = let (w, r) = f s.world in (record s { world = w }, reply label r)

  -- `session.budget.buffer(bytes)` and `session.budget.operation()`.
  abbrev pub admit : (Budget → Budget × Result Reservation) → Session → Run (State b) Reservation
  admit method session s =
      let (budget, r) = method (s.budgets session.id) in (set_budget s session.id budget, r)

  unfoldable pub admit_buffer : Session → ℕ → Run (State b) Reservation
  admit_buffer session bytes = admit (λ budget. Admission.buffer budget bytes) session

  unfoldable pub admit_operation : Session → Run (State b) Reservation
  admit_operation session = admit Admission.operation session

  abbrev store_released : State b → ℕ → Result Budget → State b × Result (Unit {0})
  store_released s id (ok budget) = (set_budget s id budget, ok tt)
  store_released s id (err e) = (s, panic)
  store_released s id panic = (s, panic)

  unfoldable pub drop_guard : Session → Reservation → Run (State b) (Unit {0})
  drop_guard session r s = store_released s session.id (Admission.release (s.budgets session.id) r)

  -- `Session::bind`.
  unfoldable pub bind : Session → Run (State b) (Unit {0})
  bind session = call "bind device to thread" (b.bind_to_thread session.ordinal)
