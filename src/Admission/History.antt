-- ===== src/Admission/History.antt =====
-- Histories of one budget shared by threads: every method call is an atomic step, in any order.
use gudra.Common.{ℕ, ◌+◌, ◌≡◌, List, [], ◌∷◌, ◌++◌, if◌then◌else◌, arith}
use gudra.Error.{Error, ok, err}
use gudra.Limits.{ResourceLimits}
use gudra.Admission.{Budget, Reservation, new, buffer, operation, release}

-- The budget, the guards that will be dropped, and those that were forgotten.
pub record System : Type 0 where
  pub budget : Budget
  pub live : List Reservation
  pub forgotten : List Reservation

abbrev pub fresh : ResourceLimits → System
fresh l = record { budget = new l; live = []; forgotten = [] }

-- One call: an admission that succeeds or fails, a guard dropped, a guard forgotten.
pub data Step (s t : System) : Type 0 where
  buffer_admitted :
      (n : ℕ) (r : Reservation) (b : Budget)
      → buffer s.budget n ≡ (b, ok r)
      → t ≡ record s { budget = b; live = r ∷ s.live }
      → Step s t
  buffer_refused :
      (n : ℕ) (e : Error) (b : Budget)
      → buffer s.budget n ≡ (b, err e)
      → t ≡ record s { budget = b }
      → Step s t
  operation_admitted :
      (r : Reservation) (b : Budget)
      → operation s.budget ≡ (b, ok r)
      → t ≡ record s { budget = b; live = r ∷ s.live }
      → Step s t
  operation_refused :
      (e : Error) (b : Budget)
      → operation s.budget ≡ (b, err e)
      → t ≡ record s { budget = b }
      → Step s t
  dropped :
      (xs ys : List Reservation) (r : Reservation) (b : Budget)
      → s.live ≡ xs ++ (r ∷ ys)
      → release s.budget r ≡ ok b
      → t ≡ record s { budget = b; live = xs ++ ys }
      → Step s t
  leaked :
      (xs ys : List Reservation) (r : Reservation)
      → s.live ≡ xs ++ (r ∷ ys)
      → t ≡ record s { live = xs ++ ys; forgotten = r ∷ s.forgotten }
      → Step s t

pub data Reach (l : ResourceLimits) : System → Type 0 where
  start : Reach l (fresh l)
  next : {s t : System} → Reach l s → Step s t → Reach l t

-- What the guards of a list have charged, added up by a weight.
unfoldable pub weigh : (Reservation → ℕ) → List Reservation → ℕ
weigh f [] = 0
weigh f (r ∷ rs) = f r + weigh f rs

abbrev pub bytes : Reservation → ℕ
bytes r = if r.is_buffer then r.bytes else 0

abbrev pub buffers : Reservation → ℕ
buffers r = if r.is_buffer then 1 else 0

abbrev pub operations : Reservation → ℕ
operations r = if r.is_buffer then 0 else 1

pub weigh_cons :
    (f : Reservation → ℕ) (r : Reservation) (rs : List Reservation)
    → weigh f (r ∷ rs) ≡ f r + weigh f rs
unfolding weigh
weigh_cons f r rs = omega arith

pub weigh_middle :
    (f : Reservation → ℕ) (xs ys : List Reservation) (r : Reservation)
    → weigh f (xs ++ (r ∷ ys)) ≡ f r + weigh f (xs ++ ys)
unfolding weigh
weigh_middle f [] ys r = omega arith
weigh_middle f (x ∷ xs) ys r = omega (arith, weigh_middle f xs ys r)
