-- ===== src/Executor.antt =====
-- A thread that polls a future until it is ready or a deadline passes
-- (examples/poisson_timesteps.rs: `complete`).
pub mod Charges
pub mod Creation
use gudra.Common.{ℕ, zero, suc, ◌<◌, ◌≤◌, ◌≡◌, refl, ◌∙◌, arith}
use gudra.Error.{Result, panic}
use gudra.Session.{Run, after_drop}

-- `Poll<Result<A>>`.
pub data Poll {ℓ} (A : Type ℓ) : Type ℓ where
  pending : Poll A
  ready : Result A → Poll A

-- A future `J` on a state, with its poll and its drop.
module _ {S J A : Type 0} (poll : J → S → (S × J) × Poll A) (drop : J → Run S (Unit {0})) where
  -- The future leaves the scope with the result, or is polled again.
  abbrev pub settle : (S × J → S × Result A) → (S × J) × Poll A → S × Result A
  settle again ((s, job), ready r) = after_drop r (drop job s)
  settle again ((s, job), pending) = again (s, job)

  -- The number is that of the pending polls before the deadline; at the next one the assertion
  -- fails, and the future is dropped.
  unfoldable pub complete : ℕ → J → S → S × Result A
  complete zero job s = settle (λ (s, job). after_drop panic (drop job s)) (poll job s)
  complete (suc polls) job s = settle (λ (s, job). complete polls job s) (poll job s)

  module _ (measure : J → S → ℕ) (Inv : J → S → Type 0) (Post : Result A → J → S → Type 0) where
    -- A poll that is ready, or that is pending and nearer to the end.
    pub data Nearer (bound : ℕ) (q : (S × J) × Poll A) : Type 0 where
      waits : q.1 ≡ pending → Inv q.0.1 q.0.0 → measure q.0.1 q.0.0 < bound → Nearer bound q
      settles : (r : Result A) → q.1 ≡ ready r → Post r q.0.1 q.0.0 → Nearer bound q

    -- The future was ready, and left the scope with its result.
    abbrev pub Ended : S × Result A → Type 0
    Ended x =
        (r : Result A) × (end : J) × (s' : S) × (x ≡ after_drop r (drop end s')) × Post r end s'

    settle-Ended :
        (again : S × J → S × Result A) (bound : ℕ)
        → ((job : J) (s : S) → Inv job s → measure job s < bound → Ended (again (s, job)))
        → (q : (S × J) × Poll A) → Nearer bound q
        → Ended (settle again q)
    settle-Ended again bound rest ((s, job), x) (waits e i less) = rw e (rest job s i less)
    settle-Ended again bound rest ((s, job), x) (settles r e p) = (r, job, s, rw e refl, p)

    -- A future whose polls come nearer to the end is ready before a deadline that is late enough.
    pub complete-Ended :
        ((job : J) (s : S) → Inv job s → Nearer (measure job s) (poll job s))
        → (polls : ℕ) (job : J) (s : S) → Inv job s
        → measure job s ≤ polls
        → Ended (complete polls job s)
    unfolding complete
    complete-Ended step zero job s inv enough =
        settle-Ended (λ (s, job). after_drop panic (drop job s)) (measure job s)
          (λ later s' i less. absurd (omega arith)) (poll job s) (step job s inv)
    complete-Ended step (suc polls) job s inv enough =
        settle-Ended (λ (s, job). complete polls job s) (measure job s)
          (λ later s' i less. complete-Ended step polls later s' i (omega arith)) (poll job s)
          (step job s inv)
