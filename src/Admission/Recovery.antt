-- ===== src/Admission/Recovery.antt =====
-- Dropping guards: it never underflows, and gives the whole budget back.
use gudra.Common.{
  ℕ, ◌-◌, ◌≤◌, ◌≡◌, refl, ap, sym, arith, inl, inr, Bool-cases, List, [], ◌∷◌, ◌++◌, checked_sub,
}
use gudra.Error.{ok}
use gudra.Limits.{ResourceLimits}
use gudra.Admission.{Budget, Reservation, buffer, operation, release}
use gudra.Admission.Decision.{InRange}
use gudra.Admission.History.{
  System, Reach, fresh, dropped, weigh, weigh_middle, bytes, buffers, operations,
}
use gudra.Admission.Invariant.{Inv, Step-Inv, Reach-Inv, buffer_granted, operation_granted}

release_covered :
    (b : Budget) (r : Reservation)
    → bytes r ≤ b.usage.bytes
    → buffers r ≤ b.usage.buffers
    → operations r ≤ b.usage.operations
    → (b' : Budget) × (release b r ≡ ok b')
unfolding release checked_sub
release_covered b r hb hn ho = elim (Bool-cases r.is_buffer) [
  | inl yes_buffer ↦ (
    record b {
      usage = record b.usage { bytes = b.usage.bytes - r.bytes; buffers = b.usage.buffers - 1 };
    },
    ground arith,
  )
  | inr no_buffer ↦
      (record b { usage = record b.usage { operations = b.usage.operations - 1 } }, ground arith)
]

Inv-release :
    (l : ResourceLimits) (s : System) (xs ys : List Reservation) (r : Reservation)
    → Inv l s
    → s.live ≡ xs ++ (r ∷ ys)
    → (b : Budget) × (release s.budget r ≡ ok b)
Inv-release l s xs ys r v m =
    release_covered s.budget r
      (omega (arith, weigh_middle bytes xs ys r, ap (weigh bytes) m, v.counted_bytes))
      (omega (arith, weigh_middle buffers xs ys r, ap (weigh buffers) m, v.counted_buffers))
      (omega
        (arith, weigh_middle operations xs ys r, ap (weigh operations) m, v.counted_operations))

-- In every state that a history reaches, under limits of type `usize`, any live guard can be
-- dropped: the subtractions do not underflow, so that neither a panic nor a wrap-around occurs.
pub Reach-release :
    (l : ResourceLimits) (s : System) (xs ys : List Reservation) (r : Reservation)
    → InRange l
    → Reach l s
    → s.live ≡ xs ++ (r ∷ ys)
    → (b : Budget) × (release s.budget r ≡ ok b)
Reach-release l s xs ys r range reach m = Inv-release l s xs ys r (Reach-Inv l s range reach) m

-- The guard of a buffer, dropped right after its admission, restores the budget, under limits of
-- type `usize`.
pub release-buffer :
    (b b' : Budget) (n : ℕ) (r : Reservation)
    → InRange b.limits
    → buffer b n ≡ (b', ok r)
    → release b' r ≡ ok b
unfolding release checked_sub
release-buffer b b' n r range e =
    let (same, guard, small, room, slot) = buffer_granted b b' n r range e in
    rw (same, guard) (ground arith)

-- The guard of an operation, dropped right after its admission, restores the budget, under limits of
-- type `usize`.
pub release-operation :
    (b b' : Budget) (r : Reservation)
    → InRange b.limits
    → operation b ≡ (b', ok r)
    → release b' r ≡ ok b
unfolding release checked_sub
release-operation b b' r range e =
    let (same, guard, slot) = operation_granted b b' r range e in rw (same, guard) (ground arith)

-- `t` is reached from `s` by dropping the live guards, newest first.
pub data Drains (t : System) : System → Type 0 where
  empty : {s : System} → s.live ≡ [] → t ≡ s → Drains t s
  drop :
      {s : System} (r : Reservation) (rs : List Reservation) (b : Budget)
      → s.live ≡ r ∷ rs
      → release s.budget r ≡ ok b
      → Drains t (record s { budget = b; live = rs })
      → Drains t s

Inv-empty :
    (l : ResourceLimits) (s : System) → Inv l s → s.live ≡ [] → s.forgotten ≡ [] → s ≡ fresh l
unfolding weigh
Inv-empty l s v none_live none_forgotten =
    let free_bytes : s.budget.usage.bytes ≡ 0 =
      omega (arith, v.counted_bytes, ap (weigh bytes) none_live, ap (weigh bytes) none_forgotten) in
    let free_buffers : s.budget.usage.buffers ≡ 0 =
      omega (arith, ap (weigh buffers) none_live, ap (weigh buffers) none_forgotten) in
    let free_operations : s.budget.usage.operations ≡ 0 =
      omega (arith, ap (weigh operations) none_live, ap (weigh operations) none_forgotten) in
    ground (arith, v.limits)

Inv-Drains :
    (l : ResourceLimits) (range : InRange l) (b : Budget) (live forgotten : List Reservation)
    → Inv l (record { budget = b; live = live; forgotten = forgotten })
    → forgotten ≡ []
    → Drains (fresh l) (record { budget = b; live = live; forgotten = forgotten })
Inv-Drains l range b [] forgotten v e = empty refl (sym (Inv-empty l _ v refl e))
Inv-Drains l range b (r ∷ rs) forgotten v e =
    let s : System = record { budget = b; live = r ∷ rs; forgotten = forgotten } in
    let (b', done) = Inv-release l s [] rs r v refl in
    let after : System = record { budget = b'; live = rs; forgotten = forgotten } in
    drop r rs b' refl done (
      Inv-Drains l range b' rs forgotten
        (Step-Inv l range {s = s} {t = after} (dropped [] rs r b' refl done refl) v) e)

-- From every state that a history reaches without a forgotten guard, under limits of type `usize`, dropping the
-- live guards succeeds and ends in the fresh state: the whole budget is free again.
pub Reach-Drains :
    (l : ResourceLimits) (s : System)
    → InRange l
    → Reach l s
    → s.forgotten ≡ []
    → Drains (fresh l) s
Reach-Drains l s range reach e =
    Inv-Drains l range s.budget s.live s.forgotten (Reach-Inv l s range reach) e
