-- ===== src/Session/Ledger/Debts.antt =====
-- What guards have charged to a budget (src/limits.rs: `Reservation`), in any order.
use gudra.Common.{
  ℕ, ◌+◌, ◌-◌, Bool-cases, ◌≡◌, inl, inr, arith, if◌then◌else◌, checked_sub, List, [], ◌∷◌,
}
use gudra.Error.{ok}
use gudra.Admission
use gudra.Admission.{Budget, Reservation}

abbrev pub bytes_of : List Reservation → ℕ
bytes_of [] = 0
bytes_of (g ∷ gs) = (if g.is_buffer then g.bytes else 0) + bytes_of gs

abbrev pub buffers_of : List Reservation → ℕ
buffers_of [] = 0
buffers_of (g ∷ gs) = (if g.is_buffer then 1 else 0) + buffers_of gs

abbrev pub operations_of : List Reservation → ℕ
operations_of [] = 0
operations_of (g ∷ gs) = (if g.is_buffer then 0 else 1) + operations_of gs

-- A budget is another one with the charges of the guards.
pub record Owes (base : Budget) (gs : List Reservation) (now : Budget) : Type 0 where
  pub limits : now.limits ≡ base.limits
  pub bytes : now.usage.bytes ≡ base.usage.bytes + bytes_of gs
  pub buffers : now.usage.buffers ≡ base.usage.buffers + buffers_of gs
  pub operations : now.usage.operations ≡ base.usage.operations + operations_of gs

pub Owes-nothing : (base now : Budget) → Owes base [] now → now ≡ base
Owes-nothing base now o = λ i. record {
  limits = o.limits i;
  usage = record { bytes = bytes i; buffers = buffers i; operations = operations i };
}
  where
    bytes : now.usage.bytes ≡ base.usage.bytes
    bytes = omega (arith, o.bytes)

    buffers : now.usage.buffers ≡ base.usage.buffers
    buffers = omega (arith, o.buffers)

    operations : now.usage.operations ≡ base.usage.operations
    operations = omega (arith, o.operations)

-- Three guards the other way round.
pub Owes-reversed :
    (base now : Budget) (x y z : Reservation)
    → Owes base (x ∷ y ∷ z ∷ []) now
    → Owes base (z ∷ y ∷ x ∷ []) now
Owes-reversed base now x y z o = record {
  limits = o.limits;
  bytes = ground (arith, o.bytes);
  buffers = ground (arith, o.buffers);
  operations = ground (arith, o.operations);
}

-- The order of three guards does not matter.
pub Owes-rotated :
    (base now : Budget) (x y z : Reservation)
    → Owes base (x ∷ y ∷ z ∷ []) now
    → Owes base (y ∷ z ∷ x ∷ []) now
Owes-rotated base now x y z o = record {
  limits = o.limits;
  bytes = ground (arith, o.bytes);
  buffers = ground (arith, o.buffers);
  operations = ground (arith, o.operations);
}

-- The budget after the drop of a guard.
abbrev pub given_back : Budget → Reservation → Budget
given_back now g = record now {
  usage = record {
    bytes = now.usage.bytes - (if g.is_buffer then g.bytes else 0);
    buffers = now.usage.buffers - (if g.is_buffer then 1 else 0);
    operations = now.usage.operations - (if g.is_buffer then 0 else 1);
  };
}

pub release-Owes :
    (base now : Budget) (g : Reservation) (gs : List Reservation)
    → Owes base (g ∷ gs) now
    → (Admission.release now g ≡ ok (given_back now g)) × Owes base gs (given_back now g)
unfolding Admission.release checked_sub
release-Owes base now g gs o = elim (Bool-cases g.is_buffer) [
  | inl buffer ↦ (
    ground (arith, o.bytes, o.buffers),
    record {
      limits = o.limits;
      bytes = ground (arith, o.bytes);
      buffers = ground (arith, o.buffers);
      operations = ground (arith, o.operations);
    },
  )
  | inr operation ↦ (
    ground (arith, o.operations),
    record {
      limits = o.limits;
      bytes = ground (arith, o.bytes);
      buffers = ground (arith, o.buffers);
      operations = ground (arith, o.operations);
    },
  )
]
