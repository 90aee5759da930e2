-- ===== src/Admission/Invariant.antt =====
-- The usage of a budget is what its guards have charged, and stays within the limits.
use gudra.Common.{
  ℕ, true, false, sym, subst, ◌+◌, ◌≤◌, ◌<◌, ◌≡◌, refl, ap, arith, List, [], ◌∷◌, ◌++◌, checked_sub,
}
use gudra.Error.{Error, ok, err}
use gudra.Limits.{ResourceLimits}
use gudra.Admission.{Budget, Reservation, buffer, operation, release}
use gudra.Admission.Decision.{
  InRange, with_buffer, with_operation, BufferVerdict, buffer-BufferVerdict, OperationVerdict,
  operation-OperationVerdict, large_buffer, no_room, no_slot, admitted, busy, started,
}
use gudra.Admission.History.{
  System, Step, Reach, fresh, start, next, buffer_admitted, buffer_refused, operation_admitted,
  operation_refused, dropped, leaked, weigh, weigh_cons, weigh_middle, bytes, buffers, operations,
}

-- A guard of a buffer holds at most the per-buffer bytes.
abbrev pub Fits : ResourceLimits → List Reservation → Type 0
Fits l [] = Unit {0}
Fits l (r ∷ rs) = (bytes r ≤ l.buffer_bytes) × Fits l rs

pub record Inv (l : ResourceLimits) (s : System) : Type 0 where
  pub limits : s.budget.limits ≡ l
  pub counted_bytes : s.budget.usage.bytes ≡ weigh bytes s.live + weigh bytes s.forgotten
  pub counted_buffers : s.budget.usage.buffers ≡ weigh buffers s.live + weigh buffers s.forgotten
  pub counted_operations :
      s.budget.usage.operations ≡ weigh operations s.live + weigh operations s.forgotten
  pub bounded_bytes : s.budget.usage.bytes ≤ l.total_bytes
  pub bounded_buffers : s.budget.usage.buffers ≤ l.buffers
  pub bounded_operations : s.budget.usage.operations ≤ l.operations
  pub fits : Fits l s.live × Fits l s.forgotten

fresh-Inv : (l : ResourceLimits) → Inv l (fresh l)
unfolding weigh
fresh-Inv l = record {
  limits = refl;
  counted_bytes = omega arith;
  counted_buffers = omega arith;
  counted_operations = omega arith;
  bounded_bytes = omega arith;
  bounded_buffers = omega arith;
  bounded_operations = omega arith;
  fits = (tt, tt);
}

Fits-middle :
    (l : ResourceLimits) (xs ys : List Reservation) (r : Reservation)
    → Fits l (xs ++ (r ∷ ys))
    → (bytes r ≤ l.buffer_bytes) × Fits l (xs ++ ys)
Fits-middle l [] ys r f = f
Fits-middle l (x ∷ xs) ys r f = let (own, rest) = Fits-middle l xs ys r f.1 in (own, (f.0, rest))

-- What a successful admission returned.
pub buffer_granted :
    (b b' : Budget) (n : ℕ) (r : Reservation)
    → InRange b.limits
    → buffer b n ≡ (b', ok r)
    → (b' ≡ with_buffer b n)
      × (r ≡ record { bytes = n; is_buffer = true })
      × (n ≤ b.limits.buffer_bytes)
      × (b.usage.bytes + n ≤ b.limits.total_bytes)
      × (b.usage.buffers < b.limits.buffers)
buffer_granted b b' n r range e = go (buffer-BufferVerdict b n range)
  where
    go :
        BufferVerdict b n (buffer b n)
        → (b' ≡ with_buffer b n)
          × (r ≡ record { bytes = n; is_buffer = true })
          × (n ≤ b.limits.buffer_bytes)
          × (b.usage.bytes + n ≤ b.limits.total_bytes)
          × (b.usage.buffers < b.limits.buffers)
    go (large_buffer c q) = cc
    go (no_room c d q) = cc
    go (no_slot c d f q) = cc
    go (admitted c d f q) = (cc, cc, c, d, f)

buffer_denied :
    (b b' : Budget) (n : ℕ) (x : Error) → InRange b.limits → buffer b n ≡ (b', err x) → b' ≡ b
buffer_denied b b' n x range e = go (buffer-BufferVerdict b n range)
  where
    go : BufferVerdict b n (buffer b n) → b' ≡ b
    go (large_buffer c q) = cc
    go (no_room c d q) = cc
    go (no_slot c d f q) = cc
    go (admitted c d f q) = cc

pub operation_granted :
    (b b' : Budget) (r : Reservation)
    → InRange b.limits
    → operation b ≡ (b', ok r)
    → (b' ≡ with_operation b)
      × (r ≡ record { bytes = 0; is_buffer = false })
      × (b.usage.operations < b.limits.operations)
operation_granted b b' r range e = go (operation-OperationVerdict b range)
  where
    go :
        OperationVerdict b (operation b)
        → (b' ≡ with_operation b)
          × (r ≡ record { bytes = 0; is_buffer = false })
          × (b.usage.operations < b.limits.operations)
    go (busy c q) = cc
    go (started c q) = (cc, cc, c)

operation_denied :
    (b b' : Budget) (x : Error) → InRange b.limits → operation b ≡ (b', err x) → b' ≡ b
operation_denied b b' x range e = go (operation-OperationVerdict b range)
  where
    go : OperationVerdict b (operation b) → b' ≡ b
    go (busy c q) = cc
    go (started c q) = cc

-- Dropping a guard gives back what it charged.
pub released :
    (b b' : Budget) (r : Reservation)
    → release b r ≡ ok b'
    → (b'.limits ≡ b.limits)
      × (b'.usage.bytes + bytes r ≡ b.usage.bytes)
      × (b'.usage.buffers + buffers r ≡ b.usage.buffers)
      × (b'.usage.operations + operations r ≡ b.usage.operations)
unfolding release checked_sub
released b b' r e = ground arith

module _ (l : ResourceLimits) (range : InRange l) (s : System) (v : Inv l s) where
  own_range : InRange s.budget.limits
  own_range = subst InRange (sym v.limits) range

  add_buffer-Inv :
      (n : ℕ) (r : Reservation) (b : Budget)
      → buffer s.budget n ≡ (b, ok r)
      → Inv l (record s { budget = b; live = r ∷ s.live })
  add_buffer-Inv n r b e =
      let (same, guard, small, room, slot) = buffer_granted s.budget b n r own_range e in
      record {
        limits = ground arith;
        counted_bytes = ground (arith, weigh_cons bytes r s.live);
        counted_buffers = ground (arith, weigh_cons buffers r s.live);
        counted_operations = ground (arith, weigh_cons operations r s.live);
        bounded_bytes = ground arith;
        bounded_buffers = ground arith;
        bounded_operations = ground arith;
        fits = ground arith;
      }

  add_operation-Inv :
      (r : Reservation) (b : Budget)
      → operation s.budget ≡ (b, ok r)
      → Inv l (record s { budget = b; live = r ∷ s.live })
  add_operation-Inv r b e =
      let (same, guard, slot) = operation_granted s.budget b r own_range e in
      record {
        limits = ground arith;
        counted_bytes = ground (arith, weigh_cons bytes r s.live);
        counted_buffers = ground (arith, weigh_cons buffers r s.live);
        counted_operations = ground (arith, weigh_cons operations r s.live);
        bounded_bytes = ground arith;
        bounded_buffers = ground arith;
        bounded_operations = ground arith;
        fits = ground arith;
      }

  drop-Inv :
      (xs ys : List Reservation) (r : Reservation) (b : Budget)
      → s.live ≡ xs ++ (r ∷ ys)
      → release s.budget r ≡ ok b
      → Inv l (record s { budget = b; live = xs ++ ys })
  drop-Inv xs ys r b m e =
      let (same, less_bytes, less_buffers, less_operations) = released s.budget b r e in
      record {
        limits = ground arith;
        counted_bytes = omega (arith, weigh_middle bytes xs ys r, ap (weigh bytes) m);
        counted_buffers = omega (arith, weigh_middle buffers xs ys r, ap (weigh buffers) m);
        counted_operations =
            omega (arith, weigh_middle operations xs ys r, ap (weigh operations) m);
        bounded_bytes = omega arith;
        bounded_buffers = omega arith;
        bounded_operations = omega arith;
        fits = ((Fits-middle l xs ys r (subst (Fits l) m v.fits.0)).1, v.fits.1);
      }

  leak-Inv :
      (xs ys : List Reservation) (r : Reservation)
      → s.live ≡ xs ++ (r ∷ ys)
      → Inv l (record s { live = xs ++ ys; forgotten = r ∷ s.forgotten })
  leak-Inv xs ys r m =
      let (own, rest) = Fits-middle l xs ys r (subst (Fits l) m v.fits.0) in
      record {
        limits = v.limits;
        counted_bytes =
            omega (
              arith,
              weigh_middle bytes xs ys r,
              weigh_cons bytes r s.forgotten,
              ap (weigh bytes) m,
            );
        counted_buffers = omega (
          arith,
          weigh_middle buffers xs ys r,
          weigh_cons buffers r s.forgotten,
          ap (weigh buffers) m,
        );
        counted_operations = omega (
          arith,
          weigh_middle operations xs ys r,
          weigh_cons operations r s.forgotten,
          ap (weigh operations) m,
        );
        bounded_bytes = v.bounded_bytes;
        bounded_buffers = v.bounded_buffers;
        bounded_operations = v.bounded_operations;
        fits = (rest, (own, v.fits.1));
      }

  same-Inv : (b : Budget) → b ≡ s.budget → Inv l (record s { budget = b })
  same-Inv b e = subst (λ c. Inv l (record s { budget = c })) (sym e) v

pub Step-Inv :
    (l : ResourceLimits) (range : InRange l) {s t : System} → Step s t → Inv l s → Inv l t
Step-Inv l range {s} (buffer_admitted n r b e q) v =
    subst (Inv l) (sym q) (add_buffer-Inv l range s v n r b e)
Step-Inv l range {s} (buffer_refused n x b e q) v =
    subst (Inv l) (sym q)
      (same-Inv l range s v b (buffer_denied s.budget b n x (own_range l range s v) e))
Step-Inv l range {s} (operation_admitted r b e q) v =
    subst (Inv l) (sym q) (add_operation-Inv l range s v r b e)
Step-Inv l range {s} (operation_refused x b e q) v =
    subst (Inv l) (sym q)
      (same-Inv l range s v b (operation_denied s.budget b x (own_range l range s v) e))
Step-Inv l range {s} (dropped xs ys r b m e q) v =
    subst (Inv l) (sym q) (drop-Inv l range s v xs ys r b m e)
Step-Inv l range {s} (leaked xs ys r m q) v = subst (Inv l) (sym q) (leak-Inv l range s v xs ys r m)

-- After any interleaving of admissions, refusals, drops and leaks, under limits of type `usize`,
-- the usage is exactly what the live and the forgotten guards have charged, stays within the
-- limits of the session, and every guard of a buffer holds at most the per-buffer bytes.
pub Reach-Inv : (l : ResourceLimits) (s : System) → InRange l → Reach l s → Inv l s
Reach-Inv l s range start = fresh-Inv l
Reach-Inv l t range (next {s} r st) = Step-Inv l range st (Reach-Inv l s range r)
