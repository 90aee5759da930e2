-- ===== src/Admission/Request.antt =====
-- The static check of a request against the live admission of its buffers.
use gudra.Common.{ℕ, ◌+◌, ◌*◌, ◌≤◌, ◌<◌, ◌≡◌, refl, arith, true}
use gudra.Geometry.{Shape2D}
use gudra.Error.{ok}
use gudra.Shape.Domain.{IsValid}
use gudra.Limits.{ResourceLimits, check_shape}
use gudra.Limits.Requests.{
  Verdict, check_shape-Verdict, large_buffer, large_total, few_buffers, passed, step_bytes,
}
use gudra.Admission.{Budget, new, buffer}
use gudra.Admission.Decision.{
  InRange, with_buffer, BufferVerdict, buffer-BufferVerdict, no_room, no_slot, admitted,
}
use gudra.Admission.Decision

-- A buffer that fits is admitted.
pub buffer_fits :
    (b : Budget) (n : ℕ)
    → InRange b.limits
    → n ≤ b.limits.buffer_bytes
    → b.usage.bytes + n ≤ b.limits.total_bytes
    → b.usage.buffers < b.limits.buffers
    → buffer b n ≡ (with_buffer b n, ok (record { bytes = n; is_buffer = true }))
buffer_fits b n range small room slot = go (buffer-BufferVerdict b n range)
  where
    go :
        BufferVerdict b n (buffer b n)
        → buffer b n ≡ (with_buffer b n, ok (record { bytes = n; is_buffer = true }))
    go (Decision.large_buffer c q) = absurd (omega arith)
    go (no_room c d q) = absurd (omega arith)
    go (no_slot c d f q) = absurd (omega arith)
    go (admitted c d f q) = q

check_shape-fits :
    (l : ResourceLimits) (s : Shape2D)
    → InRange l
    → check_shape l s ≡ ok tt
    → (s.haloed_bytes ≤ l.buffer_bytes) × (step_bytes s ≤ l.total_bytes) × (3 ≤ l.buffers)
check_shape-fits l s range e = go (check_shape-Verdict l s range.total)
  where
    go :
        Verdict l s (check_shape l s)
        → (s.haloed_bytes ≤ l.buffer_bytes) × (step_bytes s ≤ l.total_bytes) × (3 ≤ l.buffers)
    go (large_buffer c q) = absurd (cc)
    go (large_total c d q) = absurd (cc)
    go (few_buffers c d f q) = absurd (cc)
    go (passed c d f q) = (c, d, f)

product-le : (a b h w : ℕ) → a ≡ h + 2 → b ≡ w + 2 → h * w ≤ a * b
product-le a b h w p q = rw (p, q) (omega arith)

-- The budget of a fresh session after the source, the right-hand side and the output of a step.
abbrev pub with_step : ResourceLimits → Shape2D → Budget
with_step l s =
    with_buffer (with_buffer (with_buffer (new l) s.haloed_bytes) s.interior_bytes) s.interior_bytes

-- A well-formed shape that `check_shape` lets through is not refused by the admission of a fresh
-- session, under limits of type `usize`: its source, right-hand side and output are all admitted.
pub check_shape-buffer :
    (l : ResourceLimits) (s : Shape2D)
    → InRange l
    → IsValid s
    → check_shape l s ≡ ok tt
    → let source = buffer (new l) s.haloed_bytes in
      let rhs = buffer source.0 s.interior_bytes in
      let output = buffer rhs.0 s.interior_bytes in
      (source.1 ≡ ok (record { bytes = s.haloed_bytes; is_buffer = true }))
      × (rhs.1 ≡ ok (record { bytes = s.interior_bytes; is_buffer = true }))
      × (output ≡ (with_step l s, ok (record { bytes = s.interior_bytes; is_buffer = true })))
check_shape-buffer l s range valid e =
    let (small, room, slots) = check_shape-fits l s range e in
    let less : s.interior_bytes ≤ s.haloed_bytes = omega (
      arith,
      product-le s.haloed.0 s.haloed.1 s.interior.0 s.interior.1 valid.halo_rows valid.halo_columns,
    ) in
    let first = buffer_fits (new l) s.haloed_bytes range small (omega arith) (omega arith) in
    let second =
      buffer_fits (with_buffer (new l) s.haloed_bytes) s.interior_bytes range (omega arith)
        (omega arith) (omega arith) in
    let third =
      buffer_fits (with_buffer (with_buffer (new l) s.haloed_bytes) s.interior_bytes)
        s.interior_bytes range (omega arith) (omega arith) (omega arith) in
    rw (first, second, third) (refl, refl, refl)
