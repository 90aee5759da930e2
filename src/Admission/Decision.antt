-- ===== src/Admission/Decision.antt =====
-- When a budget admits a buffer or an operation, and what a refusal says.
use native.Mathlib.Decide.{dec_le, dec_lt}
use gudra.Common.{ℕ, ◌+◌, ◌≤◌, ◌<◌, ◌≡◌, arith, true, false, usize_max, checked_add}
use gudra.Error.{Result, ok, err, resource_limit}
use gudra.Limits.{ResourceLimits}
use gudra.Admission.{Budget, Reservation, buffer, operation}

-- The limits are values of `usize`.
pub record InRange (l : ResourceLimits) : Type 0 where
  pub total : l.total_bytes ≤ usize_max
  pub buffers : l.buffers ≤ usize_max
  pub operations : l.operations ≤ usize_max

-- The budget with a buffer of `n` bytes, or an operation, added to its usage.
abbrev pub with_buffer : Budget → ℕ → Budget
with_buffer b n = record b {
  usage = record b.usage { bytes = b.usage.bytes + n; buffers = b.usage.buffers + 1 };
}

abbrev pub with_operation : Budget → Budget
with_operation b = record b { usage = record b.usage { operations = b.usage.operations + 1 } }

-- The outcome of `Budget::buffer`. No two conditions hold together.
pub data BufferVerdict (b : Budget) (n : ℕ) (r : Budget × Result Reservation) : Type 0 where
  large_buffer :
      b.limits.buffer_bytes < n
      → r ≡ (b, err (resource_limit "buffer bytes" b.limits.buffer_bytes))
      → BufferVerdict b n r
  no_room :
      n ≤ b.limits.buffer_bytes
      → b.limits.total_bytes < b.usage.bytes + n
      → r ≡ (b, err (resource_limit "device bytes" b.limits.total_bytes))
      → BufferVerdict b n r
  no_slot :
      n ≤ b.limits.buffer_bytes
      → b.usage.bytes + n ≤ b.limits.total_bytes
      → b.limits.buffers ≤ b.usage.buffers
      → r ≡ (b, err (resource_limit "live buffers" b.limits.buffers))
      → BufferVerdict b n r
  admitted :
      n ≤ b.limits.buffer_bytes
      → b.usage.bytes + n ≤ b.limits.total_bytes
      → b.usage.buffers < b.limits.buffers
      → r ≡ (with_buffer b n, ok (record { bytes = n; is_buffer = true }))
      → BufferVerdict b n r

-- Under limits of type `usize`, `Budget::buffer` admits a buffer exactly when its bytes fit the
-- per-buffer limit, the bytes in use with it fit the total and a buffer slot is free; it then
-- charges just these bytes and one slot. It refuses otherwise with the first limit exceeded, in
-- this order, and leaves the budget as it was. No sum overflows into a panic.
pub buffer-BufferVerdict : (b : Budget) (n : ℕ) → InRange b.limits → BufferVerdict b n (buffer b n)
unfolding buffer checked_add
buffer-BufferVerdict b n range = elim (dec_le n b.limits.buffer_bytes) [
  | no large ↦ large_buffer (omega arith) (ground arith)
  | yes fits ↦ elim (dec_le (b.usage.bytes + n) b.limits.total_bytes) [
    | no full ↦ no_room fits (omega arith) (ground arith)
    | yes room ↦ elim (dec_lt b.usage.buffers b.limits.buffers) [
      | no full ↦ no_slot fits room (omega arith) (ground arith)
      | yes slot ↦ admitted fits room slot (ground arith)
    ]
  ]
]

-- The outcome of `Budget::operation`.
pub data OperationVerdict (b : Budget) (r : Budget × Result Reservation) : Type 0 where
  busy :
      b.limits.operations ≤ b.usage.operations
      → r ≡ (b, err (resource_limit "operations" b.limits.operations))
      → OperationVerdict b r
  started :
      b.usage.operations < b.limits.operations
      → r ≡ (with_operation b, ok (record { bytes = 0; is_buffer = false }))
      → OperationVerdict b r

-- Under limits of type `usize`, `Budget::operation` admits an operation exactly when fewer than
-- the limit are admitted, and charges one; otherwise it refuses and leaves the budget as it was.
pub operation-OperationVerdict : (b : Budget) → InRange b.limits → OperationVerdict b (operation b)
unfolding operation checked_add
operation-OperationVerdict b range = elim (dec_lt b.usage.operations b.limits.operations) [
  | no full ↦ busy (omega arith) (ground arith)
  | yes free ↦ started free (ground arith)
]
