-- ===== src/Admission.antt =====
-- The admission budget of a session (module `admission` of src/limits.rs). Each method runs under
-- one lock, so a method is one atomic step; a poisoned lock is entered all the same.
pub mod Decision
pub mod History
pub mod Invariant
pub mod Recovery
pub mod Request
use gudra.Common.{ℕ, ◌+◌, Bool, true, false, leb, if◌then◌else◌, checked_add, checked_sub}
use gudra.Error.{Result, ok, err, panic, ◌>>=◌, ◌>>◌, ok_or, or_panic, resource_limit}
use gudra.Limits
use gudra.Limits.{ResourceLimits}

pub record Usage : Type 0 where
  pub bytes : ℕ
  pub buffers : ℕ
  pub operations : ℕ

-- `Usage::default`.
abbrev pub no_usage : Usage
no_usage = record { bytes = 0; buffers = 0; operations = 0 }

pub record Budget : Type 0 where
  pub limits : ResourceLimits
  pub usage : Usage

-- A guard for what it has charged to the budget. The reference to the budget is left out: a guard
-- is always used with the budget that made it.
pub record Reservation : Type 0 where
  pub bytes : ℕ
  pub is_buffer : Bool

abbrev pub new : ResourceLimits → Budget
new limits = record { limits = limits; usage = no_usage }

-- `Budget::buffer`: the usage afterwards, and the guard. A `+=` that overflows panics.
unfoldable pub charge_buffer : Budget → ℕ → Result (Usage × Reservation)
unfolding Limits.check
charge_buffer b bytes = do
  Limits.check "buffer bytes" bytes b.limits.buffer_bytes
  total ←
      ok_or (checked_add b.usage.bytes bytes) (resource_limit "device bytes" b.limits.total_bytes)
  Limits.check "device bytes" total b.limits.total_bytes
  if leb b.limits.buffers b.usage.buffers
      then err (resource_limit "live buffers" b.limits.buffers)
      else do
        buffers ← or_panic (checked_add b.usage.buffers 1)
        ok (
            (
              record { bytes = total; buffers = buffers; operations = b.usage.operations },
              record { bytes = bytes; is_buffer = true },
            ))

-- `Budget::operation`.
unfoldable pub charge_operation : Budget → Result (Usage × Reservation)
charge_operation b =
    if leb b.limits.operations b.usage.operations
    then err (resource_limit "operations" b.limits.operations)
    else do
      operations ← or_panic (checked_add b.usage.operations 1)
      ok (
          (
            record { bytes = b.usage.bytes; buffers = b.usage.buffers; operations = operations },
            record { bytes = 0; is_buffer = false },
          ))

-- A method that fails leaves the usage as it was.
abbrev commit : Budget → Result (Usage × Reservation) → Budget × Result Reservation
commit b (ok (usage, guard)) = (record b { usage = usage }, ok guard)
commit b (err e) = (b, err e)
commit b panic = (b, panic)

unfoldable pub buffer : Budget → ℕ → Budget × Result Reservation
unfolding charge_buffer
buffer b bytes = commit b (charge_buffer b bytes)

unfoldable pub operation : Budget → Budget × Result Reservation
unfolding charge_operation
operation b = commit b (charge_operation b)

-- `Reservation::drop`. A `-=` that underflows panics.
unfoldable pub release : Budget → Reservation → Result Budget
release b r =
    if r.is_buffer
    then (do
      bytes ← or_panic (checked_sub b.usage.bytes r.bytes)
      buffers ← or_panic (checked_sub b.usage.buffers 1)
      ok (record b {
        usage = record { bytes = bytes; buffers = buffers; operations = b.usage.operations };
      }))
    else (do
      operations ← or_panic (checked_sub b.usage.operations 1)
      ok (record b {
        usage = record {
          bytes = b.usage.bytes;
          buffers = b.usage.buffers;
          operations = operations;
        };
      }))
