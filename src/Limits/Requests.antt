-- ===== src/Limits/Requests.antt =====
-- Which limits `ResourceLimits::new` accepts, and which requests `check_shape` lets through.
use native.Mathlib.Decide.{dec_le}
use gudra.Common.{ℕ, ◌+◌, ◌*◌, ◌≤◌, ◌<◌, ◌≡◌, ◌↔◌, arith, usize_max, checked_add, checked_mul}
use gudra.Geometry.{Shape2D}
use gudra.Error.{Result, ok, err, invalid_resource_limits, resource_limit}
use gudra.Limits.{ResourceLimits, new, check_shape}

-- The limits that the constructor promises.
pub record IsValid (l : ResourceLimits) : Type 0 where
  pub some_buffer_bytes : 0 < l.buffer_bytes
  pub some_buffers : 0 < l.buffers
  pub some_operations : 0 < l.operations
  pub buffer_fits : l.buffer_bytes ≤ l.total_bytes

-- `ResourceLimits::new` accepts exactly the positive limits whose per-buffer bytes fit the total
-- bytes, keeps the four numbers as they are, and refuses all others with `InvalidResourceLimits`.
pub limits-IsValid :
    (l : ResourceLimits)
    → ((new l.buffer_bytes l.total_bytes l.buffers l.operations ≡ ok l) ↔ IsValid l)
      × ((new l.buffer_bytes l.total_bytes l.buffers l.operations ≡ err invalid_resource_limits)
          ↔ (¬ IsValid l))
unfolding new
limits-IsValid l = (
  (
    (λ e. record {
      some_buffer_bytes = ground arith;
      some_buffers = ground arith;
      some_operations = ground arith;
      buffer_fits = ground arith;
    }),
    λ v. ground arith,
  ),
  ((λ e v. ground arith), λ n. refused n),
)
  where
    refused :
        ¬ IsValid l
        → new l.buffer_bytes l.total_bytes l.buffers l.operations ≡ err invalid_resource_limits
    refused n = ground (
      arith,
      λ (a : 0 < l.buffer_bytes) (b : 0 < l.buffers) (c : 0 < l.operations)
            (d : l.buffer_bytes ≤ l.total_bytes).
          n (record {
            some_buffer_bytes = a;
            some_buffers = b;
            some_operations = c;
            buffer_fits = d;
          }),
    )

-- The storage of one step: a haloed source, a right-hand side and an output.
abbrev pub step_bytes : Shape2D → ℕ
step_bytes s = s.haloed_bytes + 2 * s.interior_bytes

-- The outcome of `check_shape`, by the sizes alone. No two conditions hold together.
pub data Verdict (l : ResourceLimits) (s : Shape2D) (r : Result (Unit {0})) : Type 0 where
  large_buffer :
      l.buffer_bytes < s.haloed_bytes
      → r ≡ err (resource_limit "buffer bytes" l.buffer_bytes)
      → Verdict l s r
  large_total :
      s.haloed_bytes ≤ l.buffer_bytes
      → l.total_bytes < step_bytes s
      → r ≡ err (resource_limit "device bytes" l.total_bytes)
      → Verdict l s r
  few_buffers :
      s.haloed_bytes ≤ l.buffer_bytes
      → step_bytes s ≤ l.total_bytes
      → l.buffers < 3
      → r ≡ err (resource_limit "live buffers" l.buffers)
      → Verdict l s r
  passed :
      s.haloed_bytes ≤ l.buffer_bytes
      → step_bytes s ≤ l.total_bytes
      → 3 ≤ l.buffers
      → r ≡ ok tt
      → Verdict l s r

-- For limits that a `usize` can hold, `check_shape` refuses a request exactly when the haloed buffer, the three
-- buffers of a step together, or their number exceed the limits, in this order, with the limit
-- that is exceeded; an overflow of the sum counts as exceeding the total.
pub check_shape-Verdict :
    (l : ResourceLimits) (s : Shape2D) → l.total_bytes ≤ usize_max → Verdict l s (check_shape l s)
unfolding check_shape checked_mul checked_add
check_shape-Verdict l s range = elim (dec_le s.haloed_bytes l.buffer_bytes) [
  | no large ↦ large_buffer (omega arith) (ground arith)
  | yes fits ↦ elim (dec_le (step_bytes s) l.total_bytes) [
    | no more ↦ large_total fits (omega arith) (ground arith)
    | yes total ↦ elim (dec_le 3 l.buffers) [
      | no few ↦ few_buffers fits total (omega arith) (ground arith)
      | yes enough ↦ passed fits total enough (ground arith)
    ]
  ]
]
