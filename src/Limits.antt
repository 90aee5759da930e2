-- ===== src/Limits.antt =====
-- `ResourceLimits` (src/limits.rs): the budgets of a session and the static check of a request.
pub mod Requests
use gudra.Common.{
  ℕ, String, ◌*◌, Bool, ◌||◌, ltb, ◌==◌, if◌then◌else◌, checked_add, checked_mul, Option, some,
  none,
}
use gudra.Geometry.{Shape2D}
use gudra.Error.{
  Error, Result, ok, err, ◌>>=◌, ◌>>◌, ok_or, invalid_resource_limits, resource_limit,
}

pub record ResourceLimits : Type 0 where
  pub buffer_bytes : ℕ
  pub total_bytes : ℕ
  pub buffers : ℕ
  pub operations : ℕ

-- `ResourceLimits::default`.
abbrev pub default : ResourceLimits
default = record {
  buffer_bytes = 256 * 1024 * 1024;
  total_bytes = 1024 * 1024 * 1024;
  buffers = 64;
  operations = 8;
}

unfoldable pub new : ℕ → ℕ → ℕ → ℕ → Result ResourceLimits
new buffer_bytes total_bytes buffers operations =
    if buffer_bytes == 0
      || total_bytes == 0
      || buffers == 0
      || operations == 0
      || ltb total_bytes buffer_bytes
    then err invalid_resource_limits
    else ok (record {
      buffer_bytes = buffer_bytes;
      total_bytes = total_bytes;
      buffers = buffers;
      operations = operations;
    })

unfoldable pub check : String → ℕ → ℕ → Result (Unit {0})
check resource amount maximum =
    if ltb maximum amount then err (resource_limit resource maximum) else ok tt

-- `Option::and_then`.
abbrev and_then : Option ℕ → (ℕ → Option ℕ) → Option ℕ
and_then none f = none
and_then (some a) f = f a

unfoldable pub check_shape : ResourceLimits → Shape2D → Result (Unit {0})
unfolding check
check_shape limits shape = do
  check "buffer bytes" shape.haloed_bytes limits.buffer_bytes
  total ←
      ok_or (and_then (checked_mul shape.interior_bytes 2) (λ n. checked_add n shape.haloed_bytes))
        (resource_limit "device bytes" limits.total_bytes)
  check "device bytes" total limits.total_bytes
  check "live buffers" 3 limits.buffers
