-- ===== src/Error.antt =====
-- Errors and results (src/error.rs).
pub mod Display
use gudra.Common.{ℕ, String, F32, ◌==◌, if◌then◌else◌, Option, none, some, ◌≡◌, ◌≢◌, arith}
use gudra.Geometry.{Shape2D}

pub data Error : Type 0 where
  invalid_resource_limits : Error
  resource_limit : String → ℕ → Error
  empty_interior : String → Error
  shape_overflow : String → Error
  shape_limit : String → ℕ → ℕ → Error
  length_mismatch : String → ℕ → ℕ → Error
  shape_mismatch : String → Shape2D → Shape2D → Error
  context_mismatch : String → Error
  invalid_buffer : String → Error
  invalid_parameter : String → F32 → Error
  backend : String → String → Error

-- How a call ends: with a value, with an error, or by unwinding from a panic.
pub data Result {ℓ} (T : Type ℓ) : Type ℓ where
  panic : Result T
  err : Error → Result T
  ok : T → Result T

-- The `?` operator; a panic passes through as well.
infixl 5 ◌>>=◌ ◌>>◌
abbrev pub ◌>>=◌ {ℓ κ} : {S : Type ℓ} {T : Type κ} → Result S → (S → Result T) → Result T
panic >>= next = panic
err failure >>= next = err failure
ok value >>= next = next value

-- A statement that ends in `?;`.
abbrev pub ◌>>◌ {κ} : {T : Type κ} → Result (Unit {0}) → Result T → Result T
check >> next = check >>= λ _. next

-- `Option::ok_or`.
abbrev pub ok_or {ℓ} : {A : Type ℓ} → Option A → Error → Result A
ok_or none e = err e
ok_or (some a) e = ok a

-- An index or a sum that Rust checks at run time.
abbrev pub or_panic {ℓ} : {A : Type ℓ} → Option A → Result A
or_panic none = panic
or_panic (some a) = ok a

unfoldable pub check_len : String → ℕ → ℕ → Result (Unit {0})
check_len buffer expected actual =
    if expected == actual then ok tt else err (length_mismatch buffer expected actual)

pub check_len-eq_ok : (b : String) (n m : ℕ) → check_len b n m ≡ ok tt → n ≡ m
unfolding check_len
check_len-eq_ok b n m h = ground arith

pub check_len_self : (b : String) (n m : ℕ) → n ≡ m → check_len b n m ≡ ok tt
unfolding check_len
check_len_self b n m h = ground arith

pub check_len_ne : (b : String) (n m : ℕ) → n ≢ m → check_len b n m ≡ err (length_mismatch b n m)
unfolding check_len
check_len_ne b n m h = ground arith

pub ok_injective : {A : Type 0} {x y : A} → ok x ≡ ok y → x ≡ y
ok_injective e = cc
