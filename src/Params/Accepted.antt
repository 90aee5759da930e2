-- ===== src/Params/Accepted.antt =====
-- The coefficients that the constructors accept, by the fields of the IEEE encoding.
use gudra.Common.{
  ℕ, ◌/◌, ◌%◌, ◌^◌, ◌<◌, ◌≡◌, ◌≢◌, ◌↔◌, ◌⊎◌, inl, inr, arith, true, false, F32, f32_one, is_finite,
  is_negative, is_nonpositive, Arithmetic, Bool-cases,
}
use gudra.Error.{Result, ok, err, invalid_parameter}
use gudra.Params.{JacobiParams, LaplacianParams, jacobi_params, laplacian_params}

abbrev pub sign : F32 → ℕ
sign x = x / 2 ^ 31

abbrev pub exponent : F32 → ℕ
exponent x = x / 2 ^ 23 % 2 ^ 8

abbrev pub mantissa : F32 → ℕ
mantissa x = x % 2 ^ 23

-- Neither an infinity nor a NaN.
abbrev pub Finite : F32 → Type 0
Finite x = exponent x ≢ 255

-- One of the two zeros.
abbrev pub Zero : F32 → Type 0
Zero x = (exponent x ≡ 0) × (mantissa x ≡ 0)

is_finite-Finite : (x : F32) → (is_finite x ≡ true) ↔ Finite x
unfolding is_finite
is_finite-Finite x = ((λ e. ground arith), λ f. ground arith)

is_finite-not_Finite : (x : F32) → is_finite x ≡ false → ¬ Finite x
unfolding is_finite
is_finite-not_Finite x e f = ground arith

is_negative-true :
    (x : F32) → x < 2 ^ 32 → Finite x → is_negative x ≡ true → (sign x ≡ 1) × ¬ Zero x
unfolding is_negative
is_negative-true x r f e = (ground arith, λ z. ground arith)

is_negative-false :
    (x : F32) → x < 2 ^ 32 → Finite x → is_negative x ≡ false → (sign x ≡ 0) ⊎ Zero x
unfolding is_negative
is_negative-false x r f e = ground arith

is_nonpositive-true :
    (x : F32) → x < 2 ^ 32 → Finite x → is_nonpositive x ≡ true → (sign x ≡ 1) ⊎ Zero x
unfolding is_nonpositive
is_nonpositive-true x r f e = ground arith

is_nonpositive-false :
    (x : F32) → x < 2 ^ 32 → Finite x → is_nonpositive x ≡ false → (sign x ≡ 0) × ¬ Zero x
unfolding is_nonpositive
is_nonpositive-false x r f e = (ground arith, λ z. ground arith)

-- The outcome of `JacobiParams::new`. No two conditions hold together.
pub data JacobiVerdict (omega h_squared : F32) (r : Result JacobiParams) : Type 0 where
  wild_factor :
      ¬ Finite omega → r ≡ err (invalid_parameter "omega" omega) → JacobiVerdict omega h_squared r
  wild_spacing :
      Finite omega
      → ¬ Finite h_squared
      → r ≡ err (invalid_parameter "h_squared" h_squared)
      → JacobiVerdict omega h_squared r
  negative_spacing :
      Finite omega
      → Finite h_squared
      → (sign h_squared ≡ 1) × ¬ Zero h_squared
      → r ≡ err (invalid_parameter "h_squared" h_squared)
      → JacobiVerdict omega h_squared r
  accepted :
      Finite omega
      → Finite h_squared
      → (sign h_squared ≡ 0) ⊎ Zero h_squared
      → r ≡ ok (record { omega = omega; h_squared = h_squared })
      → JacobiVerdict omega h_squared r

-- For bit patterns of 32 bits, `JacobiParams::new` accepts exactly a finite factor with a finite
-- spacing that is not below zero, either zero included, and keeps both bit for bit. It names the
-- factor first and then the spacing, with the value given.
pub jacobi_params-JacobiVerdict :
    (omega h_squared : F32)
    → h_squared < 2 ^ 32
    → JacobiVerdict omega h_squared (jacobi_params omega h_squared)
unfolding jacobi_params
jacobi_params-JacobiVerdict w h range = elim (Bool-cases (is_finite w)) [
  | inr wild ↦ wild_factor (is_finite-not_Finite w wild) (rw wild)
  | inl calm ↦
      let factor = (is_finite-Finite w).0 calm in
      elim (Bool-cases (is_finite h)) [
        | inr wild ↦ wild_spacing factor (is_finite-not_Finite h wild) (rw (calm, wild))
        | inl tame ↦
            let spacing = (is_finite-Finite h).0 tame in
            elim (Bool-cases (is_negative h)) [
              | inl below ↦
                  negative_spacing factor spacing (is_negative-true h range spacing below)
                    (rw (calm, tame, below))
              | inr above ↦
                  accepted factor spacing (is_negative-false h range spacing above)
                    (rw (calm, tame, above))
            ]
      ]
]

-- The outcome of `LaplacianParams::new`, with `inverse` the quotient of one by the spacing.
pub data LaplacianVerdict (h_squared inverse : F32) (r : Result LaplacianParams) : Type 0 where
  refused :
      (¬ Finite h_squared) ⊎ (sign h_squared ≡ 1) ⊎ Zero h_squared ⊎ (¬ Finite inverse)
      → r ≡ err (invalid_parameter "laplacian h_squared" h_squared)
      → LaplacianVerdict h_squared inverse r
  positive :
      Finite h_squared
      → sign h_squared ≡ 0
      → ¬ Zero h_squared
      → Finite inverse
      → r ≡ ok (record { inverse_h_squared = inverse })
      → LaplacianVerdict h_squared inverse r

-- For bit patterns of 32 bits and any division, `LaplacianParams::new` accepts exactly a finite
-- spacing above zero whose reciprocal is finite, and keeps the reciprocal; it refuses all others
-- with the spacing given.
pub laplacian_params-LaplacianVerdict :
    (host : Arithmetic) (h_squared : F32)
    → h_squared < 2 ^ 32
    → LaplacianVerdict h_squared (host.div f32_one h_squared) (laplacian_params host h_squared)
unfolding laplacian_params
laplacian_params-LaplacianVerdict host h range = elim (Bool-cases (is_finite h)) [
  | inr wild ↦ refused (inl (is_finite-not_Finite h wild)) (rw wild)
  | inl tame ↦
      let spacing = (is_finite-Finite h).0 tame in
      elim (Bool-cases (is_nonpositive h)) [
        | inl below ↦
            refused (inr (ground (arith, is_nonpositive-true h range spacing below)))
              (rw (tame, below))
        | inr above ↦ elim (Bool-cases (is_finite (host.div f32_one h))) [
          | inr wild ↦
              refused (inr (inr (inr (is_finite-not_Finite _ wild)))) (rw (tame, above, wild))
          | inl calm ↦
              let (plus, nonzero) = is_nonpositive-false h range spacing above in
              positive spacing plus nonzero ((is_finite-Finite _).0 calm) (rw (tame, above, calm))
        ]
      ]
]
