-- ===== src/Params.antt =====
-- The coefficients of the operators (src/params.rs).
pub mod Accepted
use gudra.Common.{
  Bool, ◌||◌, not, if◌then◌else◌, F32, f32_one, is_finite, is_negative, is_nonpositive, Arithmetic,
}
use gudra.Error.{Error, Result, ok, err, invalid_parameter}

pub record JacobiParams : Type 0 where
  pub omega : F32
  pub h_squared : F32

pub record LaplacianParams : Type 0 where
  pub inverse_h_squared : F32

-- `JacobiParams::new`.
unfoldable pub jacobi_params : F32 → F32 → Result JacobiParams
jacobi_params omega h_squared =
    if not (is_finite omega)
    then err (invalid_parameter "omega" omega)
    else if not (is_finite h_squared) || is_negative h_squared
    then err (invalid_parameter "h_squared" h_squared)
    else ok (record { omega = omega; h_squared = h_squared })

-- `LaplacianParams::new`, with the division of the host.
unfoldable pub laplacian_params : Arithmetic → F32 → Result LaplacianParams
laplacian_params host h_squared =
    let inverse_h_squared = host.div f32_one h_squared in
    if not (is_finite h_squared) || is_nonpositive h_squared || not (is_finite inverse_h_squared)
    then err (invalid_parameter "laplacian h_squared" h_squared)
    else ok (record { inverse_h_squared = inverse_h_squared })
