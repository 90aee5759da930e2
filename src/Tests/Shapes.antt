-- ===== src/Tests/Shapes.antt =====
-- The fixtures of src/shape.rs, src/limits.rs, src/params.rs and src/completion.rs.
use gudra.Common.{
  ℕ, ◌≡◌, ◌≢◌, ◌↔◌, refl, arith, F32, f32_one, f32_zero, Arithmetic, usize_max, checked_add,
  checked_mul, div_ceil, ◌+◌, ◌-◌,
}
use gudra.Geometry.{Shape2D}
use gudra.Error.{
  Result, ok, err, empty_interior, shape_overflow, shape_limit, invalid_buffer, backend,
  invalid_resource_limits,
}
use gudra.Shape
use gudra.Shape.Domain.{InDomain, IsValid, new-eq_ok_iff, new-IsValid}
use gudra.Shape.Rejection.{metadata, Verdict, new-Verdict}
use gudra.Limits
use gudra.Limits.{ResourceLimits}
use gudra.Limits.Requests
use gudra.Completion.{ready, ensure_ready, run, run-ensure_ready}
use gudra.Params.{jacobi_params, laplacian_params}
use gudra.Params.Accepted.{
  JacobiVerdict, LaplacianVerdict, jacobi_params-JacobiVerdict, laplacian_params-LaplacianVerdict,
}

-- rectangular_geometry_and_ceil_grid
abbrev rectangle : Shape2D
rectangle = record {
  interior = (17, 19);
  haloed = (19, 21);
  interior_len = 323;
  haloed_len = 399;
  interior_bytes = 1292;
  haloed_bytes = 1596;
  grid = (2, 2, 1);
}

rectangular_geometry : Shape.new 17 19 ≡ ok rectangle
unfolding Shape.new Shape.product Shape.limit Shape.element_count Shape.block_count checked_add
    checked_mul div_ceil
rectangular_geometry = refl

-- rejects_zero_before_overflow
no_rows_first : Shape.new 0 usize_max ≡ err (empty_interior "height")
unfolding Shape.new
no_rows_first = refl

sum_overflows : Shape.new usize_max 1 ≡ err (shape_overflow "height + 2")
unfolding Shape.new checked_add
sum_overflows = refl

-- bounds_total_elements_and_each_grid_axis
too_tall : Shape.new 1_048_561 1 ≡ err (shape_limit "height blocks" 65_536 65_535)
unfolding Shape.new Shape.product Shape.limit checked_add checked_mul div_ceil
too_tall = refl

new-Verdict_example : Verdict 17 19 (Shape.new 17 19)
new-Verdict_example = new-Verdict 17 19

new-eq_ok_iff_example :
    (Shape.new 17 19 ≡ ok (metadata 17 19)) ↔ (InDomain 17 19 × (metadata 17 19 ≡ metadata 17 19))
new-eq_ok_iff_example = new-eq_ok_iff 17 19 (metadata 17 19)

new-IsValid_example : IsValid rectangle
new-IsValid_example = new-IsValid 17 19 rectangle rectangular_geometry

abbrev zero_buffers : ResourceLimits
zero_buffers = record { buffer_bytes = 1; total_bytes = 1; buffers = 0; operations = 1 }

zero_limit_refused : Limits.new 1 1 0 1 ≡ err invalid_resource_limits
unfolding Limits.new
zero_limit_refused = refl

limits_example :
    ((Limits.new 1 1 0 1 ≡ ok zero_buffers) ↔ Requests.IsValid zero_buffers)
    × ((Limits.new 1 1 0 1 ≡ err invalid_resource_limits) ↔ (¬ Requests.IsValid zero_buffers))
limits_example = Requests.limits-IsValid zero_buffers

check_shape_example :
    Requests.Verdict Limits.default rectangle (Limits.check_shape Limits.default rectangle)
check_shape_example = Requests.check_shape-Verdict Limits.default rectangle (omega arith)

-- only_success_restores_readiness
abbrev failing : ℕ → ℕ × Result (Unit {0})
failing s = (s + 1, err (backend "injected execution error" "no CUDA involved"))

run-ensure_ready_example :
    let after = run failing (ready, 0) in
    (after.1 ≡ (failing 0).1)
    × (after.0.1 ≡ (failing 0).0)
    × ((ensure_ready after.0.0 "rhs" ≡ ok tt) ↔ ((failing 0).1 ≡ ok tt))
    × ((ensure_ready after.0.0 "rhs" ≡ err (invalid_buffer "rhs")) ↔ ((failing 0).1 ≢ ok tt))
run-ensure_ready_example = run-ensure_ready failing ready 0 "rhs"

-- coefficient_domain
abbrev negative_zero : F32
negative_zero = 0x8000_0000

abbrev negative_one : F32
negative_one = 0xbf80_0000

jacobi_params_example : JacobiVerdict f32_zero negative_zero (jacobi_params f32_zero negative_zero)
jacobi_params_example = jacobi_params-JacobiVerdict f32_zero negative_zero (omega arith)

-- A division that is exact for powers of two: one exponent from twice the bias.
abbrev powers_of_two : Arithmetic
powers_of_two = record {
  add = λ a b. a + b;
  sub = λ a b. a - b;
  mul = λ a b. a + b - f32_one;
  div = λ a b. a + f32_one - b;
}

laplacian_params_example :
    LaplacianVerdict 0x3e80_0000 0x4080_0000 (laplacian_params powers_of_two 0x3e80_0000)
laplacian_params_example = laplacian_params-LaplacianVerdict powers_of_two 0x3e80_0000 (omega arith)
