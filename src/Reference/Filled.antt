-- ===== src/Reference/Filled.antt =====
-- What `jacobi_into` and `laplacian_into` leave in the output, on every branch.
use native.Mathlib.Decide.{ℕ_discrete}
use gudra.Common.{
  ◌+◌, ◌*◌, ◌≤◌, ◌≡◌, ◌≢◌, sym, ◌∙◌, ap₂, arith, F32, Arithmetic, List, length, checked_add-eq-some,
  i32_max,
}
use gudra.Geometry.{Shape2D, height, width}
use gudra.Error.{ok, err, check_len_self, check_len_ne, length_mismatch}
use gudra.Shape.Domain.{IsValid}
use gudra.Params.{JacobiParams, LaplacianParams}
use gudra.Loop.{Effect, for_grid, grid}
use gudra.Reference.{
  jacobi_value, laplacian_value, jacobi_cell, laplacian_cell, jacobi_into, laplacian_into,
}
use gudra.Reference.Cells.{at, stencil_at, jacobi_cell_lem, laplacian_cell_lem}

module _ (m : Arithmetic) (s : Shape2D) (haloed : List F32) where
  -- The updated interior, computed from the source and the right-hand side alone.
  abbrev pub jacobi_grid : List F32 → JacobiParams → List F32
  jacobi_grid rhs params =
      grid (height s) (width s)
        (λ r c. jacobi_value m params (stencil_at haloed (width s + 2) r c) (at rhs (width s) r c))

  abbrev pub laplacian_grid : LaplacianParams → List F32
  laplacian_grid params =
      grid (height s) (width s)
        (λ r c. laplacian_value m params (stencil_at haloed (width s + 2) r c))

-- The outcome of `jacobi_into`: what is left in the output, and the result.
pub data JacobiOutcome (m : Arithmetic) (s : Shape2D) (haloed rhs output : List F32)
    (params : JacobiParams) (r : Effect (List F32)) : Type 0 where
  bad_source :
      s.haloed_len ≢ length haloed
      → r ≡ (output, err (length_mismatch "source" s.haloed_len (length haloed)))
      → JacobiOutcome m s haloed rhs output params r
  bad_rhs :
      s.haloed_len ≡ length haloed
      → s.interior_len ≢ length rhs
      → r ≡ (output, err (length_mismatch "rhs" s.interior_len (length rhs)))
      → JacobiOutcome m s haloed rhs output params r
  bad_output :
      s.haloed_len ≡ length haloed
      → s.interior_len ≡ length rhs
      → s.interior_len ≢ length output
      → r ≡ (output, err (length_mismatch "output" s.interior_len (length output)))
      → JacobiOutcome m s haloed rhs output params r
  filled :
      s.haloed_len ≡ length haloed
      → s.interior_len ≡ length rhs
      → s.interior_len ≡ length output
      → r ≡ (jacobi_grid m s haloed rhs params, ok tt)
      → JacobiOutcome m s haloed rhs output params r

module _ (m : Arithmetic) (s : Shape2D) (valid : IsValid s) (haloed output : List F32)
    (source : s.haloed_len ≡ length haloed) (out : s.interior_len ≡ length output) where
  open valid use {counted, cells, halo_cells, halo_rows, halo_columns}

  halo_size : length haloed ≡ (height s + 2) * (width s + 2)
  halo_size = sym source ∙ halo_cells ∙ ap₂ ◌*◌ halo_rows halo_columns

  halo_counted : (height s + 2) * (width s + 2) ≤ i32_max
  halo_counted = omega (arith, halo_size)

  pub jacobi_into-grid :
      (rhs : List F32) (params : JacobiParams)
      → s.interior_len ≡ length rhs
      → jacobi_into m s haloed rhs output params ≡ (jacobi_grid m s haloed rhs params, ok tt)
  unfolding jacobi_into
  jacobi_into-grid rhs params forcing =
      rw
        (
          check_len_self "source" _ _ source,
          check_len_self "rhs" _ _ forcing,
          check_len_self "output" _ _ out,
          checked_add-eq-some (width s) 2 (omega (arith, halo_counted)),
        )
        (for_grid (height s) (width s) _ (jacobi_cell m (width s + 2) (width s) haloed rhs params)
          (λ r c done rest x hr hc here.
            jacobi_cell_lem (height s) (width s) halo_counted r c hr hc haloed halo_size m done rest
              x here rhs params (sym forcing ∙ cells))
          output (sym out ∙ cells))

  pub laplacian_into-grid :
      (params : LaplacianParams)
      → laplacian_into m s haloed output params ≡ (laplacian_grid m s haloed params, ok tt)
  unfolding laplacian_into
  laplacian_into-grid params =
      rw
        (
          check_len_self "source" _ _ source,
          check_len_self "output" _ _ out,
          checked_add-eq-some (width s) 2 (omega (arith, halo_counted)),
        )
        (for_grid (height s) (width s) _ (laplacian_cell m (width s + 2) (width s) haloed params)
          (λ r c done rest x hr hc here.
            laplacian_cell_lem (height s) (width s) halo_counted r c hr hc haloed halo_size m done
              rest x here params)
          output (sym out ∙ cells))

module _ (m : Arithmetic) (s : Shape2D) (haloed rhs output : List F32) (params : JacobiParams) where
  -- On a well-formed shape, for any arithmetic, `jacobi_into` compares the lengths of the source,
  -- the right-hand side and the output in this order, and reports the first that is wrong with the
  -- output untouched; with the right lengths it succeeds, and cell (r, c) of the output is the
  -- weighted update of the five source cells around it and of the right-hand side at (r, c), whatever the
  -- output held before. No index is out of range and no index sum overflows.
  pub jacobi_into-JacobiOutcome :
      IsValid s
      → JacobiOutcome m s haloed rhs output params (jacobi_into m s haloed rhs output params)
  unfolding jacobi_into
  jacobi_into-JacobiOutcome valid = elim (ℕ_discrete s.haloed_len (length haloed)) [
    | no ne ↦ bad_source ne (rw (check_len_ne "source" _ _ ne))
    | yes source ↦ elim (ℕ_discrete s.interior_len (length rhs)) [
      | no ne ↦
          bad_rhs source ne (rw (check_len_self "source" _ _ source, check_len_ne "rhs" _ _ ne))
      | yes forcing ↦ elim (ℕ_discrete s.interior_len (length output)) [
        | no ne ↦ bad_output source forcing ne (
            rw (
              check_len_self "source" _ _ source,
              check_len_self "rhs" _ _ forcing,
              check_len_ne "output" _ _ ne,
            ))
        | yes out ↦
            filled source forcing out
              (jacobi_into-grid m s valid haloed output source out rhs params forcing)
      ]
    ]
  ]

-- The outcome of `laplacian_into`.
pub data LaplacianOutcome (m : Arithmetic) (s : Shape2D) (haloed output : List F32)
    (params : LaplacianParams) (r : Effect (List F32)) : Type 0 where
  bad_source :
      s.haloed_len ≢ length haloed
      → r ≡ (output, err (length_mismatch "source" s.haloed_len (length haloed)))
      → LaplacianOutcome m s haloed output params r
  bad_output :
      s.haloed_len ≡ length haloed
      → s.interior_len ≢ length output
      → r ≡ (output, err (length_mismatch "output" s.interior_len (length output)))
      → LaplacianOutcome m s haloed output params r
  filled :
      s.haloed_len ≡ length haloed
      → s.interior_len ≡ length output
      → r ≡ (laplacian_grid m s haloed params, ok tt)
      → LaplacianOutcome m s haloed output params r

module _ (m : Arithmetic) (s : Shape2D) (haloed output : List F32) (params : LaplacianParams) where
  -- On a well-formed shape, for any arithmetic, `laplacian_into` compares the lengths of the source
  -- and the output in this order, and reports the first that is wrong with the output untouched;
  -- with the right lengths it succeeds, and cell (r, c) of the output is the five-point Laplacian
  -- at source cell (r + 1, c + 1), whatever the output held before. No index is out of range.
  pub laplacian_into-LaplacianOutcome :
      IsValid s
      → LaplacianOutcome m s haloed output params (laplacian_into m s haloed output params)
  unfolding laplacian_into
  laplacian_into-LaplacianOutcome valid = elim (ℕ_discrete s.haloed_len (length haloed)) [
    | no ne ↦ LaplacianOutcome.bad_source ne (rw (check_len_ne "source" _ _ ne))
    | yes source ↦ elim (ℕ_discrete s.interior_len (length output)) [
      | no ne ↦
          LaplacianOutcome.bad_output source ne
            (rw (check_len_self "source" _ _ source, check_len_ne "output" _ _ ne))
      | yes out ↦
          LaplacianOutcome.filled source out
            (laplacian_into-grid m s valid haloed output source out params)
    ]
  ]
