-- ===== src/Examples/HostLoop/Iterated.antt =====
-- The loop on the host as an iteration of one update.
use gudra.Common.{
  ℕ, zero, suc, ◌+◌, ◌*◌, ◌-◌, if◌then◌else◌, ◌≡◌, refl, sym, ◌∙◌, ap, ap₂, arith, F32, f32_zero,
  Arithmetic, List, length, replicate, length-replicate,
}
use gudra.Geometry.{Shape2D, height, width}
use gudra.Error.{ok}
use gudra.Shape.Domain.{IsValid}
use gudra.Params.{JacobiParams}
use gudra.Loop.{for_range, grid}
use gudra.Loop.Cells.{length-grid}
use gudra.Reference.Filled.{jacobi_grid, jacobi_into-grid}
use gudra.Reference.Cells.{at}
use gudra.Timesteps.Host.{host_step, host_steps, host_size}
use gudra.Timesteps.Values.{inside}
use gudra.Examples.HostLoop.{host_turn, host_loop}
use gudra.Examples.HostLoop.Copied.{copy_rows-grid}

module _ (m : Arithmetic) (shape : Shape2D) (valid : IsValid shape) (rhs : List F32)
    (params : JacobiParams) (rhs_size : shape.interior_len ≡ length rhs) where
  abbrev h : ℕ
  h = height shape

  abbrev w : ℕ
  w = width shape

  module _ (halo output : List F32) (halo_size : shape.haloed_len ≡ length halo)
      (output_size : shape.interior_len ≡ length output) where
    halo_cells : length halo ≡ (h + 2) * (w + 2)
    halo_cells = sym halo_size ∙ valid.halo_cells ∙ ap₂ ◌*◌ valid.halo_rows valid.halo_columns

    updated : List F32
    updated = jacobi_grid m shape halo rhs params

    host_turn-eq :
        host_turn m shape rhs params (halo, output)
        ≡ ((host_step m shape rhs params halo, jacobi_grid m shape halo rhs params), ok tt)
    unfolding host_turn
    host_turn-eq =
        let fresh =
          jacobi_into-grid m shape valid halo (replicate shape.interior_len f32_zero) halo_size
            (sym (length-replicate shape.interior_len f32_zero)) rhs params rhs_size in
        rw
          (
            jacobi_into-grid m shape valid halo output halo_size output_size rhs params rhs_size,
            copy_rows-grid shape halo (jacobi_grid m shape halo rhs params) (length-grid h w _)
                (omega (arith, halo_cells, halo_size)) halo_cells,
          )
          (ap
            (λ e. (
              (
                grid (h + 2) (w + 2) (λ r c.
                    if inside h w r c then at e.0 w (r - 1) (c - 1) else at halo (w + 2) r c),
                jacobi_grid m shape halo rhs params,
              ),
              ok tt,
            ))
            (sym fresh))

  -- The loop makes as many updates as it has turns, and succeeds.
  host_loop_from :
      (turns i : ℕ) (halo output : List F32)
      → shape.haloed_len ≡ length halo
      → shape.interior_len ≡ length output
      → (last : List F32) × (for_range (λ turn. host_turn m shape rhs params) turns i (halo, output)
          ≡ ((host_steps m shape rhs params turns halo, last), ok tt))
  unfolding for_range
  host_loop_from zero i halo output halo_size output_size = (output, refl)
  host_loop_from (suc turns) i halo output halo_size output_size =
      let next = host_step m shape rhs params halo in
      let filled = jacobi_grid m shape halo rhs params in
      let (last, e) =
        host_loop_from turns (suc i) next filled (host_size m shape valid rhs params rhs_size halo)
          (valid.cells ∙ sym (length-grid h w _)) in
      (last, rw (host_turn-eq halo output halo_size output_size) e)

  -- On a well-formed shape, for any arithmetic and slices of the right length, the loop succeeds
  -- without a panic, and the grid that it leaves is the source updated once for each turn.
  pub host_loop-host_steps :
      (turns : ℕ) (halo output : List F32)
      → shape.haloed_len ≡ length halo
      → shape.interior_len ≡ length output
      → let r = host_loop m shape rhs params turns (halo, output) in
        (r.1 ≡ ok tt) × (r.0.0 ≡ host_steps m shape rhs params turns halo)
  unfolding host_loop
  host_loop-host_steps turns halo output halo_size output_size =
      let (last, e) = host_loop_from turns 0 halo output halo_size output_size in
      (ap (λ r. r.1) e, ap (λ r. r.0.0) e)
