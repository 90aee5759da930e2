-- ===== src/Reference/Cells.antt =====
-- On slices of the right length every index of the reference is in range, and the stencil reads
-- the cell and its four neighbours.
use gudra.Common.{
  ℕ, ◌+◌, ◌-◌, ◌*◌, ◌≤◌, ◌<◌, ◌≡◌, refl, sym, ap, arith, F32, f32_zero, Arithmetic, List, ◌∷◌, ◌++◌,
  length, get_or, get_elem?-eq-get_or, checked_add-eq-some, checked_mul-eq-some,
  checked_sub-eq-some, i32_max,
}
use gudra.Error.{ok}
use gudra.Params.{JacobiParams, LaplacianParams}
use gudra.Loop.{write_middle}
use gudra.Reference.{
  Stencil, jacobi_value, laplacian_value, source_index, cell_index, read_stencil, jacobi_cell,
  laplacian_cell, read,
}

-- The cell at row `r` and column `c` of a row-major slice with rows of `stride` cells.
abbrev pub at : List F32 → ℕ → ℕ → ℕ → F32
at xs stride r c = get_or xs (r * stride + c) f32_zero

-- The stencil around interior cell (r, c), by positions on the haloed grid.
abbrev pub stencil_at : List F32 → ℕ → ℕ → ℕ → Stencil
stencil_at haloed stride r c = record {
  north = at haloed stride r (c + 1);
  south = at haloed stride (r + 2) (c + 1);
  east = at haloed stride (r + 1) (c + 2);
  west = at haloed stride (r + 1) c;
  center = at haloed stride (r + 1) (c + 1);
}

pub position-lt : (h w r c : ℕ) → r < h → c < w → r * w + c < h * w
position-lt h w r c p q = grind arith

read_at : (xs : List F32) (i j : ℕ) → i ≡ j → i < length xs → read xs i ≡ ok (get_or xs j f32_zero)
read_at xs i j e l =
    rw (get_elem?-eq-get_or xs i f32_zero l) (ap (λ k. ok (get_or xs k f32_zero)) e)

module _ (h w : ℕ) (counted : (h + 2) * (w + 2) ≤ i32_max) (r c : ℕ) (hr : r < h) (hc : c < w) where
  south_corner : (r + 2) * (w + 2) + (c + 2) < (h + 2) * (w + 2)
  south_corner = position-lt (h + 2) (w + 2) (r + 2) (c + 2) (omega arith) (omega arith)

  cell-lt : r * w + c < h * w
  cell-lt = position-lt h w r c hr hc

  source_index_fits : source_index (w + 2) r c ≡ ok ((r + 1) * (w + 2) + c + 1)
  unfolding source_index
  source_index_fits =
      let corner = south_corner in
      rw (
        checked_add-eq-some r 1 (omega arith),
        checked_mul-eq-some (r + 1) (w + 2) (omega arith),
        checked_add-eq-some ((r + 1) * (w + 2)) c (omega arith),
        checked_add-eq-some ((r + 1) * (w + 2) + c) 1 (omega arith),
      )

  cell_index_fits : cell_index w r c ≡ ok (r * w + c)
  unfolding cell_index
  cell_index_fits =
      let corner = south_corner in
      rw (checked_mul-eq-some r w (omega arith), checked_add-eq-some (r * w) c (omega arith))

  module _ (haloed : List F32) (size : length haloed ≡ (h + 2) * (w + 2)) where
    read_stencil_fits :
        read_stencil haloed (w + 2) ((r + 1) * (w + 2) + c + 1) ≡ ok (stencil_at haloed (w + 2) r c)
    unfolding read_stencil
    read_stencil_fits =
        let corner = south_corner in
        let i = (r + 1) * (w + 2) + c + 1 in
        rw (
          checked_sub-eq-some i (w + 2) (omega arith),
          read_at haloed (i - (w + 2)) (r * (w + 2) + (c + 1)) (omega arith) (omega arith),
          checked_add-eq-some i (w + 2) (omega arith),
          read_at haloed (i + (w + 2)) ((r + 2) * (w + 2) + (c + 1)) (omega arith) (omega arith),
          checked_add-eq-some i 1 (omega arith),
          read_at haloed (i + 1) ((r + 1) * (w + 2) + (c + 2)) (omega arith) (omega arith),
          checked_sub-eq-some i 1 (omega arith),
          read_at haloed (i - 1) ((r + 1) * (w + 2) + c) (omega arith) (omega arith),
          read_at haloed i ((r + 1) * (w + 2) + (c + 1)) (omega arith) (omega arith),
        )

    module _ (m : Arithmetic) (done rest : List F32) (x : F32)
        (here : length done ≡ r * w + c) where
      pub jacobi_cell_lem :
          (rhs : List F32) (params : JacobiParams)
          → length rhs ≡ h * w
          → jacobi_cell m (w + 2) w haloed rhs params r c (done ++ (x ∷ rest)) ≡ (
            done ++ (jacobi_value m params (stencil_at haloed (w + 2) r c) (at rhs w r c) ∷ rest),
            ok tt,
          )
      unfolding jacobi_cell
      jacobi_cell_lem rhs params rhs_size =
          let inside = cell-lt in
          rw
            (
              source_index_fits,
              cell_index_fits,
              read_stencil_fits,
              read_at rhs (r * w + c) (r * w + c) refl (omega arith),
            )
            (write_middle done rest x _ (r * w + c) (sym here))

      pub laplacian_cell_lem :
          (params : LaplacianParams)
          → laplacian_cell m (w + 2) w haloed params r c (done ++ (x ∷ rest))
            ≡ (done ++ (laplacian_value m params (stencil_at haloed (w + 2) r c) ∷ rest), ok tt)
      unfolding laplacian_cell
      laplacian_cell_lem params =
          rw (source_index_fits, cell_index_fits, read_stencil_fits)
            (write_middle done rest x _ (r * w + c) (sym here))
