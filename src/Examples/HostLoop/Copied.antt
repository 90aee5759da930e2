-- ===== src/Examples/HostLoop/Copied.antt =====
-- What the copy of the output's rows leaves in the haloed grid.
use gudra.Common.{
  ℕ, zero, suc, ◌+◌, ◌-◌, ◌*◌, ◌≤◌, ◌<◌, ◌≡◌, ◌⊎◌, refl, sym, subst, ◌∙◌, ap, arith, ◌&&◌, leb,
  if◌then◌else◌, inl, inr, List, length, get_or, checked_add-eq-some, checked_mul-eq-some, F32,
  f32_zero, true, i32_max,
}
use native.Mathlib.Decide.{dec_lt}
use gudra.Geometry.{Shape2D, height, width}
use gudra.Error.{ok}
use gudra.Loop.{for_range, grid, drop}
use gudra.Loop.Cells.{get_or-grid, length-grid, grid_ext}
use gudra.Reference.Cells.{at}
use gudra.Timesteps.Values.{inside}
use gudra.Examples.Slices.{
  take, overwrite, get_or-range, length-range, length-overwrite, range-eq-ok, copy_from_slice-eq-ok,
  range-eq-ok, copy_from_slice-eq-ok, overwrite_before, overwrite_inside, overwrite_after,
}
use gudra.Examples.HostLoop.{copy_row, copy_rows}

module _ (h w : ℕ) (halo output : List F32) where
  -- The grid with the first rows of the output over those of its interior.
  abbrev pub copied : ℕ → ℕ → ℕ → F32
  copied rows i j =
      if inside h w i j && leb i rows then at output w (i - 1) (j - 1) else at halo (w + 2) i j

  abbrev pub copied_grid : ℕ → List F32
  copied_grid rows = grid (h + 2) (w + 2) (copied rows)

rows_apart : (i k w : ℕ) → i < k → i * w + w ≤ k * w
rows_apart i k w h = grind arith

module _ (h w : ℕ) (halo output : List F32) (r : ℕ) (hr : r < h) where
  abbrev start : ℕ
  start = (r + 1) * (w + 2) + 1

  abbrev row_values : List F32
  row_values = take ((r + 1) * w - r * w) (drop (r * w) output)

  module _ (size : length output ≡ h * w) where
    row_width : (r + 1) * w - r * w ≡ w
    row_width = grind arith

    row_length : length row_values ≡ w
    row_length =
        let fits = rows_apart r h w hr in
        length-range ((r + 1) * w - r * w) (r * w) output (omega (arith, row_width)) ∙ row_width

    -- Rows other than the one that is copied, and the halo, stay as they are.
    kept :
        (i j : ℕ)
        → i < h + 2
        → j < w + 2
        → copied h w halo output r i j ≡ copied h w halo output (r + 1) i j
        → (i * (w + 2) + j < start) ⊎ (start + w ≤ i * (w + 2) + j)
        → get_or
            (overwrite (copied_grid h w halo output r) start row_values)
            (i * (w + 2) + j)
            f32_zero
          ≡ copied h w halo output (r + 1) i j
    kept i j hi hj same (inl before) =
        overwrite_before (copied_grid h w halo output r) start (i * (w + 2) + j) row_values f32_zero
          before
        ∙ get_or-grid (h + 2) (w + 2) _ i j f32_zero hi hj
        ∙ same
    kept i j hi hj same (inr after) =
        overwrite_after (copied_grid h w halo output r) start (i * (w + 2) + j) row_values f32_zero
          (omega (arith, row_length))
        ∙ get_or-grid (h + 2) (w + 2) _ i j f32_zero hi hj
        ∙ same

    copied_row :
        (j : ℕ)
        → j < w
        → get_or
            (overwrite (copied_grid h w halo output r) start row_values)
            ((r + 1) * (w + 2) + (suc j))
            f32_zero
          ≡ copied h w halo output (r + 1) (r + 1) (suc j)
    copied_row j hj =
        let inner : (inside h w (r + 1) (suc j) && leb (r + 1) (r + 1)) ≡ true = ground arith in
        let row : r + 1 - 1 ≡ r = omega arith in
        let column : suc j - 1 ≡ j = omega arith in
        overwrite_inside (copied_grid h w halo output r) start j ((r + 1) * (w + 2) + (suc j))
          row_values f32_zero (omega arith) (omega (arith, row_length))
          (omega (
            arith,
            length-grid (h + 2) (w + 2) (copied h w halo output r),
            rows_apart (r + 1) (h + 2) (w + 2) (omega arith),
          ))
        ∙ get_or-range (r * w) ((r + 1) * w) j output f32_zero (omega (arith, row_width))
        ∙ sym (rw (inner, row, column) refl)

    cell :
        (i j : ℕ)
        → i < h + 2
        → j < w + 2
        → get_or
            (overwrite (copied_grid h w halo output r) start row_values)
            (i * (w + 2) + j)
            f32_zero
          ≡ copied h w halo output (r + 1) i j
    cell i j hi hj = elim (dec_lt i (r + 1)) [
      | yes above ↦
          let apart = rows_apart i (r + 1) (w + 2) above in
          kept i j hi hj (ground arith) (inl (omega arith))
      | no na ↦ elim (dec_lt (r + 1) i) [
        | yes below ↦
            let apart = rows_apart (r + 1) i (w + 2) below in
            kept i j hi hj (ground arith) (inr (omega arith))
        | no nb ↦
            let same : i ≡ r + 1 = omega arith in
            subst
              (λ k.
                get_or (overwrite (copied_grid h w halo output r) start row_values)
                  (k * (w + 2) + j) f32_zero
                ≡ copied h w halo output (r + 1) k j)
              (sym same) (own_row j hj)
      ]
    ]
      where
        own_row :
            (j : ℕ)
            → j < w + 2
            → get_or
                (overwrite (copied_grid h w halo output r) start row_values)
                ((r + 1) * (w + 2) + j)
                f32_zero
              ≡ copied h w halo output (r + 1) (r + 1) j
        own_row zero hj = kept (r + 1) zero (omega arith) hj (ground arith) (inl (omega arith))
        own_row (suc j) hj = elim (dec_lt j w) [
          | yes inner ↦ copied_row j inner
          | no outer ↦ kept (r + 1) (suc j) (omega arith) hj (ground arith) (inr (omega arith))
        ]

    module _ (counted : (h + 2) * (w + 2) ≤ i32_max) where
      copy_row-eq :
          (shape : Shape2D)
          → shape.interior ≡ (h, w)
          → copy_row shape output r (copied_grid h w halo output r)
            ≡ (copied_grid h w halo output (r + 1), ok tt)
      unfolding copy_row
      copy_row-eq shape extent =
          let wide : width shape ≡ w = λ i. (extent i).1 in
          let rows = rows_apart (r + 1) (h + 2) (w + 2) (omega arith) in
          let inner = rows_apart r h w hr in
          let here = rows_apart r (r + 1) w (omega arith) in
          let area : h * w ≤ (h + 2) * (w + 2) = grind arith in
          let next : (r + 1) * w ≤ h * w = grind arith in
          let total = length-grid (h + 2) (w + 2) (copied h w halo output r) in
          rw
            (
              wide,
              checked_add-eq-some r 1 (omega arith),
              checked_add-eq-some w 2 (omega arith),
              checked_mul-eq-some (r + 1) (w + 2) (omega arith),
              checked_add-eq-some ((r + 1) * (w + 2)) 1 (omega arith),
              checked_add-eq-some ((r + 1) * (w + 2) + 1) w (omega arith),
              checked_mul-eq-some r w (omega arith),
              checked_mul-eq-some (r + 1) w (omega arith),
              range-eq-ok output (r * w) ((r + 1) * w) (omega arith) (omega (arith, size)),
              copy_from_slice-eq-ok start (start + w) row_values (copied_grid h w halo output r)
                  (omega arith) (omega (arith, total)) (omega (arith, row_length)),
            )
            (ap (λ xs. (xs, ok tt))
              (grid_ext _ (h + 2) (w + 2) (copied h w halo output (r + 1)) f32_zero
                (length-overwrite (copied_grid h w halo output r) start row_values ∙ total) cell))

module _ (shape : Shape2D) (halo output : List F32) where
  abbrev h : ℕ
  h = height shape

  abbrev w : ℕ
  w = width shape

  module _ (size : length output ≡ h * w) (counted : (h + 2) * (w + 2) ≤ i32_max)
      (halo_size : length halo ≡ (h + 2) * (w + 2)) where
    copy_from :
        (left r : ℕ)
        → r + left ≡ h
        → for_range (copy_row shape output) left r (copied_grid h w halo output r)
          ≡ (copied_grid h w halo output h, ok tt)
    unfolding for_range
    copy_from zero r e =
        let same : r ≡ h = omega arith in ap (λ k. (copied_grid h w halo output k, ok tt)) same
    copy_from (suc left) r e =
        let same : r + 1 ≡ suc r = omega arith in
        rw (copy_row-eq h w halo output r (omega arith) size counted shape refl, same)
          (copy_from left (suc r) (omega arith))

    -- The copy leaves the halo as it is, and the output in the interior.
    pub copy_rows-grid : copy_rows shape output halo ≡ (
      grid
          (h + 2)
          (w + 2)
          (λ i j. if inside h w i j then at output w (i - 1) (j - 1) else at halo (w + 2) i j),
      ok tt,
    )
    unfolding copy_rows
    copy_rows-grid =
        ap (for_range (copy_row shape output) h 0) (
          grid_ext halo (h + 2) (w + 2) (copied h w halo output 0) f32_zero halo_size
            (λ i j hi hj. ground arith))
        ∙ copy_from h 0 (omega arith)
        ∙ ap (λ xs. (xs, ok tt))
            (grid_ext (copied_grid h w halo output h) (h + 2) (w + 2) _ f32_zero
              (length-grid (h + 2) (w + 2) _)
              (λ i j hi hj.
                get_or-grid (h + 2) (w + 2) (copied h w halo output h) i j f32_zero hi hj
                ∙ ground arith))
