-- ===== src/Shape/Rejection.antt =====
-- Which error `Shape2D::new` reports: the groups of checks in the order of its documentation.
use native.Mathlib.Decide.{dec_le}
use gudra.Common.{
  inl, inr, ◌⊎◌, zero, suc, ◌∙◌, div_ceil_bounds, ℕ, ◌+◌, ◌*◌, ◌≤◌, ◌<◌, ◌≡◌, refl, arith, String,
  usize_max, isize_max, i32_max, div_ceil, checked_add-eq-some, List, [], ◌∷◌,
}
use gudra.Geometry.{Shape2D}
use gudra.Error.{Result, ok, err, ◌>>=◌, ◌>>◌, empty_interior}
use gudra.Shape.{tile, max_blocks, limit, element_count, block_count, check_limits, new}
use gudra.Shape.Stages.{
  product_fits, limit_fits, element_count_fits, block_count_fits, check_axes_fits,
  check_axes_narrow, Overflows, Exceeds, checked_add-Overflows, product-Overflows, limit-Exceeds,
  check_limits_fits, check_limits-Exceeds,
}

-- The metadata of an interior of `h` rows and `w` columns.
abbrev pub metadata : ℕ → ℕ → Shape2D
metadata h w = record {
  interior = (h, w);
  haloed = (h + 2, w + 2);
  interior_len = h * w;
  haloed_len = (h + 2) * (w + 2);
  interior_bytes = h * w * 4;
  haloed_bytes = (h + 2) * (w + 2) * 4;
  grid = (div_ceil h tile, div_ceil w tile, 1);
}

abbrev quantities : ℕ → ℕ → List (String × ℕ)
quantities h w =
    ("height", h)
    ∷ ("width", w)
    ∷ ("halo height", h + 2)
    ∷ ("halo width", w + 2)
    ∷ ("interior elements", h * w)
    ∷ ("haloed elements", (h + 2) * (w + 2))
    ∷ []

-- The values that `new` computes, each with the name of its operation.
abbrev operations : ℕ → ℕ → List (String × ℕ)
operations h w =
    ("height + 2", h + 2)
    ∷ ("width + 2", w + 2)
    ∷ ("height * width", h * w)
    ∷ ("halo height * halo width", (h + 2) * (w + 2))
    ∷ ("interior bytes", h * w * 4)
    ∷ ("haloed bytes", (h + 2) * (w + 2) * 4)
    ∷ []

abbrev byte_counts : ℕ → ℕ → List (String × ℕ)
byte_counts h w = ("interior bytes", h * w * 4) ∷ ("haloed bytes", (h + 2) * (w + 2) * 4) ∷ []

abbrev block_counts : ℕ → ℕ → List (String × ℕ)
block_counts h w = ("height blocks", div_ceil h tile) ∷ ("width blocks", div_ceil w tile) ∷ []

module _ (h w : ℕ) where
  -- What is left of `new` after each group of checks.
  abbrev store : Result Shape2D
  store = do
    grid_y ← block_count (div_ceil h tile)
    grid_x ← block_count (div_ceil w tile)
    interior_y ← element_count h
    interior_x ← element_count w
    haloed_y ← element_count (h + 2)
    haloed_x ← element_count (w + 2)
    interior_count ← element_count (h * w)
    haloed_count ← element_count ((h + 2) * (w + 2))
    ok (record {
      interior = (interior_y, interior_x);
      haloed = (haloed_y, haloed_x);
      interior_len = interior_count;
      haloed_len = haloed_count;
      interior_bytes = h * w * 4;
      haloed_bytes = (h + 2) * (w + 2) * 4;
      grid = (grid_y, grid_x, 1);
    })

  abbrev blocks : Result Shape2D
  blocks =
      limit "height blocks" (div_ceil h tile) max_blocks
      >> (limit "width blocks" (div_ceil w tile) max_blocks >> store)

  abbrev counts : Result Shape2D
  counts = check_limits i32_max (quantities h w) >> blocks

  abbrev bytes : Result Shape2D
  bytes =
      limit "interior bytes" (h * w * 4) isize_max
      >> (limit "haloed bytes" ((h + 2) * (w + 2) * 4) isize_max >> counts)

  module _ (tall : 0 < h) (wide : 0 < w) where
    new-Overflows : usize_max < (h + 2) * (w + 2) * 4 → Overflows (operations h w) (new h w)
    unfolding new
    new-Overflows big = rw (check_axes_fits "height" "width" h w tall wide) (
        checked_add-Overflows h 2 _ _ _ λ _. checked_add-Overflows w 2 _ _ _ λ _.
          product-Overflows h w _ _ _ λ _. product-Overflows (h + 2) (w + 2) _ _ _ λ _.
            product-Overflows (h * w) 4 _ _ _
              λ _. product-Overflows ((h + 2) * (w + 2)) 4 _ _ _ λ fits. absurd (omega arith))

    new-eq-bytes : (h + 2) * (w + 2) * 4 ≤ usize_max → new h w ≡ bytes
    unfolding new
    new-eq-bytes fits = rw (
      check_axes_fits "height" "width" h w tall wide,
      checked_add-eq-some h 2 (omega arith),
      checked_add-eq-some w 2 (omega arith),
      product_fits h w "height * width" (omega arith),
      product_fits (h + 2) (w + 2) "halo height * halo width" (omega arith),
      product_fits (h * w) 4 "interior bytes" (omega arith),
      product_fits ((h + 2) * (w + 2)) 4 "haloed bytes" (omega arith),
    )

  bytes-eq-counts : (h + 2) * (w + 2) * 4 ≤ isize_max → bytes ≡ counts
  bytes-eq-counts fits = rw (
    limit_fits "interior bytes" (h * w * 4) isize_max (omega arith),
    limit_fits "haloed bytes" ((h + 2) * (w + 2) * 4) isize_max (omega arith),
  )

  counts-eq-blocks : (h + 2) * (w + 2) ≤ i32_max → counts ≡ blocks
  counts-eq-blocks fits = rw (check_limits_fits i32_max (quantities h w) (omega arith))

  bytes-Exceeds : isize_max < (h + 2) * (w + 2) * 4 → Exceeds isize_max (byte_counts h w) bytes
  bytes-Exceeds big =
      limit-Exceeds _ _ isize_max _ _
        λ _. limit-Exceeds _ _ isize_max _ _ λ fits. absurd (omega arith)

  counts-Exceeds : i32_max < (h + 2) * (w + 2) → Exceeds i32_max (quantities h w) counts
  counts-Exceeds big = check_limits-Exceeds i32_max (quantities h w) blocks (λ within. omega arith)

  blocks-Exceeds :
      0 < h
      → 0 < w
      → (max_blocks * tile < h) ⊎ (max_blocks * tile < w)
      → Exceeds max_blocks (block_counts h w) blocks
  blocks-Exceeds tall wide big = limit-Exceeds _ _ max_blocks _ _ λ fy.
      limit-Exceeds _ _ max_blocks _ _
        λ fx. absurd (omega (arith, (div_ceil_bounds h tall).1, (div_ceil_bounds w wide).1))

  blocks_fit :
      (h + 2) * (w + 2) ≤ i32_max
      → h ≤ max_blocks * tile
      → w ≤ max_blocks * tile
      → 0 < h
      → 0 < w
      → blocks ≡ ok (metadata h w)
  blocks_fit counted rows columns tall wide =
      let y : div_ceil h tile ≤ max_blocks = omega (arith, (div_ceil_bounds h tall).0) in
      let x : div_ceil w tile ≤ max_blocks = omega (arith, (div_ceil_bounds w wide).0) in
      rw (
        limit_fits "height blocks" (div_ceil h tile) max_blocks y,
        limit_fits "width blocks" (div_ceil w tile) max_blocks x,
        block_count_fits (div_ceil h tile) (omega arith),
        block_count_fits (div_ceil w tile) (omega arith),
        element_count_fits h (omega arith),
        element_count_fits w (omega arith),
        element_count_fits (h + 2) (omega arith),
        element_count_fits (w + 2) (omega arith),
        element_count_fits (h * w) (omega arith),
        element_count_fits ((h + 2) * (w + 2)) (omega arith),
      )

-- The outcome of `new`, by the size of the interior alone. No two conditions hold together.
pub data Verdict (h w : ℕ) (r : Result Shape2D) : Type 0 where
  no_rows : h ≡ 0 → r ≡ err (empty_interior "height") → Verdict h w r
  no_columns : 0 < h → w ≡ 0 → r ≡ err (empty_interior "width") → Verdict h w r
  overflow :
      0 < h
      → 0 < w
      → usize_max < (h + 2) * (w + 2) * 4
      → Overflows (operations h w) r
      → Verdict h w r
  too_many_bytes :
      0 < h
      → 0 < w
      → (h + 2) * (w + 2) * 4 ≤ usize_max
      → isize_max < (h + 2) * (w + 2) * 4
      → Exceeds isize_max (byte_counts h w) r
      → Verdict h w r
  too_many_cells :
      0 < h
      → 0 < w
      → (h + 2) * (w + 2) * 4 ≤ isize_max
      → i32_max < (h + 2) * (w + 2)
      → Exceeds i32_max (quantities h w) r
      → Verdict h w r
  too_many_blocks :
      0 < h
      → 0 < w
      → (h + 2) * (w + 2) ≤ i32_max
      → (max_blocks * tile < h) ⊎ (max_blocks * tile < w)
      → Exceeds max_blocks (block_counts h w) r
      → Verdict h w r
  accepted :
      0 < h
      → 0 < w
      → (h + 2) * (w + 2) ≤ i32_max
      → h ≤ max_blocks * tile
      → w ≤ max_blocks * tile
      → r ≡ ok (metadata h w)
      → Verdict h w r

module _ (h w : ℕ) (tall : 0 < h) (wide : 0 < w) where
  blocks-Verdict : (h + 2) * (w + 2) ≤ i32_max → new h w ≡ blocks h w → Verdict h w (new h w)
  blocks-Verdict counted e = elim (dec_le h (max_blocks * tile)) [
    | no high ↦
        too_many_blocks tall wide counted (inl (omega arith))
          (rw e (blocks-Exceeds h w tall wide (inl (omega arith))))
    | yes rows ↦ elim (dec_le w (max_blocks * tile)) [
      | no broad ↦
          too_many_blocks tall wide counted (inr (omega arith))
            (rw e (blocks-Exceeds h w tall wide (inr (omega arith))))
      | yes columns ↦
          accepted tall wide counted rows columns
            (e ∙ blocks_fit h w counted rows columns tall wide)
    ]
  ]

  counts-Verdict : (h + 2) * (w + 2) * 4 ≤ isize_max → new h w ≡ counts h w → Verdict h w (new h w)
  counts-Verdict fits e = elim (dec_le ((h + 2) * (w + 2)) i32_max) [
    | no many ↦
        too_many_cells tall wide fits (omega arith) (rw e (counts-Exceeds h w (omega arith)))
    | yes counted ↦ blocks-Verdict counted (e ∙ counts-eq-blocks h w counted)
  ]

  positive-Verdict : Verdict h w (new h w)
  positive-Verdict = elim (dec_le ((h + 2) * (w + 2) * 4) usize_max) [
    | no over ↦ overflow tall wide (omega arith) (new-Overflows h w tall wide (omega arith))
    | yes fits ↦ elim (dec_le ((h + 2) * (w + 2) * 4) isize_max) [
      | no many ↦
          too_many_bytes tall wide fits (omega arith)
            (rw (new-eq-bytes h w tall wide fits) (bytes-Exceeds h w (omega arith)))
      | yes small ↦
          counts-Verdict small (new-eq-bytes h w tall wide fits ∙ bytes-eq-counts h w small)
    ]
  ]

-- For every height and width, `Shape2D::new` ends in exactly one of seven ways, which the sizes
-- alone select in this order: a zero height, a zero width, an arithmetic overflow, a byte count
-- above `isize::MAX`, a count above `i32::MAX`, more than 65,535 tiles on an axis, or success with
-- the metadata of the interior. The error is that of the first operation that overflows, or of the
-- first byte count, count or number of tiles above its maximum, in the order of the code, with its
-- name and value; so it never panics, and no narrowing conversion fails.
pub new-Verdict : (h w : ℕ) → Verdict h w (new h w)
unfolding new
new-Verdict zero w = no_rows refl refl
new-Verdict (suc h) zero =
    no_columns (omega arith) refl (rw (check_axes_narrow "height" "width" (suc h) (omega arith)))
new-Verdict (suc h) (suc w) = positive-Verdict (suc h) (suc w) (omega arith) (omega arith)
