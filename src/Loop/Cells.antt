-- ===== src/Loop/Cells.antt =====
-- Reading a row-major grid by row and column.
use gudra.Common.{
  ℕ, zero, suc, ◌+◌, ◌*◌, ◌<◌, ◌≡◌, refl, ◌∙◌, ap, arith, List, [], ◌∷◌, ◌++◌, length,
  length-append, list_ext, ◌/◌, ◌%◌, sym, get_or,
}
use native.Mathlib.Nat.{div-add-mod', div-lt_iff_lt-mul, mod-lt}
use gudra.Loop.{grid, row_from, rows_from, length-row_from}

width_positive : (i h w : ℕ) → i < h * w → 0 < w
width_positive i h zero hi = absurd (omega arith)
width_positive i h (suc w) hi = omega arith

module _ {ℓ} {A : Type ℓ} where
  get_or-append_left :
      (xs ys : List A) (i : ℕ) (d : A) → i < length xs → get_or (xs ++ ys) i d ≡ get_or xs i d
  get_or-append_left [] ys i d h = absurd (omega arith)
  get_or-append_left (x ∷ xs) ys zero d h = refl
  get_or-append_left (x ∷ xs) ys (suc i) d h = get_or-append_left xs ys i d (omega arith)

  get_or-append_right :
      (xs ys : List A) (i j : ℕ) (d : A) → i ≡ length xs + j → get_or (xs ++ ys) i d ≡ get_or ys j d
  get_or-append_right [] ys i j d e = ap (λ k. get_or ys k d) (omega arith)
  get_or-append_right (x ∷ xs) ys zero j d e = absurd (omega arith)
  get_or-append_right (x ∷ xs) ys (suc i) j d e = get_or-append_right xs ys i j d (omega arith)

  get_or-row_from :
      (f : ℕ → A) (left c i : ℕ) (d : A) → i < left → get_or (row_from f left c) i d ≡ f (c + i)
  unfolding row_from
  get_or-row_from f zero c i d h = absurd (omega arith)
  get_or-row_from f (suc left) c zero d h = ap f (omega arith)
  get_or-row_from f (suc left) c (suc i) d h =
      get_or-row_from f left (suc c) i d (omega arith) ∙ ap f (omega arith)

  get_or-rows_from :
      (f : ℕ → ℕ → A) (w left r i c : ℕ) (d : A)
      → i < left
      → c < w
      → get_or (rows_from f w left r) (i * w + c) d ≡ f (r + i) c
  unfolding rows_from
  get_or-rows_from f w zero r i c d hi hc = absurd (omega arith)
  get_or-rows_from f w (suc left) r zero c d hi hc =
      get_or-append_left (row_from (f r) w 0) _ (0 * w + c) d
        (omega (arith, length-row_from (f r) w 0))
      ∙ get_or-row_from (f r) w 0 (0 * w + c) d (omega arith)
      ∙ (λ k. f (row k) (column k))
    where
      row : r ≡ r + 0
      row = omega arith

      column : 0 + (0 * w + c) ≡ c
      column = omega arith
  get_or-rows_from f w (suc left) r (suc i) c d hi hc =
      get_or-append_right (row_from (f r) w 0) _ (suc i * w + c) (i * w + c) d
        (omega (arith, length-row_from (f r) w 0))
      ∙ get_or-rows_from f w left (suc r) i c d (omega arith) hc
      ∙ ap (λ k. f k c) (omega arith)

  -- The cell at (r, c) of a grid is the value there.
  pub get_or-grid :
      (h w : ℕ) (f : ℕ → ℕ → A) (r c : ℕ) (d : A)
      → r < h
      → c < w
      → get_or (grid h w f) (r * w + c) d ≡ f r c
  get_or-grid h w f r c d hr hc =
      get_or-rows_from f w h 0 r c d hr hc ∙ ap (λ k. f k c) (omega arith)

  length-rows_from : (f : ℕ → ℕ → A) (w left r : ℕ) → length (rows_from f w left r) ≡ left * w
  unfolding rows_from
  length-rows_from f w zero r = omega arith
  length-rows_from f w (suc left) r =
      let row = length-row_from (f r) w 0 in
      let rest = length-rows_from f w left (suc r) in
      length-append (row_from (f r) w 0) _ ∙ omega arith

  -- A grid has as many cells as its extents say.
  pub length-grid : (h w : ℕ) (f : ℕ → ℕ → A) → length (grid h w f) ≡ h * w
  length-grid h w f = length-rows_from f w h 0

  -- A list is the grid of the values that it has by row and column.
  pub grid_ext :
      (xs : List A) (h w : ℕ) (f : ℕ → ℕ → A) (d : A)
      → length xs ≡ h * w
      → ((r c : ℕ) → r < h → c < w → get_or xs (r * w + c) d ≡ f r c)
      → xs ≡ grid h w f
  grid_ext xs h w f d size values = list_ext xs _ d (size ∙ sym (length-grid h w f)) cells
    where
      cells : (i : ℕ) → i < length xs → get_or xs i d ≡ get_or (grid h w f) i d
      cells i hi =
          let same = div-add-mod' i w in
          let wide : 0 < w = width_positive i h w (omega arith) in
          let column : i % w < w = mod-lt i wide in
          let row : i / w < h = (div-lt_iff_lt-mul wide).1 (omega arith) in
          ap (λ j. get_or xs j d) (sym same)
          ∙ values (i / w) (i % w) row column
          ∙ sym (get_or-grid h w f (i / w) (i % w) d row column)
          ∙ ap (λ j. get_or (grid h w f) j d) same

  -- The grid of the values of a list, read row by row, is the list.
  pub grid-get_or :
      (xs : List A) (h w : ℕ) (d : A)
      → length xs ≡ h * w
      → grid h w (λ r c. get_or xs (r * w + c) d) ≡ xs
  grid-get_or xs h w d size = sym (grid_ext xs h w _ d size (λ r c hr hc. refl))
