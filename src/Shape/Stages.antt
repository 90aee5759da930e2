-- ===== src/Shape/Stages.antt =====
-- The checks of `Shape2D::new` one by one: each either fails with its own error or is passed.
use gudra.Common.{
  ℕ, ◌+◌, ◌*◌, ◌≤◌, ◌<◌, ◌≡◌, refl, inl, inr, ◌≢◌, sym, ◌∙◌, arith, String, leb, ltb, Bool-cases,
  checked_add, checked_mul, usize_max, u32_max, u16_max, List, [], ◌∷◌,
}
use gudra.Error.{
  Error, Result, ok, err, ◌>>=◌, ◌>>◌, ok_or, empty_interior, shape_overflow, shape_limit,
}
use gudra.Shape.{product, limit, element_count, block_count, check_axes, check_limits}

err-ne-ok : {A : Type 0} {a : A} {e : Error} → err e ≢ ok a
err-ne-ok e = cc

pub product_fits : (a b : ℕ) (s : String) → a * b ≤ usize_max → product a b s ≡ ok (a * b)
unfolding product checked_mul
product_fits a b s h = ground arith

pub limit_fits : (s : String) (a m : ℕ) → a ≤ m → limit s a m ≡ ok tt
unfolding limit
limit_fits s a m h = ground arith

pub element_count_fits : (a : ℕ) → a ≤ u32_max → element_count a ≡ ok a
unfolding element_count
element_count_fits a h = ground arith

pub block_count_fits : (a : ℕ) → a ≤ u16_max → block_count a ≡ ok a
unfolding block_count
block_count_fits a h = ground arith

pub check_axes_fits :
    (s t : String) (h w : ℕ) → 0 < h → 0 < w → check_axes ((s, h) ∷ (t, w) ∷ []) ≡ ok tt
check_axes_fits s t h w p q = ground arith

pub check_axes_narrow :
    (s t : String) (h : ℕ) → 0 < h → check_axes ((s, h) ∷ (t, 0) ∷ []) ≡ err (empty_interior t)
check_axes_narrow s t h p = ground arith

-- The first quantity of the list above `maximum`, in the order of the list, is what the error names.
pub data FirstAbove {A : Type 0} (error : String → ℕ → Error) (maximum : ℕ) (r : Result A)
    : List (String × ℕ) → Type 0 where
  above :
      {quantity : String} {actual : ℕ} {rest : List (String × ℕ)}
      → maximum < actual
      → r ≡ err (error quantity actual)
      → FirstAbove error maximum r ((quantity, actual) ∷ rest)
  below :
      {quantity : String} {actual : ℕ} {rest : List (String × ℕ)}
      → actual ≤ maximum
      → FirstAbove error maximum r rest
      → FirstAbove error maximum r ((quantity, actual) ∷ rest)

-- The result is the overflow of the first operation whose value is no usize.
abbrev pub Overflows : {A : Type 0} → List (String × ℕ) → Result A → Type 0
Overflows xs r = FirstAbove (λ operation actual. shape_overflow operation) usize_max r xs

-- The result is the error of the first quantity above `maximum`.
abbrev pub Exceeds : {A : Type 0} → ℕ → List (String × ℕ) → Result A → Type 0
Exceeds maximum xs r =
    FirstAbove (λ quantity actual. shape_limit quantity actual maximum) maximum r xs

-- Such a result is no success.
pub FirstAbove-ne-ok :
    {A : Type 0} {error : String → ℕ → Error} {maximum : ℕ} {r : Result A} {xs : List (String × ℕ)}
    (a : A)
    → FirstAbove error maximum r xs
    → r ≢ ok a
FirstAbove-ne-ok a (above l e) k = err-ne-ok (sym e ∙ k)
FirstAbove-ne-ok a (below l rest) k = FirstAbove-ne-ok a rest k

module _ {A : Type 0} where
  pub checked_add-Overflows :
      (a b : ℕ) (s : String) (rest : List (String × ℕ)) (f : ℕ → Result A)
      → (a + b ≤ usize_max → Overflows rest (f (a + b)))
      → Overflows ((s, a + b) ∷ rest) (ok_or (checked_add a b) (shape_overflow s) >>= f)
  unfolding checked_add
  checked_add-Overflows a b s xs f rest = elim (Bool-cases (leb (a + b) usize_max)) [
    | inl fits ↦ rw fits (below (ground arith) (rest (ground arith)))
    | inr over ↦ above (ground arith) (rw over refl)
  ]

  pub product-Overflows :
      (a b : ℕ) (s : String) (rest : List (String × ℕ)) (f : ℕ → Result A)
      → (a * b ≤ usize_max → Overflows rest (f (a * b)))
      → Overflows ((s, a * b) ∷ rest) (product a b s >>= f)
  unfolding product checked_mul
  product-Overflows a b s xs f rest = elim (Bool-cases (leb (a * b) usize_max)) [
    | inl fits ↦ rw fits (below (ground arith) (rest (ground arith)))
    | inr over ↦ above (ground arith) (rw over refl)
  ]

  pub limit-Exceeds :
      (s : String) (a m : ℕ) (xs : List (String × ℕ)) (r : Result A)
      → (a ≤ m → Exceeds m xs r)
      → Exceeds m ((s, a) ∷ xs) (limit s a m >> r)
  unfolding limit
  limit-Exceeds s a m xs r rest = elim (Bool-cases (ltb m a)) [
    | inl over ↦ above (ground arith) (rw over refl)
    | inr fits ↦ rw fits (below (ground arith) (rest (ground arith)))
  ]

-- Every quantity of the list is at most `maximum`.
abbrev pub Within : ℕ → List (String × ℕ) → Type 0
Within maximum [] = Unit {0}
Within maximum ((quantity, actual) ∷ rest) = (actual ≤ maximum) × Within maximum rest

pub check_limits_fits : (m : ℕ) (xs : List (String × ℕ)) → Within m xs → check_limits m xs ≡ ok tt
check_limits_fits m [] h = refl
check_limits_fits m ((s, a) ∷ xs) h = rw (limit_fits s a m h.0) (check_limits_fits m xs h.1)

pub check_limits-Exceeds :
    {A : Type 0} (m : ℕ) (xs : List (String × ℕ)) (r : Result A)
    → ¬ Within m xs
    → Exceeds m xs (check_limits m xs >> r)
unfolding limit
check_limits-Exceeds m [] r h = absurd (h tt)
check_limits-Exceeds m ((s, a) ∷ xs) r h = elim (Bool-cases (ltb m a)) [
  | inl over ↦ above (ground arith) (rw over refl)
  | inr fits ↦
      rw fits
        (below (ground arith) (check_limits-Exceeds m xs r (λ within. h (ground arith, within))))
]
