-- ===== src/Examples/Slices.antt =====
-- Ranges of a slice: `&xs[start..end]` and `xs[start..end].copy_from_slice(values)`.
use gudra.Common.{
  ℕ, zero, suc, ◌+◌, ◌-◌, ◌≤◌, ◌<◌, ◌≡◌, refl, ◌∙◌, ap, arith, ◌&&◌, leb, ◌==◌, Bool, if◌then◌else◌,
  List, [], ◌∷◌, length, get_or,
}
use gudra.Error.{Result, ok, panic}
use gudra.Loop.{Effect, drop}

module _ {A : Type 0} where
  abbrev pub take : ℕ → List A → List A
  take zero xs = []
  take (suc n) [] = []
  take (suc n) (x ∷ xs) = x ∷ take n xs

  abbrev pub in_range : List A → ℕ → ℕ → Bool
  in_range xs start end = leb start end && leb end (length xs)

  abbrev pub range : List A → ℕ → ℕ → Result (List A)
  range xs start end =
      if in_range xs start end then ok (take (end - start) (drop start xs)) else panic

  abbrev pub overwrite : List A → ℕ → List A → List A
  overwrite [] i values = []
  overwrite (x ∷ xs) zero [] = x ∷ xs
  overwrite (x ∷ xs) zero (v ∷ values) = v ∷ overwrite xs zero values
  overwrite (x ∷ xs) (suc i) values = x ∷ overwrite xs i values

  -- A range out of bounds and values of another length panic.
  abbrev pub copy_from_slice : ℕ → ℕ → List A → List A → Effect (List A)
  copy_from_slice start end values xs =
      if in_range xs start end && length values == end - start
      then (overwrite xs start values, ok tt)
      else (xs, panic)

  pub range-eq-ok :
      (xs : List A) (start end : ℕ)
      → start ≤ end
      → end ≤ length xs
      → range xs start end ≡ ok (take (end - start) (drop start xs))
  range-eq-ok xs start end h k = ground arith

  pub copy_from_slice-eq-ok :
      (start end : ℕ) (values xs : List A)
      → start ≤ end
      → end ≤ length xs
      → length values ≡ end - start
      → copy_from_slice start end values xs ≡ (overwrite xs start values, ok tt)
  copy_from_slice-eq-ok start end values xs h k e = ground (arith, e)

  get_or-drop :
      (n i k : ℕ) (xs : List A) (d : A) → k ≡ n + i → get_or (drop n xs) i d ≡ get_or xs k d
  get_or-drop zero i k xs d e = let same : i ≡ k = omega arith in ap (λ j. get_or xs j d) same
  get_or-drop (suc n) i k [] d e = refl
  get_or-drop (suc n) i zero (x ∷ xs) d e = absurd (omega arith)
  get_or-drop (suc n) i (suc k) (x ∷ xs) d e = get_or-drop n i k xs d (omega arith)

  get_or-take : (n i : ℕ) (xs : List A) (d : A) → i < n → get_or (take n xs) i d ≡ get_or xs i d
  get_or-take zero i xs d h = absurd (omega arith)
  get_or-take (suc n) i [] d h = refl
  get_or-take (suc n) zero (x ∷ xs) d h = refl
  get_or-take (suc n) (suc i) (x ∷ xs) d h = get_or-take n i xs d (omega arith)

  pub get_or-range :
      (start end i : ℕ) (xs : List A) (d : A)
      → i < end - start
      → get_or (take (end - start) (drop start xs)) i d ≡ get_or xs (start + i) d
  get_or-range start end i xs d h =
      get_or-take (end - start) i (drop start xs) d h ∙ get_or-drop start i (start + i) xs d refl

  pub length-range :
      (n start : ℕ) (xs : List A) → start + n ≤ length xs → length (take n (drop start xs)) ≡ n
  length-range zero start xs h = refl
  length-range (suc n) zero [] h = absurd (omega arith)
  length-range (suc n) zero (x ∷ xs) h = ap suc (length-range n zero xs (omega arith))
  length-range (suc n) (suc start) [] h = absurd (omega arith)
  length-range (suc n) (suc start) (x ∷ xs) h = length-range (suc n) start xs (omega arith)

  pub length-overwrite :
      (xs : List A) (i : ℕ) (values : List A) → length (overwrite xs i values) ≡ length xs
  length-overwrite [] i values = refl
  length-overwrite (x ∷ xs) zero [] = refl
  length-overwrite (x ∷ xs) zero (v ∷ values) = ap suc (length-overwrite xs zero values)
  length-overwrite (x ∷ xs) (suc i) values = ap suc (length-overwrite xs i values)

  pub overwrite_before :
      (xs : List A) (i j : ℕ) (values : List A) (d : A)
      → j < i
      → get_or (overwrite xs i values) j d ≡ get_or xs j d
  overwrite_before [] i j values d h = refl
  overwrite_before (x ∷ xs) zero j values d h = absurd (omega arith)
  overwrite_before (x ∷ xs) (suc i) zero values d h = refl
  overwrite_before (x ∷ xs) (suc i) (suc j) values d h =
      overwrite_before xs i j values d (omega arith)

  overwrite_front :
      (xs : List A) (j : ℕ) (values : List A) (d : A)
      → j < length values
      → j < length xs
      → get_or (overwrite xs zero values) j d ≡ get_or values j d
  overwrite_front [] j values d h k = absurd (omega arith)
  overwrite_front (x ∷ xs) j [] d h k = absurd (omega arith)
  overwrite_front (x ∷ xs) zero (v ∷ values) d h k = refl
  overwrite_front (x ∷ xs) (suc j) (v ∷ values) d h k =
      overwrite_front xs j values d (omega arith) (omega arith)

  overwrite_rest :
      (xs : List A) (j : ℕ) (values : List A) (d : A)
      → length values ≤ j
      → get_or (overwrite xs zero values) j d ≡ get_or xs j d
  overwrite_rest [] j values d h = refl
  overwrite_rest (x ∷ xs) j [] d h = refl
  overwrite_rest (x ∷ xs) zero (v ∷ values) d h = absurd (omega arith)
  overwrite_rest (x ∷ xs) (suc j) (v ∷ values) d h = overwrite_rest xs j values d (omega arith)

  pub overwrite_inside :
      (xs : List A) (i j k : ℕ) (values : List A) (d : A)
      → k ≡ i + j
      → j < length values
      → k < length xs
      → get_or (overwrite xs i values) k d ≡ get_or values j d
  overwrite_inside [] i j k values d e h l = absurd (omega arith)
  overwrite_inside (x ∷ xs) zero j k values d e h l =
      let same : k ≡ j = omega arith in
      overwrite_front (x ∷ xs) k values d (omega arith) l ∙ ap (λ n. get_or values n d) same
  overwrite_inside (x ∷ xs) (suc i) j zero values d e h l = absurd (omega arith)
  overwrite_inside (x ∷ xs) (suc i) j (suc k) values d e h l =
      overwrite_inside xs i j k values d (omega arith) h (omega arith)

  pub overwrite_after :
      (xs : List A) (i j : ℕ) (values : List A) (d : A)
      → i + length values ≤ j
      → get_or (overwrite xs i values) j d ≡ get_or xs j d
  overwrite_after [] i j values d h = refl
  overwrite_after (x ∷ xs) zero j values d h = overwrite_rest (x ∷ xs) j values d (omega arith)
  overwrite_after (x ∷ xs) (suc i) zero values d h = refl
  overwrite_after (x ∷ xs) (suc i) (suc j) values d h =
      overwrite_after xs i j values d (omega arith)
