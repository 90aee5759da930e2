-- ===== src/Loop.antt =====
-- `for` loops over ranges whose body writes a slice, and the row-major grids that they fill
-- (the loops of src/reference.rs).
pub mod Cells
use mathlib.Core.List.{append_assoc}
use gudra.Common.{
  ℕ, zero, suc, ◌+◌, ◌*◌, ◌<◌, ◌≡◌, refl, sym, ◌∙◌, ap, arith, List, [], ◌∷◌, ◌++◌, length,
  length-append, set, ltb, lt→ltb, if◌then◌else◌,
}
use gudra.Error.{Result, ok, err, panic}

-- What a call leaves in the state that it writes, and how it ends.
abbrev pub Effect {ℓ} : Type ℓ → Type ℓ
Effect S = S × Result (Unit {0})

module _ {ℓ} {S : Type ℓ} where
  -- `e?` for an expression that writes nothing: its error or panic ends the call.
  abbrev pub attempt {κ} : {A : Type κ} → Result A → (A → S → Effect S) → S → Effect S
  attempt (ok a) f s = f a s
  attempt (err e) f s = (s, err e)
  attempt panic f s = (s, panic)

  -- `a; b`, where an error or a panic of `a` skips `b`.
  abbrev pub and_then : Effect S → (S → Effect S) → Effect S
  and_then (s, ok done) f = f s
  and_then (s, err e) f = (s, err e)
  and_then (s, panic) f = (s, panic)

  -- `for i in start..start + left { body }`.
  unfoldable pub for_range : (ℕ → S → Effect S) → ℕ → ℕ → S → Effect S
  for_range body zero i s = (s, ok tt)
  for_range body (suc left) i s = and_then (body i s) (for_range body left (suc i))

module _ {ℓ} {A : Type ℓ} where
  -- `slice[i] = value`.
  abbrev pub write : ℕ → A → List A → Effect (List A)
  write i v out = if ltb i (length out) then (set out i v, ok tt) else (out, panic)

  abbrev pub drop : ℕ → List A → List A
  drop zero xs = xs
  drop (suc n) [] = []
  drop (suc n) (x ∷ xs) = drop n xs

  -- The values at columns `c`, `c + 1`, … of a row, and the rows `r`, `r + 1`, … of a grid.
  unfoldable pub row_from : (ℕ → A) → ℕ → ℕ → List A
  row_from f zero c = []
  row_from f (suc left) c = f c ∷ row_from f left (suc c)

  unfoldable pub rows_from : (ℕ → ℕ → A) → ℕ → ℕ → ℕ → List A
  unfolding row_from
  rows_from f w zero r = []
  rows_from f w (suc left) r = row_from (f r) w 0 ++ rows_from f w left (suc r)

  -- The row-major list of `h` rows of `w` values.
  abbrev pub grid : ℕ → ℕ → (ℕ → ℕ → A) → List A
  grid h w f = rows_from f w h 0

module _ {ℓ} {A : Type ℓ} where
  length-drop : (n m : ℕ) (xs : List A) → length xs ≡ n + m → length (drop n xs) ≡ m
  length-drop zero m xs e = omega (arith, e)
  length-drop (suc n) m [] e = absurd (omega arith)
  length-drop (suc n) m (x ∷ xs) e = length-drop n m xs (omega arith)

  length_zero : (xs : List A) → length xs ≡ 0 → xs ≡ []
  length_zero [] e = refl
  length_zero (x ∷ xs) e = absurd (omega arith)

  pub length-row_from : (f : ℕ → A) (left c : ℕ) → length (row_from f left c) ≡ left
  unfolding row_from
  length-row_from f zero c = refl
  length-row_from f (suc left) c = ap suc (length-row_from f left (suc c))

  pub set_middle :
      (done rest : List A) (x v : A) → set (done ++ (x ∷ rest)) (length done) v ≡ done ++ (v ∷ rest)
  set_middle [] rest x v = refl
  set_middle (y ∷ done) rest x v = ap (◌∷◌ y) (set_middle done rest x v)

  -- A body that writes `f r c` at position `r * w + c` fills the grid, whatever it held before.
  module _ (h w : ℕ) (f : ℕ → ℕ → A) (body : ℕ → ℕ → List A → Effect (List A))
      (step : (r c : ℕ) (done rest : List A) (x : A)
        → r < h
        → c < w
        → length done ≡ r * w + c
        → body r c (done ++ (x ∷ rest)) ≡ (done ++ (f r c ∷ rest), ok tt)) where
    for_row :
        (r left c : ℕ) (done rest : List A) (n : ℕ)
        → r < h
        → c + left ≡ w
        → length done ≡ r * w + c
        → length rest ≡ left + n
        → for_range (body r) left c (done ++ rest)
          ≡ (done ++ (row_from (f r) left c ++ drop left rest), ok tt)
    unfolding for_range row_from
    for_row r zero c done rest n hr hc hd hl = refl
    for_row r (suc left) c done [] n hr hc hd hl = absurd (omega arith)
    for_row r (suc left) c done (x ∷ rest) n hr hc hd hl =
        rw (step r c done rest x hr (omega arith) hd) (
          ap (for_range (body r) left (suc c)) (regroup (f r c) rest)
          ∙ for_row r left (suc c) (done ++ (f r c ∷ [])) rest n hr (omega arith)
              (omega (arith, length-append {ℓ} done (f r c ∷ []))) (omega arith)
          ∙ ap (λ xs. (xs, ok tt)) (append_assoc done (f r c ∷ []) _))
      where
        regroup : (v : A) (xs : List A) → done ++ (v ∷ xs) ≡ (done ++ (v ∷ [])) ++ xs
        regroup v xs = sym (append_assoc done (v ∷ []) xs)

    for_rows :
        (left r : ℕ) (done rest : List A)
        → r + left ≡ h
        → length done ≡ r * w
        → length rest ≡ left * w
        → for_range (λ r'. for_range (body r') w 0) left r (done ++ rest)
          ≡ (done ++ rows_from f w left r, ok tt)
    unfolding for_range rows_from
    for_rows zero r done rest hr hd hl = rw (length_zero rest (omega arith))
    for_rows (suc left) r done rest hr hd hl =
        rw
          (for_row r w 0 done rest (left * w) (omega arith) (omega arith) (omega arith)
            (omega arith))
          (ap (for_range (λ r'. for_range (body r') w 0) left (suc r))
              (sym (append_assoc done (row_from (f r) w 0) (drop w rest)))
            ∙ for_rows left (suc r) (done ++ row_from (f r) w 0) (drop w rest) (omega arith)
                (omega
                  (arith, length-append {ℓ} done (row_from (f r) w 0), length-row_from (f r) w 0))
                (length-drop w (left * w) rest (omega arith))
            ∙ ap (λ xs. (xs, ok tt)) (append_assoc done (row_from (f r) w 0) _))

    pub for_grid :
        (out : List A)
        → length out ≡ h * w
        → for_range (λ r. for_range (body r) w 0) h 0 out ≡ (grid h w f, ok tt)
    for_grid out e = for_rows h 0 [] out (omega arith) (omega arith) e

  pub write_middle :
      (done rest : List A) (x v : A) (i : ℕ)
      → i ≡ length done
      → write i v (done ++ (x ∷ rest)) ≡ (done ++ (v ∷ rest), ok tt)
  write_middle done rest x v i e =
      let inside : length done < length (done ++ (x ∷ rest)) =
        omega (arith, length-append done (x ∷ rest)) in
      rw (e, lt→ltb _ _ inside, set_middle done rest x v)
