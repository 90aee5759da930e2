-- ===== src/Error/Display/Numbers.antt =====
-- What the text of an error (src/error.rs) says about its numbers.
use gudra.Common.{
  ℕ, zero, suc, ◌+◌, ◌-◌, ◌*◌, ◌/◌, ◌%◌, ◌≤◌, ◌<◌, ◌==◌, ◌≡◌, refl, ◌∙◌, ap, arith, Bool, ◌&&◌, leb,
  if◌then◌else◌, Bool-cases, inl, inr, Option, none, some, List, [], ◌∷◌, ◌++◌, String, F32,
  usize_max,
}
use gudra.Geometry.{Shape2D, height, width}
use gudra.Error.{length_mismatch, shape_limit, resource_limit, shape_mismatch}
use gudra.Error.Display.{Text, codes, emit, decimal, display}

abbrev is_digit : ℕ → Bool
is_digit c = leb b'0' c && leb c b'9'

-- The number at the head of a text, and what follows its last digit.
unfoldable pub scan : ℕ → Text → ℕ × Text
scan n [] = (n, [])
scan n (c ∷ s) = let rest = scan (n * 10 + (c - b'0')) s in if is_digit c then rest else (n, c ∷ s)

-- A number with at least one digit, and what follows it.
unfoldable pub number : Text → Option (ℕ × Text)
number [] = none
number (c ∷ s) = if is_digit c then some (scan 0 (c ∷ s)) else none

-- What follows a word at the head of a text, if it stands there code point by code point.
unfoldable pub after : Text → Text → Option Text
after [] t = some t
after (c ∷ word) [] = none
after (c ∷ word) (d ∷ t) = let rest = after word t in if c == d then rest else none

infixl 5 ◌>>=◌
abbrev ◌>>=◌ : {A B : Type 0} → Option A → (A → Option B) → Option B
none >>= next = none
some a >>= next = next a

abbrev ended : Text → Option (List ℕ)
ended [] = some []
ended (c ∷ rest) = none

-- A reader that knows the words of a message: it accepts a text that consists of the words and of
-- a number between any two of them, and of nothing else, and returns the numbers.
unfoldable pub numbers : Text → List Text → Text → Option (List ℕ)
unfolding number after
numbers word [] t = after word t >>= ended
numbers word (next ∷ words) t = do
  s ← after word t
  (n, rest) ← number s
  ns ← numbers next words rest
  some (n ∷ ns)

after_word : (word t : Text) → after word (word ++ t) ≡ some t
unfolding after
after_word [] t = refl
after_word (c ∷ word) t = ground (arith, after_word word t)

-- The first number that no longer has so many digits.
abbrev tens : ℕ → ℕ
tens zero = 1
tens (suc k) = 10 * tens k

scan_digit : (n d : ℕ) (out : Text) → d < 10 → scan n ((b'0' + d) ∷ out) ≡ scan (n * 10 + d) out
unfolding scan
scan_digit n d out h = ground (arith, h)

scan-emit : (k n : ℕ) (out : Text) → n < tens k → scan 0 (emit k n out) ≡ scan n out
unfolding emit
scan-emit zero n out h = ap (λ m. scan m out) (omega (arith, h))
scan-emit (suc k) n out h = grind (
  arith,
  scan_digit 0 (n % 10) out (omega arith),
  scan_digit (n / 10) (n % 10) out (omega arith),
  scan-emit k (n / 10) ((b'0' + n % 10) ∷ out) (omega (arith, h)),
)

scan-decimal : (n : ℕ) (out : Text) → n ≤ usize_max → scan 0 (decimal n out) ≡ scan n out
unfolding decimal
scan-decimal n out h = scan-emit 20 n out (omega (arith, h))

-- A text that starts with a digit.
abbrev Headed : Text → Type 0
Headed t = number t ≡ some (scan 0 t)

digit-Headed : (d : ℕ) (out : Text) → d < 10 → Headed ((b'0' + d) ∷ out)
unfolding number
digit-Headed d out h = ground (arith, h)

step-Headed :
    (k n : ℕ) (out : Text)
    → ((t : Text) → Headed t → Headed (emit k (n / 10) t))
    → Headed (emit (suc k) n out)
unfolding emit
step-Headed k n out rest = elim (Bool-cases (n / 10 == 0)) [
  | inl short ↦ rw short (digit-Headed (n % 10) out (omega arith))
  | inr long ↦ rw long (rest _ (digit-Headed (n % 10) out (omega arith)))
]

emit-Headed : (k n : ℕ) (out : Text) → Headed out → Headed (emit k n out)
unfolding emit
emit-Headed zero n out h = h
emit-Headed (suc k) n out h = step-Headed k n out (emit-Headed k (n / 10))

number-decimal : (n : ℕ) (out : Text) → n ≤ usize_max → number (decimal n out) ≡ some (scan n out)
unfolding decimal
number-decimal n out h =
    step-Headed 19 n out (emit-Headed 19 (n / 10)) ∙ ap some (scan-decimal n out h)

-- A word, a number that ends where the next word starts, and what the reader makes of the rest.
numbers_next :
    (word next : Text) (words : List Text) (n : ℕ) (out : Text) (ns : List ℕ)
    → n ≤ usize_max
    → scan n out ≡ (n, out)
    → numbers next words out ≡ some ns
    → numbers word (next ∷ words) (word ++ decimal n out) ≡ some (n ∷ ns)
unfolding numbers
numbers_next word next words n out ns h stops rest =
    rw (after_word word (decimal n out), number-decimal n out h, stops, rest) refl

after_self : (word : Text) → after word word ≡ some []
unfolding after
after_self [] = refl
after_self (c ∷ word) = ground (arith, after_self word)

numbers_last : (word : Text) → numbers word [] word ≡ some []
unfolding numbers
numbers_last word = rw (after_self word) refl

module _ (f32_text : F32 → Text) (name : String) where
  -- For numbers of type usize, a length error, a shape limit, a resource limit and a shape error
  -- are displayed as the name and the fixed words of their message with the numbers between them,
  -- the actual value before the expected one: a reader that checks every code point of the words,
  -- and accepts nothing else but a number between two of them, gets back just these numbers.
  pub numbers-display :
      (expected actual : ℕ) (wanted given : Shape2D)
      → expected ≤ usize_max
      → actual ≤ usize_max
      → (height wanted ≤ usize_max) × (width wanted ≤ usize_max)
      → (height given ≤ usize_max) × (width given ≤ usize_max)
      → (numbers
            (codes name ++ codes " length is ")
            (codes "; expected " ∷ codes " elements" ∷ [])
            (display f32_text (length_mismatch name expected actual))
          ≡ some (actual ∷ expected ∷ []))
        × (numbers
              (codes name ++ codes " is ")
              (codes "; supported maximum is " ∷ [] ∷ [])
              (display f32_text (shape_limit name actual expected))
            ≡ some (actual ∷ expected ∷ []))
        × (numbers
              (codes name ++ codes " budget exceeded (maximum ")
              (codes ")" ∷ [])
              (display f32_text (resource_limit name expected))
            ≡ some (expected ∷ []))
        × (numbers
              (codes name ++ codes " shape is ")
              (codes "x" ∷ codes "; expected " ∷ codes "x" ∷ [] ∷ [])
              (display f32_text (shape_mismatch name wanted given))
            ≡ some (height given ∷ width given ∷ height wanted ∷ width wanted ∷ []))
  unfolding display scan
  numbers-display expected actual wanted given he ha hw hg = (
    numbers_next (codes name ++ codes " length is ") (codes "; expected ") (codes " elements" ∷ [])
        actual (codes "; expected " ++ decimal expected (codes " elements")) (expected ∷ []) ha refl
        (numbers_next (codes "; expected ") (codes " elements") [] expected (codes " elements") []
          he refl (numbers_last (codes " elements"))),
    numbers_next (codes name ++ codes " is ") (codes "; supported maximum is ") ([] ∷ []) actual
        (codes "; supported maximum is " ++ decimal expected []) (expected ∷ []) ha refl
        (numbers_next (codes "; supported maximum is ") [] [] expected [] [] he refl
          (numbers_last [])),
    numbers_next (codes name ++ codes " budget exceeded (maximum ") (codes ")") [] expected
        (codes ")") [] he refl (numbers_last (codes ")")),
    numbers_next (codes name ++ codes " shape is ") (codes "x")
        (codes "; expected " ∷ codes "x" ∷ [] ∷ []) (height given)
        (codes "x" ++ decimal (width given) middle)
        (width given ∷ height wanted ∷ width wanted ∷ []) hg.0 refl
        (numbers_next (codes "x") (codes "; expected ") (codes "x" ∷ [] ∷ []) (width given) middle
          (height wanted ∷ width wanted ∷ []) hg.1 refl
          (numbers_next (codes "; expected ") (codes "x") ([] ∷ []) (height wanted)
            (codes "x" ++ decimal (width wanted) []) (width wanted ∷ []) hw.0 refl
            (numbers_next (codes "x") [] [] (width wanted) [] [] hw.1 refl (numbers_last [])))),
  )
    where
      middle : Text
      middle =
          codes "; expected " ++ decimal (height wanted) (codes "x" ++ decimal (width wanted) [])
