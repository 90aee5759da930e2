-- ===== src/Reference/Corners.antt =====
-- The four corners of the halo are never read.
use gudra.Common.{
  ℕ, zero, suc, ◌+◌, ◌<◌, ◌≡◌, ◌⊎◌, inl, inr, refl, sym, ◌∙◌, ap, ap₂, arith, F32, Arithmetic, List,
  length, ◌++◌, ◌∷◌,
}
use gudra.Geometry.{Shape2D, height, width}
use gudra.Error.{ok}
use gudra.Shape.Domain.{IsValid}
use gudra.Params.{JacobiParams}
use gudra.Loop.{grid, row_from, rows_from}
use gudra.Reference.{jacobi_value, jacobi_into}
use gudra.Reference.Cells.{at, stencil_at}
use gudra.Reference.Filled.{jacobi_into-grid}

row_from_ext :
    (f g : ℕ → F32) (w left c : ℕ)
    → ((c : ℕ) → c < w → f c ≡ g c)
    → c + left ≡ w
    → row_from f left c ≡ row_from g left c
unfolding row_from
row_from_ext f g w zero c h e = refl
row_from_ext f g w (suc left) c h e =
    ap₂ ◌∷◌ (h c (omega arith)) (row_from_ext f g w left (suc c) h (omega arith))

rows_from_ext :
    (f g : ℕ → ℕ → F32) (h w left r : ℕ)
    → ((r c : ℕ) → r < h → c < w → f r c ≡ g r c)
    → r + left ≡ h
    → rows_from f w left r ≡ rows_from g w left r
unfolding rows_from
rows_from_ext f g h w zero r same e = refl
rows_from_ext f g h w (suc left) r same e =
    ap₂ ◌++◌ (row_from_ext (f r) (g r) w w 0 (λ c l. same r c (omega arith) l) (omega arith))
      (rows_from_ext f g h w left (suc r) same (omega arith))

pub grid_ext :
    (h w : ℕ) (f g : ℕ → ℕ → F32)
    → ((r c : ℕ) → r < h → c < w → f r c ≡ g r c)
    → grid h w f ≡ grid h w g
grid_ext h w f g same = rows_from_ext f g h w h 0 same (omega arith)

-- Position (r, c) of a halo around `h` rows and `w` columns is no corner.
abbrev pub OffCorner : ℕ → ℕ → ℕ → ℕ → Type 0
OffCorner h w r c = (0 < r) × (r < h + 1) × (c < w + 2) ⊎ (0 < c) × (c < w + 1) × (r < h + 2)

-- Two haloed slices agree wherever they are read.
abbrev pub AgreeOffCorners : ℕ → ℕ → List F32 → List F32 → Type 0
AgreeOffCorners h w xs ys = (r c : ℕ) → OffCorner h w r c → at xs (w + 2) r c ≡ at ys (w + 2) r c

module _ (h w : ℕ) (xs ys : List F32) (agree : AgreeOffCorners h w xs ys) (r c : ℕ) (hr : r < h)
    (hc : c < w) where
  stencil_at_agree : stencil_at xs (w + 2) r c ≡ stencil_at ys (w + 2) r c
  stencil_at_agree =
      let north = agree r (c + 1) (inr (omega arith)) in
      let south = agree (r + 2) (c + 1) (inr (omega arith)) in
      let east = agree (r + 1) (c + 2) (inl (omega arith)) in
      let west = agree (r + 1) c (inl (omega arith)) in
      let center = agree (r + 1) (c + 1) (inl (omega arith)) in
      λ i. record {
        north = north i;
        south = south i;
        east = east i;
        west = west i;
        center = center i;
      }

module _ (m : Arithmetic) (s : Shape2D) (xs ys output : List F32) where
  -- On a well-formed shape and slices of the right length, two sources that agree at every position
  -- but the four corners of the halo give the same Jacobi output, whatever the corners hold.
  pub jacobi_into_corners :
      (rhs : List F32) (params : JacobiParams)
      → IsValid s
      → s.haloed_len ≡ length xs
      → s.haloed_len ≡ length ys
      → s.interior_len ≡ length rhs
      → s.interior_len ≡ length output
      → AgreeOffCorners (height s) (width s) xs ys
      → jacobi_into m s xs rhs output params ≡ jacobi_into m s ys rhs output params
  jacobi_into_corners rhs params valid hx hy hr ho agree =
      jacobi_into-grid m s valid xs output hx ho rhs params hr
      ∙ ap (λ g. (g, ok tt))
          (grid_ext (height s) (width s) _ _ λ r c lr lc.
            ap (λ t. jacobi_value m params t (at rhs (width s) r c))
              (stencil_at_agree (height s) (width s) xs ys agree r c lr lc))
      ∙ sym (jacobi_into-grid m s valid ys output hy ho rhs params hr)
