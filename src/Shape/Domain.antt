-- ===== src/Shape/Domain.antt =====
-- Which interiors `Shape2D::new` accepts, and what its metadata promise.
use gudra.Common.{
  ℕ, ◌+◌, ◌-◌, ◌*◌, ◌≤◌, ◌<◌, ◌≡◌, refl, ◌∙◌, sym, ◌↔◌, arith, i32_max, div_ceil_bounds, subst,
}
use gudra.Geometry.{Shape2D}
use gudra.Error.{Result, ok}
use gudra.Shape.{tile, max_blocks, new}
use gudra.Shape.Stages.{FirstAbove-ne-ok}
use gudra.Shape.Rejection.{
  metadata, Verdict, new-Verdict, no_rows, no_columns, overflow, too_many_bytes, too_many_cells,
  too_many_blocks, accepted,
}

-- The interiors that fit the launch grid and the 32-bit element counts of the backend.
pub record InDomain (h w : ℕ) : Type 0 where
  pub tall : 0 < h
  pub wide : 0 < w
  pub counted : (h + 2) * (w + 2) ≤ i32_max
  pub rows_fit : h ≤ max_blocks * tile
  pub columns_fit : w ≤ max_blocks * tile

Verdict-InDomain :
    {h w : ℕ} {r : Result Shape2D} (s : Shape2D)
    → Verdict h w r
    → r ≡ ok s
    → InDomain h w × (s ≡ metadata h w)
Verdict-InDomain s (no_rows z e) q = cc
Verdict-InDomain s (no_columns p z e) q = cc
Verdict-InDomain s (overflow p p' b o) q = absurd (FirstAbove-ne-ok s o q)
Verdict-InDomain s (too_many_bytes p p' b b' o) q = absurd (FirstAbove-ne-ok s o q)
Verdict-InDomain s (too_many_cells p p' b b' o) q = absurd (FirstAbove-ne-ok s o q)
Verdict-InDomain s (too_many_blocks p p' b b' o) q = absurd (FirstAbove-ne-ok s o q)
Verdict-InDomain s (accepted p p' b r c e) q =
    (record { tall = p; wide = p'; counted = b; rows_fit = r; columns_fit = c }, cc)

InDomain-Verdict :
    {h w : ℕ} {r : Result Shape2D} → Verdict h w r → InDomain h w → r ≡ ok (metadata h w)
InDomain-Verdict (no_rows z e) d = absurd (omega arith)
InDomain-Verdict (no_columns p z e) d = absurd (omega arith)
InDomain-Verdict (overflow p p' b o) d = absurd (omega arith)
InDomain-Verdict (too_many_bytes p p' b b' o) d = absurd (omega arith)
InDomain-Verdict (too_many_cells p p' b b' o) d = absurd (omega arith)
InDomain-Verdict (too_many_blocks p p' b b' o) d = absurd (omega arith)
InDomain-Verdict (accepted p p' b r c e) d = e

-- `Shape2D::new` returns a shape `s` exactly when the interior is nonempty, has at most `i32::MAX`
-- cells with its halo and at most 65,535 tiles on each axis, and `s` is the metadata of the interior.
pub new-eq_ok_iff : (h w : ℕ) (s : Shape2D) → (new h w ≡ ok s) ↔ (InDomain h w × (s ≡ metadata h w))
new-eq_ok_iff h w s = (
  Verdict-InDomain s (new-Verdict h w),
  λ (d, e). InDomain-Verdict (new-Verdict h w) d ∙ sym (λ i. ok (e i)),
)

-- What the operators rely on in a shape that `new` returned.
pub record IsValid (s : Shape2D) : Type 0 where
  pub tall : 0 < s.interior.0
  pub wide : 0 < s.interior.1
  pub halo_rows : s.haloed.0 ≡ s.interior.0 + 2
  pub halo_columns : s.haloed.1 ≡ s.interior.1 + 2
  pub cells : s.interior_len ≡ s.interior.0 * s.interior.1
  pub halo_cells : s.haloed_len ≡ s.haloed.0 * s.haloed.1
  pub bytes : s.interior_bytes ≡ 4 * s.interior_len
  pub halo_bytes : s.haloed_bytes ≡ 4 * s.haloed_len
  pub counted : s.haloed_len ≤ i32_max
  pub row_tiles : (tile * (s.grid.0 - 1) < s.interior.0) × (s.interior.0 ≤ tile * s.grid.0)
  pub column_tiles : (tile * (s.grid.1 - 1) < s.interior.1) × (s.interior.1 ≤ tile * s.grid.1)
  pub planes : s.grid.2 ≡ 1

metadata-IsValid : (h w : ℕ) → InDomain h w → IsValid (metadata h w)
metadata-IsValid h w d = record {
  tall = d.tall;
  wide = d.wide;
  halo_rows = refl;
  halo_columns = refl;
  cells = refl;
  halo_cells = refl;
  bytes = omega arith;
  halo_bytes = omega arith;
  counted = d.counted;
  row_tiles = div_ceil_bounds h d.tall;
  column_tiles = div_ceil_bounds w d.wide;
  planes = refl;
}

-- A shape that `new` returned is well formed: it is nonempty, the halo adds two to each axis, the
-- lengths are the products of the extents and at most `i32::MAX`, the byte counts are four times
-- the lengths, and the grid is the least number of 16 x 16 tiles that covers the interior.
pub new-IsValid : (h w : ℕ) (s : Shape2D) → new h w ≡ ok s → IsValid s
new-IsValid h w s e =
    let (d, same) = (new-eq_ok_iff h w s).0 e in subst IsValid (sym same) (metadata-IsValid h w d)
