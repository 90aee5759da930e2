-- ===== src/Kernels/Schedule.antt =====
-- A launch over disjoint tiles gives the same output in whatever order its blocks run.
use gudra.Common.{ℕ, ◌/◌, ◌%◌, ◌<◌, ◌≡◌, inl, inr, refl, sym, ◌∙◌, ap, subst, List, [], ◌∷◌}
use native.Mathlib.Decide.{ℕ_discrete}
use gudra.Backend.{Backend, Block, Tile, TileLaws, HasExtent, ◌∈◌}
use gudra.Kernels.{run_blocks}

Block-discrete : Discrete Block
Block-discrete = hlevel ℕ_discrete

module _ (b : Backend) (laws : TileLaws b) (n : ℕ) (positive_side : 0 < n)
    (kernel : Block → b.Tensor → b.Tensor) (value : Block → Tile)
    (stores : (k : Block) (t : b.Tensor) → kernel k t ≡ b.store n t k (value k)) where
  open b use {Tensor, cell, shape, strides, device_id}

  pub run_blocks-shape :
      (ran : List Block) (t : Tensor) → shape (run_blocks b kernel ran t) ≡ shape t
  unfolding run_blocks
  run_blocks-shape [] t = refl
  run_blocks-shape (k ∷ ran) t =
      run_blocks-shape ran (kernel k t) ∙ ap shape (stores k t) ∙ laws.store_shape n t k (value k)

  -- A cell whose block does not run keeps its value.
  pub run_blocks_idle :
      (ran : List Block) (t : Tensor) (r c : ℕ)
      → ¬ ((r / n, c / n) ∈ ran)
      → cell (run_blocks b kernel ran t) r c ≡ cell t r c
  unfolding run_blocks
  run_blocks_idle [] t r c idle = refl
  run_blocks_idle (k ∷ ran) t r c idle =
      run_blocks_idle ran (kernel k t) r c (λ i. idle (inr i))
      ∙ ap (λ u. cell u r c) (stores k t)
      ∙ laws.store_other n t k (value k) r c positive_side (λ e. idle (inl (sym e)))

  mem-dec : (k : Block) (ran : List Block) → Dec (k ∈ ran)
  mem-dec k [] = no (λ e. e)
  mem-dec k (j ∷ ran) = elim (Block-discrete k j) [
    | yes e ↦ yes (inl e)
    | no ne ↦ elim (mem-dec k ran) [
      | yes i ↦ yes (inr i)
      | no ni ↦ no (λ s. elim s [ inl e ↦ ne e | inr i ↦ ni i ])
    ]
  ]

  -- A cell whose block runs, once or more, ends with the lane of its block's tile.
  pub run_blocks_own :
      (ran : List Block) (t : Tensor) (h w r c : ℕ)
      → HasExtent b t h w
      → r < h
      → c < w
      → (r / n, c / n) ∈ ran
      → cell (run_blocks b kernel ran t) r c ≡ value (r / n, c / n) (r % n) (c % n)
  unfolding run_blocks
  run_blocks_own [] t h w r c ext hr hc i = absurd i
  run_blocks_own (k ∷ ran) t h w r c ext hr hc i = elim (mem-dec (r / n, c / n) ran) [
    | yes later ↦
        run_blocks_own ran (kernel k t) h w r c
          (ap shape (stores k t) ∙ laws.store_shape n t k (value k) ∙ ext) hr hc later
    | no never ↦ elim i [
      | inr later ↦ absurd (never later)
      | inl now ↦
          run_blocks_idle ran (kernel k t) r c never
          ∙ ap (λ u. cell u r c) (stores k t)
          ∙ subst (λ j. cell (b.store n t j (value j)) r c ≡ value (r / n, c / n) (r % n) (c % n))
              now (laws.store_own n t (value (r / n, c / n)) h w r c ext hr hc positive_side)
    ]
  ]
