-- ===== src/Timesteps/Evolution.antt =====
-- The loop of `advance`: every successful launch makes the next grid the current one.
use gudra.Common.{
  ℕ, zero, suc, ◌+◌, ◌/◌, ◌≤◌, ◌<◌, ◌≡◌, refl, sym, ◌∙◌, ap, arith, true, leb, Arithmetic,
  checked_add-eq-some, usize_max, i32_max,
}
use gudra.Error.{Result, ok}
use gudra.Params.{JacobiParams}
use gudra.Backend.{Backend, Launch, done, TileLaws, LaunchLaws, HasExtent, ◌∈◌}
use gudra.Kernels.{run_blocks}
use gudra.Kernels.Blocks.{timestep_kernel, cell-timestep, shape-timestep}
use gudra.Session.{State}
use gudra.Timesteps.Values.{next_value, evolved, Agree, evolved-Agree}
use gudra.Timesteps.{DoubleGrid, operation, run_step, run_steps}

-- Both grids have the haloed extent of an h by w interior and one session, and the forcing has the
-- extent of the interior.
pub record Formed (b : Backend) (h w : ℕ) (grid : DoubleGrid b) : Type 0 where
  pub interior : grid.current.storage.shape.interior ≡ (h, w)
  pub next_interior : grid.next.storage.shape.interior ≡ (h, w)
  pub current_extent : HasExtent b grid.current.storage.tensor (h + 2) (w + 2)
  pub next_extent : HasExtent b grid.next.storage.tensor (h + 2) (w + 2)
  pub rhs_extent : HasExtent b grid.rhs.storage.tensor h w
  pub one_session : grid.next.storage.session ≡ grid.current.storage.session

module _ (b : Backend) where
  -- Every launch of the backend ends well.
  abbrev pub Completes : Type 0
  Completes = (n : ℕ) (t : b.Tensor) (world : b.World) → (b.launch n t world).1.ended ≡ done tt

module _ (b : Backend) (m : Arithmetic) (params : JacobiParams) (h w : ℕ) where
  -- A batch that succeeded.
  pub record Batch (steps : ℕ) (s : State b) (grid : DoubleGrid b)
      (r : (State b × DoubleGrid b) × Result (Unit {0})) : Type 0 where
    pub succeeds : r.1 ≡ ok tt
    pub counts : r.0.1.completed ≡ grid.completed + steps
    pub evolves : Agree h w (b.cell r.0.1.current.storage.tensor) (
        evolved m params h w
          (b.cell grid.rhs.storage.tensor)
          steps
          (b.cell grid.current.storage.tensor))
    pub budgets : r.0.0.budgets ≡ s.budgets
    pub formed : Formed b h w r.0.1
    pub same_session : r.0.1.current.storage.session ≡ grid.current.storage.session

module _ (b : Backend) (m : Arithmetic) (params : JacobiParams) (grid : DoubleGrid b) where
  -- The grid after a launch that ended well.
  abbrev pub swapped : Launch → DoubleGrid b
  swapped l = record grid {
    current = record {
      storage = record grid.next.storage {
        tensor = run_blocks b (operation b m grid params) l.ran grid.next.storage.tensor;
      };
    };
    next = grid.current;
    completed = grid.completed + 1;
  }

module _ (b : Backend) (m : Arithmetic) (params : JacobiParams) (s : State b)
    (grid : DoubleGrid b) where
  abbrev launched : Launch
  launched = (b.launch 1 grid.next.storage.tensor s.world).1

  abbrev passed : State b
  passed = record s { world = (b.launch 1 grid.next.storage.tensor s.world).0 }

  run_step-eq :
      launched.ended ≡ done tt
      → grid.completed + 1 ≤ usize_max
      → run_step b m params (s, grid) ≡ ((passed, swapped b m params grid launched), ok tt)
  unfolding run_step
  run_step-eq ended fits = rw (ended, checked_add-eq-some grid.completed 1 fits)

module _ (b : Backend) (tiles : TileLaws b) (m : Arithmetic) (params : JacobiParams) (h w : ℕ)
    (small : (h ≤ i32_max) × (w ≤ i32_max)) where
  module _ (grid : DoubleGrid b) (l : Launch) (formed : Formed b h w grid) where
    operation-kernel :
        operation b m grid params
        ≡ timestep_kernel b tiles m h w grid.current.storage.tensor grid.rhs.storage.tensor params
    unfolding operation
    operation-kernel =
        let height : grid.current.storage.shape.interior.0 ≡ h = λ i. (formed.interior i).0 in
        let width : grid.current.storage.shape.interior.1 ≡ w = λ i. (formed.interior i).1 in
        let rows : leb h i32_max ≡ true = ground arith in
        let columns : leb w i32_max ≡ true = ground arith in rw (height, width, rows, columns)

    pub swapped-Formed : Formed b h w (swapped b m params grid l)
    swapped-Formed = record {
      interior = formed.next_interior;
      next_interior = formed.interior;
      current_extent =
          ap (λ kernel. b.shape (run_blocks b kernel l.ran grid.next.storage.tensor))
            operation-kernel
          ∙ shape-timestep b tiles m h w _ _ grid.next.storage.tensor params l.ran
          ∙ formed.next_extent;
      next_extent = formed.current_extent;
      rhs_extent = formed.rhs_extent;
      one_session = sym formed.one_session;
    }

    pub swapped-cell :
        ((r c : ℕ) → r < h + 2 → c < w + 2 → (r / 1, c / 1) ∈ l.ran)
        → Agree h w (b.cell (swapped b m params grid l).current.storage.tensor) (
            next_value m params h w
              (b.cell grid.rhs.storage.tensor)
              (b.cell grid.current.storage.tensor))
    swapped-cell covers r c hr hc =
        ap (λ kernel. b.cell (run_blocks b kernel l.ran grid.next.storage.tensor) r c)
          operation-kernel
        ∙ cell-timestep b tiles m h w grid.current.storage.tensor grid.rhs.storage.tensor
            grid.next.storage.tensor params l.ran r c formed.current_extent formed.rhs_extent
            formed.next_extent hr hc covered
      where
        covered : (r, c) ∈ l.ran
        covered =
            let row : r / 1 ≡ r = omega arith in
            let column : c / 1 ≡ c = omega arith in rw (row, column) at (covers r c hr hc)

module _ (b : Backend) (tiles : TileLaws b) (launches : LaunchLaws b) (m : Arithmetic)
    (params : JacobiParams) (h w : ℕ) (small : (h ≤ i32_max) × (w ≤ i32_max)) where
  pub run_steps-Batch :
      Completes b
      → (steps : ℕ) (s : State b) (grid : DoubleGrid b) → Formed b h w grid
      → grid.completed + steps ≤ usize_max
      → Batch b m params h w steps s grid (run_steps b m steps params (s, grid))
  unfolding run_steps
  run_steps-Batch completes zero s grid formed fits = record {
    succeeds = refl;
    counts = omega arith;
    evolves = λ r c hr hc. refl;
    budgets = refl;
    formed = formed;
    same_session = refl;
  }
  run_steps-Batch completes (suc steps) s grid formed fits =
      let ended = completes 1 grid.next.storage.tensor s.world in
      let rest =
        run_steps-Batch completes steps (passed b m params s grid)
          (swapped b m params grid (launched b m params s grid))
          (swapped-Formed b tiles m params h w small grid (launched b m params s grid) formed)
          (omega arith) in
      rw (run_step-eq b m params s grid ended (omega arith)) (record {
        succeeds = rest.succeeds;
        counts = rest.counts ∙ omega arith;
        evolves = λ r c hr hc.
            rest.evolves r c hr hc
            ∙ evolved-Agree m params h w (b.cell grid.rhs.storage.tensor) steps _ _
                (swapped-cell b tiles m params h w small grid (launched b m params s grid) formed
                  (λ i j hi hj.
                    launches.covers 1 grid.next.storage.tensor s.world (h + 2) (w + 2) i j
                      (omega arith) formed.next_extent hi hj ended))
                r c hr hc;
        budgets = rest.budgets;
        formed = rest.formed;
        same_session = rest.same_session ∙ formed.one_session;
      })
