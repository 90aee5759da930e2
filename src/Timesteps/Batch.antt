-- ===== src/Timesteps/Batch.antt =====
-- What `advance` makes of a grid.
use gudra.Common.{
  ℕ, ◌+◌, ◌≤◌, ◌<◌, ◌≡◌, refl, ◌∙◌, arith, false, Arithmetic, checked_add-eq-some, usize_max,
  i32_max,
}
use gudra.Error.{ok}
use gudra.Admission.Decision.{InRange}
use gudra.Params.{JacobiParams}
use gudra.Backend.{Backend, done, TileLaws, LaunchLaws}
use gudra.Session.{
  Run, ◌>>=◌, ◌>>◌, zoom, scoped, Session, State, admit_operation, drop_guard, bind,
}
use gudra.Session.Scopes.{
  own_budget, entered, left, Restored, left-Restored, OperationScope, full, ran,
  scoped-OperationScope,
}
use gudra.Timesteps.Values.{inside, evolved, Agree, evolved_halo}
use gudra.Timesteps.Evolution.{Formed, Completes, Batch, run_steps-Batch}
use gudra.Timesteps.{DoubleGrid, check_count, run_steps, advance}

module _ (b : Backend) (h w : ℕ) (grid : DoubleGrid b) (steps : ℕ) (s : State b) where
  abbrev grid_session : Session
  grid_session = grid.current.storage.session

  -- The batch meets no obstacle: the grid is formed, its extent and its count fit, a slot is free,
  -- and the backend does its part.
  pub record Ready : Type 0 where
    pub formed : Formed b h w grid
    pub small : (h ≤ i32_max) × (w ≤ i32_max)
    pub fits : grid.completed + steps ≤ usize_max
    pub range : InRange (own_budget b grid_session s).limits
    pub slot :
        (own_budget b grid_session s).usage.operations
        < (own_budget b grid_session s).limits.operations
    pub binds : (b.bind_to_thread grid_session.ordinal s.world).1 ≡ done tt
    pub completes : Completes b

module _ (b : Backend) (m : Arithmetic) (params : JacobiParams) (h w : ℕ) (grid : DoubleGrid b)
    (steps : ℕ) (s : State b) where
  -- What the caller gets back.
  pub record Advanced (s' : State b) (after : DoubleGrid b) : Type 0 where
    pub counts : after.completed ≡ grid.completed + steps
    pub evolves : Agree h w (b.cell after.current.storage.tensor) (
        evolved m params h w
          (b.cell grid.rhs.storage.tensor)
          steps
          (b.cell grid.current.storage.tensor))
    pub keeps_halo :
        (r c : ℕ)
        → r < h + 2
        → c < w + 2
        → inside h w r c ≡ false
        → b.cell after.current.storage.tensor r c ≡ b.cell grid.current.storage.tensor r c
    pub restores : Restored b grid.current.storage.session s s'
    pub formed : Formed b h w after
    pub same_session : after.current.storage.session ≡ grid.current.storage.session

module _ (b : Backend) (tiles : TileLaws b) (launches : LaunchLaws b) (m : Arithmetic)
    (params : JacobiParams) (h w : ℕ) (grid : DoubleGrid b) (steps : ℕ) (s : State b) where
  abbrev session : Session
  session = grid.current.storage.session

  abbrev body : Run (State b × DoubleGrid b) (Unit {0})
  body = zoom (bind b session) >> run_steps b m steps params

  module _ (ready : Ready b h w grid steps s) where
    open ready use {formed, small, fits, range, slot, binds, completes}

    body-Batch :
        Batch b m params h w steps (entered b session s) grid (body (entered b session s, grid))
    unfolding bind
    body-Batch =
        let batch =
          run_steps-Batch b tiles launches m params h w small completes steps
            (record (entered b session s) { world = (b.bind_to_thread session.ordinal s.world).0 })
            grid formed fits in
        rw binds (record {
          succeeds = batch.succeeds;
          counts = batch.counts;
          evolves = batch.evolves;
          budgets = batch.budgets;
          formed = batch.formed;
          same_session = batch.same_session;
        })

    -- Under the documented behaviour of tiles and launches, a batch of timesteps that meets no
    -- obstacle returns a grid whose counter is greater by the number of steps; whose current cells
    -- are those of that many Jacobi updates, each on the whole grid of the one before, with the halo
    -- kept as it was at the start; every budget is what it was before;
    -- and the grid keeps its extents and its session, so that it can be advanced again.
    pub advance-Advanced :
        (s' : State b) × (after : DoubleGrid b) × (advance b m grid steps params s ≡ (s', ok after))
        × Advanced b m params h w grid steps s s' after
    unfolding advance check_count
    advance-Advanced = go (scoped-OperationScope b session s grid body range body-Batch.budgets)
      where
        go :
            OperationScope b session s grid body (
              (zoom (admit_operation b session) >>= λ operation.
              scoped (zoom (drop_guard b session operation)) body)
                (s, grid))
            → (s' : State b) × (after : DoubleGrid b) × (advance b m grid steps params s
                ≡ (s', ok after))
              × Advanced b m params h w grid steps s s' after
        go (full c q) = absurd (omega arith)
        go (ran c q) = (
          left b session s (body (entered b session s, grid)).0.0,
          (body (entered b session s, grid)).0.1,
          rw (checked_add-eq-some grid.completed steps fits, q, body-Batch.succeeds) refl,
          record {
            counts = body-Batch.counts;
            evolves = body-Batch.evolves;
            keeps_halo = λ r c hr hc halo.
                body-Batch.evolves r c hr hc
                ∙ evolved_halo m params h w (b.cell grid.rhs.storage.tensor) steps
                    (b.cell grid.current.storage.tensor) r c halo;
            restores =
                left-Restored b session s (body (entered b session s, grid)).0.0 body-Batch.budgets;
            formed = body-Batch.formed;
            same_session = body-Batch.same_session;
          },
        )
