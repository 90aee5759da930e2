-- ===== src/Timesteps/Jobs/Batch.antt =====
-- A batch that is created, polled until it is ready, and compared with the blocking one.
use gudra.Common.{
  ℕ, ◌+◌, ◌*◌, ◌≤◌, ◌<◌, ◌≡◌, refl, sym, ◌∙◌, subst, Arithmetic, checked_add-eq-some, usize_max,
  i32_max,
}
use gudra.Error.{Result, ok}
use gudra.Admission.Decision.{InRange}
use gudra.Params.{JacobiParams}
use gudra.Backend.{Backend, done, TileLaws, LaunchLaws, PollLaws, Responsive}
use gudra.Executor.{complete}
use gudra.Session.{◌>>=◌, Session, State}
use gudra.Session.Scopes.{own_budget, entered, operation_guard}
use gudra.Session.Inside.{admit_operation-Inside}
use gudra.Timesteps.{DoubleGrid, check_count, advance}
use gudra.Timesteps.Values.{Agree, evolved, evolved_halo}
use gudra.Timesteps.Evolution.{Formed}
use gudra.Timesteps.Batch.{Ready, Advanced, advance-Advanced}
use gudra.Timesteps.Jobs.{returned, advance_async, poll, drop_job}
use gudra.Timesteps.Jobs.Finish.{Finished, complete-Finished, allowance-eq}

module _ (b : Backend) (h w : ℕ) (grid : DoubleGrid b) (steps : ℕ) (s : State b) where
  abbrev grid_session : Session
  grid_session = grid.current.storage.session

  -- The batch meets no obstacle, and the device binds whenever it is asked to.
  pub record Starts : Type 0 where
    pub formed : Formed b h w grid
    pub small : (h ≤ i32_max) × (w ≤ i32_max)
    pub fits : grid.completed + steps ≤ usize_max
    pub range : InRange (own_budget b grid_session s).limits
    pub slot :
        (own_budget b grid_session s).usage.operations
        < (own_budget b grid_session s).limits.operations
    pub binds : (world : b.World) → (b.bind_to_thread grid_session.ordinal world).1 ≡ done tt

module _ (b : Backend) (tiles : TileLaws b) (laws : PollLaws b) (responsive : Responsive b)
    (m : Arithmetic) (params : JacobiParams) (h w : ℕ) (grid : DoubleGrid b) (steps : ℕ)
    (s : State b) where
  abbrev session : Session
  session = grid.current.storage.session

  -- `complete(grid.advance_async(steps, params)?)`.
  abbrev pub ran : ℕ → State b × Result (DoubleGrid b)
  ran polls = (advance_async b grid steps params >>= complete (poll b m) (drop_job b) polls) s

  module _ (starts : Starts b h w grid steps s) (polls : ℕ)
      (enough : steps * (responsive.patience + 1) ≤ polls) where
    open starts use {formed, small, fits, range, slot, binds}

    ran-Finished :
        Finished b m session s params h w
          (evolved m params h w
            (b.cell grid.rhs.storage.tensor)
            steps
            (b.cell grid.current.storage.tensor))
          (grid.completed + steps)
          grid.rhs.storage.tensor
          (ran polls).1
          returned
          (ran polls).0
    unfolding advance_async check_count
    ran-Finished =
        let (e, inside) = admit_operation-Inside b session s range slot in
        rw (checked_add-eq-some grid.completed steps fits, e)
          (complete-Finished b m session s params h w _ (grid.completed + steps)
            grid.rhs.storage.tensor tiles laws responsive small fits binds polls steps
            (record { session = session; guard = operation_guard; grid = grid; params = params })
            (entered b session s)
            (subst (λ k. k ≤ polls) (sym (allowance-eq responsive.patience steps)) enough)
            (record {
              own = refl;
              same_params = refl;
              same_forcing = refl;
              formed = formed;
              counts = refl;
              current_session = refl;
              values = λ r c hr hc. refl;
            })
            inside)

    -- Under the documented behaviour of tiles and polled launches, on a backend that finishes its
    -- launches, an asynchronous batch that meets no obstacle is ready before a deadline that allows
    -- every step its polls. It hands out a grid whose counter is greater by the number of steps;
    -- whose current cells are those of that many Jacobi updates, each on the whole grid of the one
    -- before, with the halo kept as it was at the start; every budget is what it was
    -- before; and the grid keeps its extents and its session, so that it can be advanced again.
    pub advance_async-Advanced :
        (after : DoubleGrid b) × ((ran polls).1 ≡ ok after)
        × Advanced b m params h w grid steps s (ran polls).0 after
    advance_async-Advanced =
        let fin = ran-Finished in
        (
          fin.grid,
          fin.result,
          record {
            counts = fin.counts;
            evolves = fin.values;
            keeps_halo = λ r c hr hc halo.
                fin.values r c hr hc
                ∙ evolved_halo m params h w (b.cell grid.rhs.storage.tensor) steps
                    (b.cell grid.current.storage.tensor) r c halo;
            restores = fin.restored;
            formed = fin.formed;
            same_session = fin.current_session;
          },
        )

    -- Under the documented behaviour of tiles and launches, on a backend that finishes its launches,
    -- blocking or polled, the two variants of a batch agree: both succeed, with the same counter, the
    -- same current cells and the same budgets.
    pub advance_async-advance :
        (launches : LaunchLaws b)
        → (ready : Ready b h w grid steps s)
        → (blocked : State b) × (other : DoubleGrid b) × (advance b m grid steps params s
            ≡ (blocked, ok other))
          × (after : DoubleGrid b) × ((ran polls).1 ≡ ok after)
          × (after.completed ≡ other.completed)
          × Agree h w (b.cell after.current.storage.tensor) (b.cell other.current.storage.tensor)
          × ((i : ℕ) → (ran polls).0.budgets i ≡ blocked.budgets i)
    advance_async-advance launches ready =
        let (blocked, other, e, direct) =
          advance-Advanced b tiles launches m params h w grid steps s ready in
        let (after, e', later) = advance_async-Advanced in
        (
          blocked,
          other,
          e,
          after,
          e',
          later.counts ∙ sym direct.counts,
          (λ r c hr hc. later.evolves r c hr hc ∙ sym (direct.evolves r c hr hc)),
          λ i. later.restores i ∙ sym (direct.restores i),
        )
