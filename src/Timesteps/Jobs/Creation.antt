-- ===== src/Timesteps/Jobs/Creation.antt =====
-- What the creation of a batch that is still to be polled charges to the budget of its session.
use gudra.Common.{ℕ}
use gudra.Params.{JacobiParams}
use gudra.Admission.{Budget}
use gudra.Admission.Decision.{InRange}
use gudra.Backend.{Backend}
use gudra.Executor.Creation.{Created, owned-Created}
use gudra.Session.{Session, State}
use gudra.Session.Ledger.{Carries}
use gudra.Timesteps.{DoubleGrid, check_count, drop_grid}
use gudra.Timesteps.Jobs.{unpolled, advance_async}
use gudra.Timesteps.Jobs.Charges.{grid_guards, IsHomeGrid, drop_grid-Pays}

module _ (b : Backend) (base : Budget) (s : State b) (grid : DoubleGrid b) (steps : ℕ)
    (params : JacobiParams) where
  abbrev session : Session
  session = grid.current.storage.session

  -- Under limits of type `usize`, and for a grid whose buffers belong to one session, a call of
  -- `advance_async` moves charges only: it returns a batch that is still to be polled, made of the
  -- arguments and charged with one operation more, or it fails and the charges of the three
  -- buffers are given back. It does nothing on the device, and leaves other budgets alone.
  pub advance_async-Created :
      IsHomeGrid b session grid
      → InRange base.limits
      → Carries b session base (grid_guards b session grid) s
      → Created b session base s
          (grid_guards b session grid)
          (λ guard.
            unpolled
              (record { session = session; guard = guard; grid = grid; params = params })
              steps)
          (advance_async b grid steps params s)
  unfolding advance_async
  advance_async-Created home =
      owned-Created b session base s (grid_guards b session grid) _ (drop_grid b grid)
        (grid_guards b session grid) (drop_grid-Pays b session grid home) (λ s' carries. carries)
        (check_count b grid steps)
