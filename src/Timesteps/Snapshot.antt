-- ===== src/Timesteps/Snapshot.antt =====
-- The snapshot of a grid (src/gpu/timesteps.rs: `observe`).
use gudra.Common.{◌<◌, ◌≡◌, refl, ap, arith, F32, List}
use gudra.Error.{ok}
use gudra.Admission.Decision.{InRange}
use gudra.Backend.{Backend}
use gudra.Session.{
  Run, ◌>>=◌, ◌>>◌, lift, zoom, scoped, Session, State, call, admit_operation, drop_guard, bind,
}
use gudra.Session.Scopes.{
  own_budget, entered, left, Restored, left-Restored, OperationScope, full, ran,
  scoped-OperationScope,
}
use gudra.Gpu.Transfers.{TransferLaws, Available}
use gudra.Timesteps.{DoubleGrid, unwrap_shared, observe}

module _ (b : Backend) (laws : TransferLaws b) (available : Available b) (grid : DoubleGrid b)
    (s : State b) where
  abbrev session : Session
  session = grid.current.storage.session

  abbrev body : Run (State b × DoubleGrid b) (List F32)
  body =
      zoom (bind b session)
      >> (zoom (call b "observe timesteps" (b.to_host_vec grid.current.storage.tensor)) >>= λ host.
          zoom (unwrap_shared b grid.current.storage.tensor) >> lift (ok host))

  -- The state after the copy.
  abbrev copied : State b
  copied =
      let inside = entered b session s in
      let world = (b.bind_to_thread session.ordinal inside.world).0 in
      record inside { world = (b.to_host_vec grid.current.storage.tensor world).0 }

  body-eq :
      body (entered b session s, grid)
      ≡ ((copied, grid), ok (laws.contents grid.current.storage.tensor))
  unfolding bind unwrap_shared
  body-eq =
      let world = (b.bind_to_thread session.ordinal s.world).0 in
      let host = available.reads grid.current.storage.tensor world in
      rw
        (
          available.binds session.ordinal s.world,
          host.1,
          laws.read_releases grid.current.storage.tensor world host.0 host.1,
        )
        (ap (λ xs. ((copied, grid), ok xs))
          (laws.read_contents grid.current.storage.tensor world host.0 host.1))

  -- With a free slot and a backend that copies, the snapshot is the list that the current grid
  -- holds, the grid is as it was, and so is every budget.
  pub observe-eq :
      InRange (own_budget b session s).limits
      → (own_budget b session s).usage.operations < (own_budget b session s).limits.operations
      → (s' : State b) × (observe b grid s
          ≡ (s', ok (grid, laws.contents grid.current.storage.tensor)))
        × Restored b session s s'
  unfolding observe
  observe-eq range slot =
      go (scoped-OperationScope b session s grid body range (ap (λ r. r.0.0.budgets) body-eq))
    where
      go :
          OperationScope b session s grid body (
            (zoom (admit_operation b session) >>= λ operation.
            scoped (zoom (drop_guard b session operation)) body)
              (s, grid))
          → (s' : State b) × (observe b grid s
              ≡ (s', ok (grid, laws.contents grid.current.storage.tensor)))
            × Restored b session s s'
      go (full c q) = absurd (omega arith)
      go (ran c q) =
          (left b session s copied, rw (q, body-eq) refl, left-Restored b session s copied refl)
