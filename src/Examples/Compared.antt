-- ===== src/Examples/Compared.antt =====
-- The comparison of the device with the host (examples/poisson_timesteps.rs): a batch, its snapshot,
-- and the loop on the host.
use gudra.Common.{
  ℕ, ◌+◌, ◌*◌, ◌≤◌, ◌<◌, ◌≡◌, sym, ◌∙◌, ap, ap₂, subst, F32, f32_zero, Arithmetic, List, length,
}
use gudra.Geometry.{Shape2D, height, width}
use gudra.Error.{ok}
use gudra.Shape.Domain.{IsValid}
use gudra.Params.{JacobiParams}
use gudra.Loop.Cells.{grid_ext}
use gudra.Admission.Decision.{InRange}
use gudra.Backend.{Backend, TileLaws, PollLaws, Responsive}
use gudra.Executor.{complete}
use gudra.Session.{Run, ◌>>=◌, resume, Session, State}
use gudra.Session.Scopes.{Restored}
use gudra.Gpu.Around.{Holds}
use gudra.Gpu.Transfers.{TransferLaws, RowMajor, Available}
use gudra.Timesteps.{DoubleGrid, observe}
use gudra.Timesteps.Batch.{Advanced}
use gudra.Timesteps.Host.{host_steps, host_steps_size, evolved-host_steps}
use gudra.Timesteps.Snapshot.{observe-eq}
use gudra.Timesteps.Jobs.{advance_async, poll, drop_job}
use gudra.Timesteps.Jobs.Batch.{Starts, ran, advance_async-Advanced}
use gudra.Examples.HostLoop.{host_loop}
use gudra.Examples.HostLoop.Iterated.{host_loop-host_steps}

module _ (b : Backend) (m : Arithmetic) (params : JacobiParams) (grid : DoubleGrid b) where
  -- `complete(grid.advance_async(steps, params)?)?.observe()?`.
  unfoldable pub advance_and_observe : ℕ → ℕ → Run (State b) (DoubleGrid b × List F32)
  advance_and_observe steps polls =
      advance_async b grid steps params >>= complete (poll b m) (drop_job b) polls >>= observe b

module _ (b : Backend) (tiles : TileLaws b) (laws : PollLaws b) (responsive : Responsive b)
    (transfers : TransferLaws b) (row_major : RowMajor b transfers) (available : Available b)
    (m : Arithmetic) (params : JacobiParams) (shape : Shape2D) (valid : IsValid shape)
    (grid : DoubleGrid b) (steps polls : ℕ) (s : State b)
    (starts : Starts b (height shape) (width shape) grid steps s)
    (enough : steps * (responsive.patience + 1) ≤ polls) where
  abbrev h : ℕ
  h = height shape

  abbrev w : ℕ
  w = width shape

  abbrev session : Session
  session = grid.current.storage.session

  module _ (haloed forcing output : List F32) (source_size : shape.haloed_len ≡ length haloed)
      (rhs_size : shape.interior_len ≡ length forcing)
      (out_size : shape.interior_len ≡ length output)
      (source_holds : Holds b grid.current.storage.tensor (h + 2) (w + 2) haloed)
      (rhs_holds : Holds b grid.rhs.storage.tensor h w forcing) where
    -- A grid that holds the result of the loop has the snapshot of the loop.
    snapshot-host_steps :
        (after : DoubleGrid b) (s' : State b)
        → Advanced b m params h w grid steps s s' after
        → transfers.contents after.current.storage.tensor
          ≡ host_steps m shape forcing params steps haloed
    snapshot-host_steps after s' advanced =
        row_major.contents_grid after.current.storage.tensor (h + 2) (w + 2)
          advanced.formed.current_extent
        ∙ sym (
            grid_ext (host_steps m shape forcing params steps haloed) (h + 2) (w + 2) _ f32_zero
              (sym (host_steps_size m shape valid forcing params rhs_size steps haloed source_size)
                ∙ valid.halo_cells
                ∙ ap₂ ◌*◌ valid.halo_rows valid.halo_columns)
              (λ r c hr hc. sym (
                evolved-host_steps m shape valid forcing params rhs_size b grid steps _ haloed
                  source_size source_holds rhs_holds advanced.evolves r c hr hc)))

    -- Under the documented behaviour of tiles, polled launches and copies, on a backend that
    -- finishes its launches and copies, a batch that meets no obstacle, polled until it is ready
    -- and then observed, gives exactly the list that the loop on the host computes from the same slices,
    -- for one arithmetic on both; the loop does not panic, the counter is greater by the number of
    -- steps, and every budget is what it was before.
    pub advance_and_observe-host_loop :
        let device = advance_and_observe b m params grid steps polls s in
        let host = host_loop m shape forcing params steps (haloed, output) in
        (host.1 ≡ ok tt)
        × (after : DoubleGrid b) × (s' : State b) × (device ≡ (s', ok (after, host.0.0)))
        × (after.completed ≡ grid.completed + steps)
        × Restored b session s s'
    unfolding advance_and_observe
    advance_and_observe-host_loop =
        let (done, oracle) =
          host_loop-host_steps m shape valid forcing params rhs_size steps haloed output source_size
            out_size in
        let (after, e, advanced) =
          advance_async-Advanced b tiles laws responsive m params h w grid steps s starts polls
            enough in
        let middle = ran b tiles laws responsive m params h w grid steps s polls in
        let own : middle.0.budgets after.current.storage.session.id ≡ s.budgets session.id =
          ap (λ k. middle.0.budgets k.id) advanced.same_session ∙ advanced.restores session.id in
        let (s', observed, restored) =
          observe-eq b transfers available after middle.0
            (subst (λ k. InRange k.limits) (sym own) starts.range)
            (subst (λ k. k.usage.operations < k.limits.operations) (sym own) starts.slot) in
        (
          done,
          after,
          s',
          ap (λ r. resume (middle.0, r) (observe b)) e
              ∙ observed
              ∙ ap (λ xs. (s', ok (after, xs)))
                  (snapshot-host_steps after middle.0 advanced ∙ sym oracle),
          advanced.counts,
          λ i. restored i ∙ advanced.restores i,
        )
