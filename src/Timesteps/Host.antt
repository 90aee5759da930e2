-- ===== src/Timesteps/Host.antt =====
-- One timestep on the device against the CPU reference.
use gudra.Common.{
  ℕ, zero, suc, ◌+◌, ◌-◌, ◌*◌, ◌≤◌, ◌<◌, ◌≡◌, refl, sym, ◌∙◌, ap, ap₂, arith, if◌then◌else◌, F32,
  f32_zero, Arithmetic, List, length, replicate, length-replicate, Bool-cases, inl, inr,
}
use gudra.Geometry.{Shape2D, height, width}
use gudra.Error.{ok}
use gudra.Shape.Domain.{IsValid}
use gudra.Params.{JacobiParams}
use gudra.Loop.{grid}
use gudra.Loop.Cells.{get_or-grid, length-grid}
use gudra.Reference
use gudra.Reference.{Stencil, jacobi_value}
use gudra.Reference.Cells.{at, stencil_at}
use gudra.Reference.Filled.{jacobi_into-grid}
use gudra.Backend.{Backend, TileLaws, LaunchLaws}
use gudra.Session.{State}
use gudra.Gpu.Around.{Holds}
use gudra.Timesteps.{DoubleGrid, advance}
use gudra.Timesteps.Values.{next_value, inside, evolved, Agree, evolved-Agree, evolved_forcing}
use gudra.Timesteps.Batch.{Ready, advance-Advanced}

-- The host's loop: `jacobi_into` on a fresh interior, which is put back between the halo.
module _ (m : Arithmetic) (shape : Shape2D) (forcing : List F32) (params : JacobiParams) where
  abbrev pub host_output : List F32 → List F32
  host_output haloed =
      (Reference.jacobi_into m shape haloed forcing (replicate shape.interior_len f32_zero)
        params).0

  abbrev pub host_step : List F32 → List F32
  host_step haloed = grid (height shape + 2) (width shape + 2) (λ r c.
      if inside (height shape) (width shape) r c
      then at (host_output haloed) (width shape) (r - 1) (c - 1)
      else at haloed (width shape + 2) r c)

  abbrev pub host_steps : ℕ → List F32 → List F32
  host_steps zero haloed = haloed
  host_steps (suc steps) haloed = host_steps steps (host_step haloed)

module _ (m : Arithmetic) (shape : Shape2D) (valid : IsValid shape) (forcing : List F32)
    (params : JacobiParams) (rhs_size : shape.interior_len ≡ length forcing) where
  abbrev h : ℕ
  h = height shape

  abbrev w : ℕ
  w = width shape

  host_output_cell :
      (haloed : List F32) (r c : ℕ)
      → shape.haloed_len ≡ length haloed
      → r < h
      → c < w
      → at (host_output m shape forcing params haloed) w r c
        ≡ jacobi_value m params (stencil_at haloed (w + 2) r c) (at forcing w r c)
  host_output_cell haloed r c size hr hc =
      ap (λ e. at e.0 w r c)
        (jacobi_into-grid m shape valid haloed (replicate shape.interior_len f32_zero) size
          (sym (length-replicate shape.interior_len f32_zero)) forcing params rhs_size)
      ∙ get_or-grid h w _ r c f32_zero hr hc

  host_step-Agree :
      (haloed : List F32)
      → shape.haloed_len ≡ length haloed
      → Agree h w
          (at (host_step m shape forcing params haloed) (w + 2))
          (next_value m params h w (at forcing w) (at haloed (w + 2)))
  host_step-Agree haloed size r c hr hc =
      get_or-grid (h + 2) (w + 2) _ r c f32_zero hr hc ∙ elim (Bool-cases (inside h w r c)) [
        | inr halo ↦ rw halo refl
        | inl interior ↦
            let above : 0 < r = ground arith in
            let below : r ≤ h = ground arith in
            let after : 0 < c = ground arith in
            let before : c ≤ w = ground arith in
            rw interior (
              host_output_cell haloed (r - 1) (c - 1) size (omega arith) (omega arith)
              ∙ ap (λ s. jacobi_value m params s (at forcing w (r - 1) (c - 1)))
                  (same_stencil haloed r c above after))
      ]
    where
      same_stencil :
          (haloed : List F32) (r c : ℕ)
          → 0 < r
          → 0 < c
          → stencil_at haloed (w + 2) (r - 1) (c - 1) ≡ record {
            north = at haloed (w + 2) (r - 1) c;
            south = at haloed (w + 2) (r + 1) c;
            east = at haloed (w + 2) r (c + 1);
            west = at haloed (w + 2) r (c - 1);
            center = at haloed (w + 2) r c;
          }
      same_stencil haloed r c above after =
          let row : r - 1 + 1 ≡ r = omega arith in
          let next_row : r - 1 + 2 ≡ r + 1 = omega arith in
          let column : c - 1 + 1 ≡ c = omega arith in
          let next_column : c - 1 + 2 ≡ c + 1 = omega arith in
          rw (row, next_row, column, next_column) refl

  pub host_size :
      (haloed : List F32) → shape.haloed_len ≡ length (host_step m shape forcing params haloed)
  host_size haloed =
      valid.halo_cells
      ∙ ap₂ ◌*◌ valid.halo_rows valid.halo_columns
      ∙ sym (length-grid (h + 2) (w + 2) _)

  pub host_steps-Agree :
      (steps : ℕ) (haloed : List F32)
      → shape.haloed_len ≡ length haloed
      → Agree h w
          (at (host_steps m shape forcing params steps haloed) (w + 2))
          (evolved m params h w (at forcing w) steps (at haloed (w + 2)))
  host_steps-Agree zero haloed size r c hr hc = refl
  host_steps-Agree (suc steps) haloed size r c hr hc =
      host_steps-Agree steps (host_step m shape forcing params haloed) (host_size haloed) r c hr hc
      ∙ evolved-Agree m params h w (at forcing w) steps _ _ (host_step-Agree haloed size) r c hr hc

  pub host_steps_size :
      (steps : ℕ) (haloed : List F32)
      → shape.haloed_len ≡ length haloed
      → shape.haloed_len ≡ length (host_steps m shape forcing params steps haloed)
  host_steps_size zero haloed size = size
  host_steps_size (suc steps) haloed size =
      host_steps_size steps (host_step m shape forcing params haloed) (host_size haloed)

  -- Cells that evolved from those of a host slice are those of the host's loop.
  pub evolved-host_steps :
      (b : Backend) (grid : DoubleGrid b) (steps : ℕ) (u : ℕ → ℕ → F32) (haloed : List F32)
      → shape.haloed_len ≡ length haloed
      → Holds b grid.current.storage.tensor (h + 2) (w + 2) haloed
      → Holds b grid.rhs.storage.tensor h w forcing
      → Agree h w u (
          evolved m params h w
            (b.cell grid.rhs.storage.tensor)
            steps
            (b.cell grid.current.storage.tensor))
      → Agree h w u (at (host_steps m shape forcing params steps haloed) (w + 2))
  evolved-host_steps b grid steps u haloed size holds rhs_holds evolves r c hr hc =
      evolves r c hr hc
      ∙ evolved_forcing m params h w _ _ rhs_holds steps _ r c hr hc
      ∙ evolved-Agree m params h w (at forcing w) steps _ _ holds r c hr hc
      ∙ sym (host_steps-Agree steps haloed size r c hr hc)

module _ (b : Backend) (tiles : TileLaws b) (launches : LaunchLaws b) (m : Arithmetic)
    (params : JacobiParams) (shape : Shape2D) (valid : IsValid shape) (grid : DoubleGrid b)
    (steps : ℕ) (s : State b) (ready : Ready b (height shape) (width shape) grid steps s)
    (haloed forcing : List F32) (source_size : shape.haloed_len ≡ length haloed)
    (rhs_size : shape.interior_len ≡ length forcing)
    (source_holds : Holds b grid.current.storage.tensor (height shape + 2) (width shape + 2) haloed)
    (rhs_holds : Holds b grid.rhs.storage.tensor (height shape) (width shape) forcing) where
  -- Under the documented behaviour of tiles and launches, a batch of timesteps that meets no
  -- obstacle, from a grid and a forcing that hold two host slices, returns a grid that holds what the
  -- host's loop makes of them with `jacobi_into`, for one arithmetic on both.
  pub advance-host_steps :
      (s' : State b) × (after : DoubleGrid b) × (advance b m grid steps params s ≡ (s', ok after))
      × Holds b after.current.storage.tensor
          (height shape + 2)
          (width shape + 2)
          (host_steps m shape forcing params steps haloed)
  advance-host_steps =
      let (s', after, e, advanced) =
        advance-Advanced b tiles launches m params (height shape) (width shape) grid steps s
          ready in
      (
        s',
        after,
        e,
        evolved-host_steps m shape valid forcing params rhs_size b grid steps _ haloed source_size
            source_holds rhs_holds advanced.evolves,
      )
