-- ===== src/Gpu/Outcome.antt =====
-- What `step_into` and `laplacian_into` do to the output and to the budgets, on every branch.
use gudra.Common.{◌<◌, ◌≤◌, ◌≡◌, ◌≢◌, refl, true, String, Arithmetic, some, none, List}
use gudra.Error.{Result, ok, err, panic, resource_limit}
use gudra.Shape.{tile}
use gudra.Admission.Decision.{InRange}
use gudra.Completion.{Completion, ready}
use gudra.Params.{JacobiParams, LaplacianParams}
use gudra.Backend.{Backend, Reply, Launch, Block, done, failed, unwound}
use gudra.Kernels.{run_blocks}
use gudra.Session.{
  Run, ◌>>=◌, ◌>>◌, lift, zoom, scoped, Session, State, admit_operation, drop_guard, bind,
}
use gudra.Session.Scopes.{
  entered, Restored, own_budget, left-Restored, refused-Restored, OperationScope, full, ran,
  scoped-OperationScope,
}
use gudra.Gpu.{HaloGrid2D, Field2D, ReadViews}
use gudra.Gpu.Validation.{validate_step, validate_fields}
use gudra.Gpu.Views.{directional_views}
use gudra.Gpu.Steps.{run_output, admitted_run, step_into, laplacian_into, jacobi_on, laplacian_on}

module _ (b : Backend) where
  open b use {Tensor}

  -- The output after the blocks of a list have written it, ready or not.
  abbrev pub written : Field2D b → (Block → Tensor → Tensor) → List Block → Completion → Field2D b
  written output kernel blocks completion = record {
    storage = record output.storage {
      tensor = run_blocks b kernel blocks output.storage.tensor;
      completion = completion;
    };
  }

  -- The state in which the backend is called, and the launch that it makes.
  abbrev pub bound : Session → State b → State b
  bound session s = record s { world = (b.bind_to_thread session.ordinal s.world).0 }

  abbrev pub launched : Session → State b → Field2D b → Launch
  launched session s output = (b.launch tile output.storage.tensor (bound session s).world).1

  -- The outcome of an admitted run: no launch and the output as it was, or a launch that ended
  -- badly and an output that counts as unavailable, or a completed launch and a ready output.
  pub data Outcome (session : Session) (source : HaloGrid2D b)
      (kernel : ReadViews b → Block → Tensor → Tensor) (s : State b) (output : Field2D b)
      (r : (State b × Field2D b) × Result (Unit {0})) : Type 0 where
    unbound :
        (b.bind_to_thread session.ordinal s.world).1 ≢ done tt
        → r.0.1 ≡ output
        → r.1 ≢ ok tt
        → Outcome session source kernel s output r
    unsliced :
        (e : Result (ReadViews b))
        → ((v : ReadViews b) → e ≢ ok v)
        → directional_views b source ≡ e
        → r.0.1 ≡ output
        → r.1 ≢ ok tt
        → Outcome session source kernel s output r
    interrupted :
        (v : ReadViews b)
        → directional_views b source ≡ ok v
        → (launched session s output).ended ≢ done tt
        → r.0.1
          ≡ written output (kernel v) (launched session s output).ran (record { uncertain = true })
        → r.1 ≢ ok tt
        → Outcome session source kernel s output r
    completed :
        (v : ReadViews b)
        → directional_views b source ≡ ok v
        → (b.bind_to_thread session.ordinal s.world).1 ≡ done tt
        → (launched session s output).ended ≡ done tt
        → r.0.1 ≡ written output (kernel v) (launched session s output).ran ready
        → r.1 ≡ ok tt
        → Outcome session source kernel s output r

  module _ (session : Session) (source : HaloGrid2D b) (label : String)
      (kernel : ReadViews b → Block → Tensor → Tensor) where
    abbrev body : Run (State b × Field2D b) (Unit {0})
    body = do
      zoom (bind b session)
      views ← lift (directional_views b source)
      run_output b label (kernel views)

    run_output-Outcome :
        (s : State b) (output : Field2D b) (v : ReadViews b)
        → directional_views b source ≡ ok v
        → (b.bind_to_thread session.ordinal s.world).1 ≡ done tt
        → Outcome session source kernel s output
            (run_output b label (kernel v) (bound session s, output))
    unfolding run_output
    run_output-Outcome s output v e bd = go (launched session s output).ended refl
      where
        go :
            (x : Reply (Unit {0}))
            → (launched session s output).ended ≡ x
            → Outcome session source kernel s output
                (run_output b label (kernel v) (bound session s, output))
        go (done t) p = completed v e bd p (rw p) (rw p)
        go (failed message) p = interrupted v e (λ z. cc) (rw p) (rw p (λ z. cc))
        go unwound p = interrupted v e (λ z. cc) (rw p) (rw p (λ z. cc))

    run_output-budgets :
        (v : ReadViews b) (s : State b) (output : Field2D b)
        → (run_output b label (kernel v) (s, output)).0.0.budgets ≡ s.budgets
    unfolding run_output
    run_output-budgets v s output = refl

    body-Outcome :
        (s : State b) (output : Field2D b)
        → Outcome session source kernel s output (body (s, output))
          × ((body (s, output)).0.0.budgets ≡ s.budgets)
    unfolding bind
    body-Outcome s output = go (b.bind_to_thread session.ordinal s.world).1 refl
      where
        views :
            (e : Result (ReadViews b))
            → directional_views b source ≡ e
            → (b.bind_to_thread session.ordinal s.world).1 ≡ done tt
            → Outcome session source kernel s output (
                (lift (directional_views b source) >>= λ v. run_output b label (kernel v))
                  (bound session s, output))
              × (((lift (directional_views b source) >>= λ v. run_output b label (kernel v))
                    (bound session s, output)).0.0.budgets
                  ≡ s.budgets)
        views (ok v) e bd =
            rw e (run_output-Outcome s output v e bd, run_output-budgets v (bound session s) output)
        views (err x) e bd = rw e (unsliced (err x) (λ v z. cc) e refl (λ z. cc), refl)
        views panic e bd = rw e (unsliced panic (λ v z. cc) e refl (λ z. cc), refl)

        go :
            (x : Reply (Unit {0}))
            → (b.bind_to_thread session.ordinal s.world).1 ≡ x
            → Outcome session source kernel s output (body (s, output))
              × ((body (s, output)).0.0.budgets ≡ s.budgets)
        go (done t) p = rw p (views (directional_views b source) refl p)
        go (failed message) p = rw p (unbound (λ z. cc) refl (λ z. cc), refl)
        go unwound p = rw p (unbound (λ z. cc) refl (λ z. cc), refl)

    Outcome-left :
        {s s' : State b} {output : Field2D b} {r : (State b × Field2D b) × Result (Unit {0})}
        → Outcome session source kernel s output r
        → Outcome session source kernel s output ((s', r.0.1), r.1)
    Outcome-left (unbound x o f) = unbound x o f
    Outcome-left (unsliced e n d o f) = unsliced e n d o f
    Outcome-left (interrupted v d l o f) = interrupted v d l o f
    Outcome-left (completed v d bd l o f) = completed v d bd l o f

  -- The outcome of a step: refused by the validation, refused by the admission, or admitted. The
  -- budgets of all sessions are the same afterwards.
  pub data StepOutcome (session : Session) (source : HaloGrid2D b) (valid : Result (Unit {0}))
      (kernel : ReadViews b → Block → Tensor → Tensor) (s : State b) (output : Field2D b)
      (r : (State b × Field2D b) × Result (Unit {0})) : Type 0 where
    rejected :
        valid ≢ ok tt
        → r ≡ ((s, output), valid)
        → StepOutcome session source valid kernel s output r
    busy :
        valid ≡ ok tt
        → (own_budget b session s).limits.operations ≤ (own_budget b session s).usage.operations
        → r.1 ≡ err (resource_limit "operations" (own_budget b session s).limits.operations)
        → r.0.1 ≡ output
        → Restored b session s r.0.0
        → StepOutcome session source valid kernel s output r
    admitted :
        valid ≡ ok tt
        → (own_budget b session s).usage.operations < (own_budget b session s).limits.operations
        → Outcome session source kernel (entered b session s) output r
        → Restored b session s r.0.0
        → StepOutcome session source valid kernel s output r

  module _ (session : Session) (source : HaloGrid2D b) (label : String)
      (kernel : ReadViews b → Block → Tensor → Tensor) (s : State b) (output : Field2D b)
      (range : InRange (own_budget b session s).limits) where
    guarded-StepOutcome :
        (valid : Result (Unit {0}))
        → StepOutcome session source valid kernel s output
            ((lift valid >> admitted_run b session source label kernel) (s, output))
    unfolding admitted_run
    guarded-StepOutcome (err e) = rejected (λ z. cc) refl
    guarded-StepOutcome panic = rejected (λ z. cc) refl
    guarded-StepOutcome (ok t) =
        let (inner, quiet) =
          body-Outcome session source label kernel (entered b session s) output in
        go inner quiet
          (scoped-OperationScope b session s output (body session source label kernel) range quiet)
      where
        go :
            Outcome session source kernel
              (entered b session s)
              output
              (body session source label kernel (entered b session s, output))
            → (body session source label kernel (entered b session s, output)).0.0.budgets
              ≡ (entered b session s).budgets
            → OperationScope b session s output (body session source label kernel) (
                (zoom (admit_operation b session) >>= λ operation.
                scoped (zoom (drop_guard b session operation)) (body session source label kernel))
                  (s, output))
            → StepOutcome session source (ok tt) kernel s output (
                (zoom (admit_operation b session) >>= λ operation.
                scoped (zoom (drop_guard b session operation)) (body session source label kernel))
                  (s, output))
        go inner quiet (full c q) = rw q (busy refl c refl refl (refused-Restored b session s))
        go inner quiet (ran c q) = rw q (
            admitted refl c (Outcome-left session source label kernel inner) (
              left-Restored b session s
                (body session source label kernel (entered b session s, output)).0.0 quiet))

  module _ (m : Arithmetic) (session : Session) (source : HaloGrid2D b) (s : State b)
      (output : Field2D b) where
    -- Under limits of type `usize`, `step_into` ends in one of the ways of `StepOutcome` for the Jacobi
    -- kernel. A validation error, a busy session, a failed binding or a failed view leave the
    -- output as it was; a launch that fails or unwinds leaves an output that counts as
    -- unavailable; otherwise it succeeds, and the output is ready and written by the blocks that
    -- ran. In every case the budgets of all sessions are what they were before.
    pub step_into-StepOutcome :
        (rhs : Field2D b) (params : JacobiParams)
        → InRange (own_budget b session s).limits
        → StepOutcome session source
            (validate_step b session source rhs (some output))
            (jacobi_on b m rhs params)
            s
            output
            (step_into b m session source rhs params (s, output))
    unfolding step_into
    step_into-StepOutcome rhs params range =
        guarded-StepOutcome session source "execute Jacobi step" (jacobi_on b m rhs params) s output
          range (validate_step b session source rhs (some output))

    -- Under limits of type `usize`, `laplacian_into` ends in one of the ways of `StepOutcome` for the
    -- Laplacian kernel, with the same guarantees for the output and the budgets.
    pub laplacian_into-StepOutcome :
        (params : LaplacianParams)
        → InRange (own_budget b session s).limits
        → StepOutcome session source
            (validate_fields b session source none (some output))
            (laplacian_on b m params)
            s
            output
            (laplacian_into b m session source params (s, output))
    unfolding laplacian_into
    laplacian_into-StepOutcome params range =
        guarded-StepOutcome session source "execute Laplacian" (laplacian_on b m params) s output
          range (validate_fields b session source none (some output))
