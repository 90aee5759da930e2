-- ===== src/Gpu.antt =====
-- The device owners and the blocking operations (src/gpu/mod.rs, src/gpu/cutile_impl.rs).
pub mod Validation
pub mod Accepted
pub mod Views
pub mod Reads
pub mod Steps
pub mod Jobs
pub mod Outcome
pub mod Around
pub mod Unready
pub mod Written
pub mod Refinement
pub mod Laplacian
pub mod Copies
pub mod Transfers
pub mod Uploads
pub mod Stored
pub mod RoundTrip
pub mod Pipeline
pub mod Charges
pub mod StepCharges
use native.Mathlib.Decide.{ℕ_discrete}
use mathlib.Core.Logic.{ite}
use gudra.Common.{
  ℕ, ◌+◌, ◌*◌, ◌==◌, if◌then◌else◌, Bool, ◌&&◌, ◌||◌, not, true, false, String, F32, f32_zero,
  f32_size, Arithmetic, Option, none, some, List, [], ◌∷◌, length, replicate, checked_mul,
}
use gudra.Geometry.{Shape2D}
use gudra.Error.{
  Error, Result, ok, err, panic, or_panic, check_len, shape_mismatch, context_mismatch, backend,
}
use gudra.Error
use gudra.Shape.{tile}
use gudra.Limits.{ResourceLimits, default}
use gudra.Admission
use gudra.Admission.{Reservation}
use gudra.Completion.{Completion, ready, ensure_ready}
use gudra.Completion
use gudra.Params.{JacobiParams, LaplacianParams}
use gudra.Backend.{Backend, Reply, reply, I32, positive, negative, Block}
use gudra.Kernels.{jacobi, laplacian, run_blocks}
use gudra.Session.{
  Run, ◌>>=◌, ◌>>◌, lift, zoom, scoped, owned, Session, State, set_budget, call, admit_buffer,
  admit_operation, drop_guard, bind,
}

-- `PartialEq` of `Shape2D`.
unfoldable pub shape_discrete : Discrete Shape2D
shape_discrete = hlevel ℕ_discrete

-- `usize::try_from(a) == Ok(e)`.
abbrev pub equals : I32 → ℕ → Bool
equals (positive a) e = a == e
equals (negative a) e = false

abbrev pub matches_metadata : List I32 → ℕ × ℕ → Bool
matches_metadata [] expected = false
matches_metadata (a ∷ []) expected = false
matches_metadata (a ∷ c ∷ []) expected = equals a expected.0 && equals c expected.1
matches_metadata (a ∷ c ∷ d ∷ rest) expected = false

module _ (b : Backend) where
  open b use {Tensor}

  pub record Buffer : Type 0 where
    pub tensor : Tensor
    pub shape : Shape2D
    pub session : Session
    pub completion : Completion
    pub reservation : Reservation

  pub record ReadViews : Type 0 where
    pub center : Tensor
    pub north : Tensor
    pub south : Tensor
    pub east : Tensor
    pub west : Tensor

module _ (b : Backend) where
  pub record HaloGrid2D : Type 0 where
    pub storage : Buffer b

  pub record Field2D : Type 0 where
    pub storage : Buffer b

module _ (b : Backend) where
  pub record StepBuffers : Type 0 where
    pub source : HaloGrid2D b
    pub rhs : Field2D b
    pub output : Field2D b

  -- `Gpu::with_limits` and `Gpu::new`.
  unfoldable pub with_limits : ℕ → ResourceLimits → Run (State b) Session
  with_limits ordinal limits = do
    call b "create device" (b.create_device ordinal)
    call b "create stream" (b.create_stream ordinal)
    λ s. (
      record (set_budget b s s.next_session (Admission.new limits)) {
        next_session = s.next_session + 1;
      },
      ok (record { id = s.next_session; ordinal = ordinal }),
    )

  unfoldable pub new : ℕ → Run (State b) Session
  unfolding with_limits
  new ordinal = with_limits ordinal default

  unfoldable pub upload_reserved :
      Session → Shape2D → List F32 → ℕ × ℕ → Reservation → Run (State b) (Buffer b)
  upload_reserved session shape values extent reservation =
      owned (drop_guard b session reservation) do
        operation ← admit_operation b session
        scoped (drop_guard b session operation) do
          bind b session
          flat ← call b "upload buffer" (b.copy_to_device session.ordinal values)
          tensor ← lift (reply "reshape uploaded buffer" (b.reshape flat extent.0 extent.1))
          lift (
              ok (record {
                tensor = tensor;
                shape = shape;
                session = session;
                completion = ready;
                reservation = reservation;
              }))

  unfoldable pub upload : Session → Shape2D → List F32 → ℕ × ℕ → Run (State b) (Buffer b)
  upload session shape values extent = do
    bytes ← lift (or_panic (checked_mul (length values) f32_size))
    reservation ← admit_buffer b session bytes
    upload_reserved session shape values extent reservation

  unfoldable pub upload_halo : Session → Shape2D → List F32 → Run (State b) (HaloGrid2D b)
  upload_halo session shape values = do
    lift (check_len "source" shape.haloed_len (length values))
    storage ← upload session shape values shape.haloed
    lift (ok (record { storage = storage }))

  unfoldable pub upload_field : Session → Shape2D → List F32 → Run (State b) (Field2D b)
  upload_field session shape values = do
    lift (check_len "field" shape.interior_len (length values))
    storage ← upload session shape values shape.interior
    lift (ok (record { storage = storage }))

  unfoldable pub zeros : Session → Shape2D → Run (State b) (Field2D b)
  zeros session shape = do
    reservation ← admit_buffer b session shape.interior_bytes
    storage ←
        upload_reserved session shape (replicate shape.interior_len f32_zero) shape.interior
          reservation
    lift (ok (record { storage = storage }))
