-- ===== src/Gpu/Validation.antt =====
-- The checks before a step: `validate_fields`, `validate_step` (src/gpu/cutile_impl.rs).
use mathlib.Core.Logic.{ite}
use text.Mathlib.Text.{◌==◌ as str_eq}
use Prim.Native.String.{◌++◌}
use gudra.Common.{ℕ, ◌==◌, if◌then◌else◌, ◌||◌, not, String, Option, none, some, List, [], ◌∷◌}
use gudra.Geometry.{Shape2D}
use gudra.Error.{Result, ok, err, ◌>>◌, shape_mismatch, context_mismatch, backend}
use gudra.Completion.{ensure_ready}
use gudra.Backend.{Backend}
use gudra.Session.{Session}
use gudra.Gpu.{Buffer, HaloGrid2D, Field2D, shape_discrete, matches_metadata}

module _ (b : Backend) where
  -- The loop over the shapes of the fields that are given.
  abbrev pub check_fields : Shape2D → List (String × Option (Field2D b)) → Result (Unit {0})
  check_fields shape [] = ok tt
  check_fields shape ((role, none) ∷ rest) = check_fields shape rest
  check_fields shape ((role, some field) ∷ rest) =
      ite (shape_discrete field.storage.shape shape) (check_fields shape rest)
        (err (shape_mismatch role shape field.storage.shape))

  -- The extent that a role must have.
  abbrev pub extent_for : Shape2D → String → ℕ × ℕ
  extent_for shape role = if str_eq role "source" then shape.haloed else shape.interior

  unfoldable pub check_metadata : Session → Shape2D → String → Buffer b → Result (Unit {0})
  check_metadata session shape role buffer =
      let extent = extent_for shape role in
      if not (b.device_id buffer.tensor == session.ordinal)
        || not (matches_metadata (b.shape buffer.tensor) extent)
        || not (matches_metadata (b.strides buffer.tensor) (extent.1, 1))
      then err
          (backend "validate tensor metadata" (role ++ " shape/stride/device invariant failed"))
      else ok tt

  unfoldable pub check_buffer : Session → Shape2D → String → Buffer b → Result (Unit {0})
  unfolding check_metadata ensure_ready
  check_buffer session shape role buffer = do
    ensure_ready buffer.completion role
    if not (session.id == buffer.session.id)
        then err (context_mismatch role)
        else check_metadata session shape role buffer

  -- The loop over the storages that are given.
  abbrev pub check_storages :
      Session → Shape2D → List (String × Option (Buffer b)) → Result (Unit {0})
  check_storages session shape [] = ok tt
  check_storages session shape ((role, none) ∷ rest) = check_storages session shape rest
  check_storages session shape ((role, some buffer) ∷ rest) =
      check_buffer session shape role buffer >> check_storages session shape rest

  abbrev pub storage_of : Option (Field2D b) → Option (Buffer b)
  storage_of none = none
  storage_of (some field) = some field.storage

  unfoldable pub validate_fields :
      Session → HaloGrid2D b → Option (Field2D b) → Option (Field2D b) → Result (Unit {0})
  validate_fields session source rhs output = do
    let shape = source.storage.shape
    check_fields shape (("rhs", rhs) ∷ ("output", output) ∷ [])
    check_storages session shape (
        ("source", some source.storage)
        ∷ ("rhs", storage_of rhs)
        ∷ ("output", storage_of output)
        ∷ [])

  unfoldable pub validate_step :
      Session → HaloGrid2D b → Field2D b → Option (Field2D b) → Result (Unit {0})
  unfolding validate_fields
  validate_step session source rhs output = validate_fields session source (some rhs) output
