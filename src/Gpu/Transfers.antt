-- ===== src/Gpu/Transfers.antt =====
-- The documented behaviour of the copies between host and device.
use gudra.Common.{ℕ, true, ◌+◌, ◌*◌, ◌<◌, ◌≡◌, F32, f32_zero, List, [], ◌∷◌, length, get_or}
use gudra.Loop.{grid}
use gudra.Backend.{Backend, done, positive, HasExtent}

-- The documented behaviour of copies: a tensor holds a list of values in row-major order; a copy to
-- the device holds the host's values, a reshape to as many cells keeps them, and a copy back
-- returns them and lets go of the tensor, whose share it consumes when it runs.
pub record TransferLaws (b : Backend) : Type 0 where
  pub contents : b.Tensor → List F32
  pub copied_contents :
      (ordinal : ℕ) (xs : List F32) (world : b.World) (t : b.Tensor)
      → (b.copy_to_device ordinal xs world).1 ≡ done t
      → contents t ≡ xs
  pub copied_device :
      (ordinal : ℕ) (xs : List F32) (world : b.World) (t : b.Tensor)
      → (b.copy_to_device ordinal xs world).1 ≡ done t
      → b.device_id t ≡ ordinal
  pub reshape : b.Tensor → ℕ → ℕ → b.Tensor
  pub reshape_done :
      (t : b.Tensor) (h w : ℕ)
      → length (contents t) ≡ h * w
      → b.reshape t h w ≡ done (reshape t h w)
  pub reshape_contents :
      (t : b.Tensor) (h w : ℕ) → length (contents t) ≡ h * w → contents (reshape t h w) ≡ contents t
  pub reshape_cell :
      (t : b.Tensor) (h w r c : ℕ)
      → length (contents t) ≡ h * w
      → r < h
      → c < w
      → b.cell (reshape t h w) r c ≡ get_or (contents t) (r * w + c) f32_zero
  pub reshape_extent : (t : b.Tensor) (h w : ℕ) → HasExtent b (reshape t h w) h w
  pub reshape_strides :
      (t : b.Tensor) (h w : ℕ) → b.strides (reshape t h w) ≡ positive w ∷ positive 1 ∷ []
  pub reshape_device : (t : b.Tensor) (h w : ℕ) → b.device_id (reshape t h w) ≡ b.device_id t
  pub read_contents :
      (t : b.Tensor) (world : b.World) (xs : List F32)
      → (b.to_host_vec t world).1 ≡ done xs
      → xs ≡ contents t
  pub read_releases :
      (t : b.Tensor) (world : b.World) (xs : List F32)
      → (b.to_host_vec t world).1 ≡ done xs
      → b.is_sole t (b.to_host_vec t world).0 ≡ true

-- The binding and the copies of the backend succeed.
pub record Available (b : Backend) : Type 0 where
  pub binds : (ordinal : ℕ) (world : b.World) → (b.bind_to_thread ordinal world).1 ≡ done tt
  pub copies :
      (ordinal : ℕ) (xs : List F32) (world : b.World)
      → (t : b.Tensor) × ((b.copy_to_device ordinal xs world).1 ≡ done t)
  pub reads :
      (t : b.Tensor) (world : b.World) → (xs : List F32) × ((b.to_host_vec t world).1 ≡ done xs)

-- The list that a tensor holds is that of its cells.
pub record RowMajor (b : Backend) (laws : TransferLaws b) : Type 0 where
  pub contents_grid :
      (t : b.Tensor) (h w : ℕ) → HasExtent b t h w → laws.contents t ≡ grid h w (b.cell t)
