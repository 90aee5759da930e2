-- ===== src/Backend.antt =====
-- The calls of cuTile and CUDA that src/gpu makes, as a parameter, and what the code relies on.
-- Every call returns a value, an error with its text, or unwinds. What a call does beyond its
-- result is in a hidden state, `World`.
use gudra.Common.{Bool, ℕ, ◌/◌, ◌%◌, ◌<◌, ◌≤◌, ◌≡◌, ◌≢◌, ◌⊎◌, F32, String, List, [], ◌∷◌}
use gudra.Error.{Result, ok, err, panic, backend}

pub data Reply {ℓ} (A : Type ℓ) : Type ℓ where
  done : A → Reply A
  failed : String → Reply A
  unwound : Reply A

-- `map_err(|e| backend(operation, e))`.
abbrev pub reply {ℓ} : {A : Type ℓ} → String → Reply A → Result A
reply operation (done a) = ok a
reply operation (failed message) = err (backend operation message)
reply operation unwound = panic

-- `i32`, as the metadata of a tensor holds it; `negative n` is -(n + 1).
pub data I32 : Type 0 where
  positive : ℕ → I32
  negative : ℕ → I32

-- Tile row and tile column of a block, and the lanes of a tile.
abbrev pub Block : Type 0
Block = ℕ × ℕ

abbrev pub Tile : Type 0
Tile = ℕ → ℕ → F32

-- How a launch ended, and the blocks that ran, in their order.
pub record Launch : Type 0 where
  pub ran : List Block
  pub ended : Reply (Unit {0})

-- What a poll of the future of a launch finds.
pub data Progress : Type 0 where
  in_flight : Progress
  finished : Launch → Progress

pub record Backend : Type 1 where
  pub World : Type 0
  -- A device allocation or a view of one.
  pub Tensor : Type 0
  pub device_id : Tensor → ℕ
  pub shape : Tensor → List I32
  pub strides : Tensor → List I32
  pub cell : Tensor → ℕ → ℕ → F32
  -- `slice` by a range of rows and a range of columns.
  pub slice : Tensor → ℕ × ℕ → ℕ × ℕ → Reply Tensor
  -- A square tile of a block, loaded and stored; the number is the side.
  pub load : ℕ → Tensor → Block → Tile
  pub store : ℕ → Tensor → Block → Tile → Tensor
  pub create_device : ℕ → World → World × Reply (Unit {0})
  pub create_stream : ℕ → World → World × Reply (Unit {0})
  pub bind_to_thread : ℕ → World → World × Reply (Unit {0})
  pub copy_to_device : ℕ → List F32 → World → World × Reply Tensor
  pub reshape : Tensor → ℕ → ℕ → Reply Tensor
  -- A launch over the tiles of an output, with the stream drained.
  pub launch : ℕ → Tensor → World → World × Launch
  -- A poll of the future of such a launch, before and after its submission, and the wait for
  -- the stream when the future is dropped after its submission.
  pub poll_launch : ℕ → Tensor → Bool → World → World × Progress
  pub drain : World → World
  pub to_host_vec : Tensor → World → World × Reply (List F32)
  -- Whether a shared tensor has no owner left but the one that asks (`Arc::try_unwrap`).
  pub is_sole : Tensor → World → Bool

-- A block is in a list.
infix 40 ◌∈◌
abbrev pub ◌∈◌ : Block → List Block → Type 0
b ∈ [] = ⊥
b ∈ a ∷ rest = (b ≡ a) ⊎ (b ∈ rest)

-- A tensor of `h` rows of `w` cells.
abbrev pub HasExtent : (b : Backend) → b.Tensor → ℕ → ℕ → Type 0
HasExtent b t h w = b.shape t ≡ positive h ∷ positive w ∷ []

-- The documented behaviour of tiles: a load reads the cells of its block, a store writes those of
-- its block that lie on the tensor and no other, and keeps the metadata.
pub record TileLaws (b : Backend) : Type 0 where
  pub load_cell :
      (n : ℕ) (t : b.Tensor) (h w r c : ℕ)
      → HasExtent b t h w
      → r < h
      → c < w
      → 0 < n
      → b.load n t (r / n, c / n) (r % n) (c % n) ≡ b.cell t r c
  pub store_own :
      (n : ℕ) (t : b.Tensor) (tile : Tile) (h w r c : ℕ)
      → HasExtent b t h w
      → r < h
      → c < w
      → 0 < n
      → b.cell (b.store n t (r / n, c / n) tile) r c ≡ tile (r % n) (c % n)
  pub store_other :
      (n : ℕ) (t : b.Tensor) (block : Block) (tile : Tile) (r c : ℕ)
      → 0 < n
      → block ≢ (r / n, c / n)
      → b.cell (b.store n t block tile) r c ≡ b.cell t r c
  pub store_shape :
      (n : ℕ) (t : b.Tensor) (block : Block) (tile : Tile)
      → b.shape (b.store n t block tile) ≡ b.shape t
  pub store_strides :
      (n : ℕ) (t : b.Tensor) (block : Block) (tile : Tile)
      → b.strides (b.store n t block tile) ≡ b.strides t
  pub store_device :
      (n : ℕ) (t : b.Tensor) (block : Block) (tile : Tile)
      → b.device_id (b.store n t block tile) ≡ b.device_id t

-- The documented behaviour of a launch: if it ended well, then every tile of the output has run.
pub record LaunchLaws (b : Backend) : Type 0 where
  pub covers :
      (n : ℕ) (t : b.Tensor) (world : b.World) (h w r c : ℕ)
      → 0 < n
      → HasExtent b t h w
      → r < h
      → c < w
      → (b.launch n t world).1.ended ≡ done tt
      → (r / n, c / n) ∈ (b.launch n t world).1.ran

-- The same of a launch whose future is polled.
pub record PollLaws (b : Backend) : Type 0 where
  pub poll_covers :
      (n : ℕ) (t : b.Tensor) (submitted : Bool) (world : b.World) (l : Launch) (h w r c : ℕ)
      → (b.poll_launch n t submitted world).1 ≡ finished l
      → 0 < n
      → HasExtent b t h w
      → r < h
      → c < w
      → l.ended ≡ done tt
      → (r / n, c / n) ∈ l.ran

-- A backend that finishes every launch well, after a number of polls that its state tells and that
-- has a bound.
pub record Responsive (b : Backend) : Type 0 where
  pub patience : ℕ
  pub polls_left : b.World → ℕ
  pub patient : (world : b.World) → polls_left world ≤ patience
  pub polls :
      (n : ℕ) (t : b.Tensor) (submitted : Bool) (world : b.World)
      → ((b.poll_launch n t submitted world).1 ≡ in_flight)
          × (polls_left (b.poll_launch n t submitted world).0 < polls_left world)
        ⊎ (l : Launch) × ((b.poll_launch n t submitted world).1 ≡ finished l) × (l.ended ≡ done tt)
