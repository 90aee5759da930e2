-- ===== src/Gpu/Uploads.antt =====
-- A field that is uploaded and read back (src/gpu/cutile_impl.rs).
use gudra.Common.{ℕ, ◌*◌, ◌<◌, ◌≡◌, refl, ◌∙◌, ap, F32, List, length}
use gudra.Geometry.{Shape2D}
use gudra.Error.{ok}
use gudra.Admission.{Reservation}
use gudra.Admission.Decision.{InRange}
use gudra.Completion.{ready}
use gudra.Backend.{Backend, done}
use gudra.Session.{Run, Session, State, bind}
use gudra.Session.Scopes.{own_budget, entered, left, Restored, left-Restored}
use gudra.Gpu.{Buffer, upload_reserved}
use gudra.Session.Plain.{scoped_lem}
use gudra.Gpu.Around.{Holds}
use gudra.Reference.Cells.{at}
use gudra.Gpu.Accepted.{Usable}
use gudra.Gpu.Copies.{copy}
use gudra.Gpu.Transfers.{TransferLaws, Available}

module _ (b : Backend) (laws : TransferLaws b) (available : Available b) (session : Session)
    (s : State b) (range : InRange (own_budget b session s).limits)
    (slot : (own_budget b session s).usage.operations
      < (own_budget b session s).limits.operations) where
  -- The world after the binding.
  abbrev bound_world : b.World
  bound_world = (b.bind_to_thread session.ordinal s.world).0

  module _ (shape : Shape2D) (values : List F32) (extent : ℕ × ℕ) (reservation : Reservation)
      (size : length values ≡ extent.0 * extent.1) where
    abbrev copied :
        (t : b.Tensor) × ((b.copy_to_device session.ordinal values bound_world).1 ≡ done t)
    copied = available.copies session.ordinal values bound_world

    abbrev pub uploaded : Buffer b
    uploaded = record {
      tensor = laws.reshape copied.0 extent.0 extent.1;
      shape = shape;
      session = session;
      completion = ready;
      reservation = reservation;
    }

    held : laws.contents copied.0 ≡ values
    held = laws.copied_contents session.ordinal values bound_world copied.0 copied.1

    held_size : length (laws.contents copied.0) ≡ extent.0 * extent.1
    held_size = ap length held ∙ size

    -- The state afterwards.
    abbrev pub uploaded_state : State b
    uploaded_state = left b session s (record (entered b session s) {
      world = (b.copy_to_device session.ordinal values bound_world).0;
    })

    abbrev body : Run (State b) (Buffer b)
    body = copy b session shape values extent reservation

    body-eq : body (entered b session s) ≡ (
      record (entered b session s) {
        world = (b.copy_to_device session.ordinal values bound_world).0;
      },
      ok uploaded,
    )
    unfolding bind
    body-eq =
        rw
          (
            available.binds session.ordinal s.world,
            copied.1,
            laws.reshape_done copied.0 extent.0 extent.1 held_size,
          )
          refl

    pub upload_reserved-eq :
        upload_reserved b session shape values extent reservation s ≡ (uploaded_state, ok uploaded)
    unfolding upload_reserved
    upload_reserved-eq =
        rw (scoped_lem b session s body range (ap (λ r. r.0.budgets) body-eq) slot, body-eq) refl

    pub uploaded-contents : laws.contents uploaded.tensor ≡ values
    uploaded-contents = laws.reshape_contents copied.0 extent.0 extent.1 held_size ∙ held

    pub uploaded-Usable : Usable b session extent uploaded
    uploaded-Usable = record {
      is_ready = refl;
      own_session = refl;
      own_device =
          laws.reshape_device copied.0 extent.0 extent.1
          ∙ laws.copied_device session.ordinal values bound_world copied.0 copied.1;
      extents = laws.reshape_extent copied.0 extent.0 extent.1;
      row_stride = laws.reshape_strides copied.0 extent.0 extent.1;
    }

    pub uploaded-Holds : Holds b uploaded.tensor extent.0 extent.1 values
    uploaded-Holds r c hr hc =
        laws.reshape_cell copied.0 extent.0 extent.1 r c held_size hr hc
        ∙ ap (λ xs. at xs extent.1 r c) held

    pub uploaded-Restored : Restored b session s uploaded_state
    uploaded-Restored =
        left-Restored b session s
          (record (entered b session s) {
            world = (b.copy_to_device session.ordinal values bound_world).0;
          })
          refl
