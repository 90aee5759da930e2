-- ===== src/Gpu/Stored.antt =====
-- Values that are uploaded to a budget with room for them: `upload_halo`, `upload_field`, `zeros`
-- (src/gpu/cutile_impl.rs).
use gudra.Common.{
  ℕ, ◌+◌, ◌*◌, ◌≤◌, ◌<◌, ◌≡◌, refl, sym, ◌∙◌, ap, arith, F32, f32_size, f32_zero, List, length,
  replicate, length-replicate, checked_mul-eq-some,
}
use gudra.Geometry.{Shape2D}
use gudra.Error.{ok, check_len_self}
use gudra.Shape.Domain.{IsValid}
use gudra.Admission
use gudra.Admission.{Reservation, Budget}
use gudra.Admission.Decision.{
  InRange, with_buffer, BufferVerdict, buffer-BufferVerdict, large_buffer, no_room, no_slot,
  admitted,
}
use gudra.Backend.{Backend}
use gudra.Session.{Session, State, admit_buffer}
use gudra.Session.Scopes.{own_budget}
use gudra.Session.Charges.{buffer_guard, charged, Charged}
use gudra.Gpu.{
  Buffer, HaloGrid2D, Field2D, upload, upload_reserved, upload_halo, upload_field, zeros,
}
use gudra.Gpu.Around.{Holds}
use gudra.Gpu.Accepted.{Usable}
use gudra.Gpu.Transfers.{TransferLaws, Available}
use gudra.Gpu.Uploads.{
  uploaded, uploaded_state, upload_reserved-eq, uploaded-contents, uploaded-Usable, uploaded-Holds,
  uploaded-Restored,
}

module _ (b : Backend) (session : Session) (s : State b) where
  -- The budget has room for a buffer of `n` bytes, and for an operation.
  pub record Room (n : ℕ) : Type 0 where
    pub range : InRange (own_budget b session s).limits
    pub small : n ≤ (own_budget b session s).limits.buffer_bytes
    pub total :
        (own_budget b session s).usage.bytes + n ≤ (own_budget b session s).limits.total_bytes
    pub buffer : (own_budget b session s).usage.buffers < (own_budget b session s).limits.buffers
    pub slot :
        (own_budget b session s).usage.operations < (own_budget b session s).limits.operations

  pub admit_buffer-eq :
      (n : ℕ) → Room n → admit_buffer b session n s ≡ (charged b session s n, ok (buffer_guard n))
  unfolding admit_buffer
  admit_buffer-eq n room = go (buffer-BufferVerdict (own_budget b session s) n room.range)
    where
      go :
          BufferVerdict (own_budget b session s) n (Admission.buffer (own_budget b session s) n)
          → admit_buffer b session n s ≡ (charged b session s n, ok (buffer_guard n))
      go (large_buffer large q) = absurd (omega (arith, room.small))
      go (no_room fits full q) = absurd (omega (arith, room.total))
      go (no_slot fits total full q) = absurd (omega (arith, room.buffer))
      go (admitted fits total slot q) = rw q refl

module _ (b : Backend) (laws : TransferLaws b) (available : Available b) (session : Session)
    (s : State b) where
  -- A buffer that holds the values, and its charge.
  pub record Stored (shape : Shape2D) (values : List F32) (extent : ℕ × ℕ) (s' : State b)
      (buffer : Buffer b) : Type 0 where
    pub usable : Usable b session extent buffer
    pub same_shape : buffer.shape ≡ shape
    pub same_session : buffer.session ≡ session
    pub guard : buffer.reservation ≡ buffer_guard (length values * f32_size)
    pub contents : laws.contents buffer.tensor ≡ values
    pub holds : Holds b buffer.tensor extent.0 extent.1 values
    pub charge : Charged b session s (length values * f32_size) s'

  module _ (shape : Shape2D) (values : List F32) (extent : ℕ × ℕ)
      (size : length values ≡ extent.0 * extent.1)
      (room : Room b session s (length values * f32_size)) where
    abbrev n : ℕ
    n = length values * f32_size

    abbrev inside : State b
    inside = charged b session s n

    own : own_budget b session inside ≡ with_buffer (own_budget b session s) n
    own = ground arith

    range : InRange (own_budget b session inside).limits
    range = rw own room.range

    slot :
        (own_budget b session inside).usage.operations
        < (own_budget b session inside).limits.operations
    slot = rw own room.slot

    -- The copy of an upload whose buffer was admitted.
    upload_reserved-Stored :
        (s' : State b) × (buffer : Buffer b) × (upload_reserved b session shape values extent
            (buffer_guard n)
            inside
          ≡ (s', ok buffer))
        × Stored shape values extent s' buffer
    upload_reserved-Stored = (
      uploaded_state b laws available session inside range slot shape values extent (buffer_guard n)
          size,
      uploaded b laws available session inside range slot shape values extent (buffer_guard n) size,
      upload_reserved-eq b laws available session inside range slot shape values extent
          (buffer_guard n) size,
      record {
        usable =
            uploaded-Usable b laws available session inside range slot shape values extent
              (buffer_guard n) size;
        same_shape = refl;
        same_session = refl;
        guard = refl;
        contents =
            uploaded-contents b laws available session inside range slot shape values extent
              (buffer_guard n) size;
        holds =
            uploaded-Holds b laws available session inside range slot shape values extent
              (buffer_guard n) size;
        charge =
            uploaded-Restored b laws available session inside range slot shape values extent
              (buffer_guard n) size;
      },
    )

  pub upload_halo-Stored :
      (shape : Shape2D) (values : List F32)
      → IsValid shape
      → shape.haloed_len ≡ length values
      → Room b session s (length values * f32_size)
      → (s' : State b) × (grid : HaloGrid2D b) × (upload_halo b session shape values s
          ≡ (s', ok grid))
        × Stored shape values shape.haloed s' grid.storage
  unfolding upload_halo upload
  upload_halo-Stored shape values valid size room =
      let (s', buffer, e, stored) =
        upload_reserved-Stored shape values shape.haloed (sym size ∙ valid.halo_cells) room in
      let bytes = checked_mul-eq-some (length values) f32_size (omega (arith, valid.counted)) in
      (
        s',
        record { storage = buffer },
        rw (check_len_self "source" _ _ size, bytes, admit_buffer-eq b session s _ room, e) refl,
        stored,
      )

  pub upload_field-Stored :
      (shape : Shape2D) (values : List F32)
      → IsValid shape
      → shape.interior_len ≡ length values
      → Room b session s (length values * f32_size)
      → (s' : State b) × (field : Field2D b) × (upload_field b session shape values s
          ≡ (s', ok field))
        × Stored shape values shape.interior s' field.storage
  unfolding upload_field upload
  upload_field-Stored shape values valid size room =
      let (s', buffer, e, stored) =
        upload_reserved-Stored shape values shape.interior (sym size ∙ valid.cells) room in
      let bytes = checked_mul-eq-some (length values) f32_size (omega arith) in
      (
        s',
        record { storage = buffer },
        rw (check_len_self "field" _ _ size, bytes, admit_buffer-eq b session s _ room, e) refl,
        stored,
      )

  pub zeros-Stored :
      (shape : Shape2D)
      → IsValid shape
      → Room b session s (length (replicate shape.interior_len f32_zero) * f32_size)
      → (s' : State b) × (field : Field2D b) × (zeros b session shape s ≡ (s', ok field))
        × Stored shape (replicate shape.interior_len f32_zero) shape.interior s' field.storage
  unfolding zeros
  zeros-Stored shape valid room =
      let count = length-replicate shape.interior_len f32_zero in
      let (s', buffer, e, stored) =
        upload_reserved-Stored shape (replicate shape.interior_len f32_zero) shape.interior
          (count ∙ valid.cells) room in
      let bytes : shape.interior_bytes ≡ length (replicate shape.interior_len f32_zero) * f32_size =
        omega (arith, valid.bytes, count) in
      let admit : admit_buffer b session shape.interior_bytes s ≡ (
        charged b session s (length (replicate shape.interior_len f32_zero) * f32_size),
        ok (buffer_guard (length (replicate shape.interior_len f32_zero) * f32_size)),
      ) =
        ap (λ k. admit_buffer b session k s) bytes ∙ admit_buffer-eq b session s _ room in
      (s', record { storage = buffer }, rw (admit, e) refl, stored)
