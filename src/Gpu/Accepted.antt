-- ===== src/Gpu/Accepted.antt =====
-- What a step that passes the validation may rely on.
use gudra.Common.{none, ℕ, ◌≡◌, ◌↔◌, refl, arith, true, false, String, some, List, [], ◌∷◌}
use gudra.Geometry.{Shape2D}
use gudra.Error.{Result, ok, err, panic, ◌>>◌}
use gudra.Backend.{Backend, I32, positive, negative}
use gudra.Session.{Session}
use gudra.Gpu.{Buffer, HaloGrid2D, Field2D, matches_metadata}
use gudra.Gpu.Validation.{
  check_fields, check_buffer, check_storages, validate_step, validate_fields, extent_for,
}

matches_metadata_iff :
    (xs : List I32) (e : ℕ × ℕ)
    → (matches_metadata xs e ≡ true) ↔ (xs ≡ positive e.0 ∷ positive e.1 ∷ [])
matches_metadata_iff [] e = ((λ p. cc), λ p. cc)
matches_metadata_iff (a ∷ []) e = ((λ p. cc), λ p. cc)
matches_metadata_iff (positive a ∷ positive c ∷ []) e = ((λ p. ground arith), λ p. ground arith)
matches_metadata_iff (positive a ∷ negative c ∷ []) e = ((λ p. ground arith), λ p. cc)
matches_metadata_iff (negative a ∷ c ∷ []) e = ((λ p. cc), λ p. cc)
matches_metadata_iff (a ∷ c ∷ d ∷ rest) e = ((λ p. cc), λ p. cc)

module _ (b : Backend) (session : Session) where
  -- A buffer that a step of the session can use: ready, of this session and device, with the
  -- extent and the contiguous row stride of its role.
  pub record Usable (extent : ℕ × ℕ) (buffer : Buffer b) : Type 0 where
    pub is_ready : buffer.completion.uncertain ≡ false
    pub own_session : session.id ≡ buffer.session.id
    pub own_device : b.device_id buffer.tensor ≡ session.ordinal
    pub extents : b.shape buffer.tensor ≡ positive extent.0 ∷ positive extent.1 ∷ []
    pub row_stride : b.strides buffer.tensor ≡ positive extent.1 ∷ positive 1 ∷ []

  pub check_buffer_iff :
      (shape : Shape2D) (role : String) (buffer : Buffer b)
      → (check_buffer b session shape role buffer ≡ ok tt) ↔ Usable (extent_for b shape role) buffer
  unfolding check_buffer
  check_buffer_iff shape role buffer = (
    (λ e. record {
      is_ready = ground arith;
      own_session = ground arith;
      own_device = ground arith;
      extents = shape_iff.0 (ground arith);
      row_stride = strides_iff.0 (ground arith);
    }),
    λ u. ground (arith, shape_iff.1 u.extents, strides_iff.1 u.row_stride),
  )
    where
      shape_iff : (matches_metadata (b.shape buffer.tensor) (extent_for b shape role) ≡ true) ↔ (
          b.shape buffer.tensor
          ≡ positive (extent_for b shape role).0 ∷ positive (extent_for b shape role).1 ∷ [])
      shape_iff = matches_metadata_iff (b.shape buffer.tensor) (extent_for b shape role)

      strides_iff :
          (matches_metadata (b.strides buffer.tensor) ((extent_for b shape role).1, 1) ≡ true)
          ↔ (b.strides buffer.tensor ≡ positive (extent_for b shape role).1 ∷ positive 1 ∷ [])
      strides_iff = matches_metadata_iff (b.strides buffer.tensor) ((extent_for b shape role).1, 1)

  -- The fields of a step fit its source, and all three buffers are usable.
  pub record Accepts (source : HaloGrid2D b) (rhs output : Field2D b) : Type 0 where
    pub rhs_shape : rhs.storage.shape ≡ source.storage.shape
    pub output_shape : output.storage.shape ≡ source.storage.shape
    pub source_usable : Usable source.storage.shape.haloed source.storage
    pub rhs_usable : Usable source.storage.shape.interior rhs.storage
    pub output_usable : Usable source.storage.shape.interior output.storage

  then_iff : (r t : Result (Unit {0})) → ((r >> t) ≡ ok tt) ↔ ((r ≡ ok tt) × (t ≡ ok tt))
  then_iff (ok d) t = ((λ e. (refl, e)), λ e. e.1)
  then_iff (err x) t = ((λ e. cc), λ e. cc)
  then_iff panic t = ((λ e. cc), λ e. cc)

  fields_iff :
      (shape : Shape2D) (rhs output : Field2D b)
      → (check_fields b shape (("rhs", some rhs) ∷ ("output", some output) ∷ []) ≡ ok tt)
        ↔ ((rhs.storage.shape ≡ shape) × (output.storage.shape ≡ shape))
  fields_iff shape rhs output = (forward, λ e. ground arith)
    where
      forward :
          check_fields b shape (("rhs", some rhs) ∷ ("output", some output) ∷ []) ≡ ok tt
          → (rhs.storage.shape ≡ shape) × (output.storage.shape ≡ shape)
      forward e = ground arith

  storages_iff :
      (shape : Shape2D) (source rhs output : Buffer b)
      → (check_storages b session shape
            (("source", some source) ∷ ("rhs", some rhs) ∷ ("output", some output) ∷ [])
          ≡ ok tt)
        ↔ (Usable shape.haloed source × Usable shape.interior rhs × Usable shape.interior output)
  storages_iff shape source rhs output =
      let first = check_buffer_iff shape "source" source in
      let second = check_buffer_iff shape "rhs" rhs in
      let third = check_buffer_iff shape "output" output in
      (
        (λ e.
            let (a, rest) = (then_iff _ _).0 e in
            let (c, last) = (then_iff _ _).0 rest in
            (first.0 a, second.0 c, third.0 ((then_iff _ _).0 last).0)),
        λ (a, c, d). rw (first.1 a, second.1 c, third.1 d),
      )

  -- `validate_step` lets a step with an output through exactly when both fields have the shape of
  -- the source, and the source, the right-hand side and the output are ready, belong to the
  -- session and its device, and have the extents and the row stride of their role.
  pub validate_step-eq_ok_iff :
      (source : HaloGrid2D b) (rhs output : Field2D b)
      → (validate_step b session source rhs (some output) ≡ ok tt) ↔ Accepts source rhs output
  unfolding validate_step
  validate_step-eq_ok_iff source rhs output =
      let shape = source.storage.shape in
      let fields = fields_iff shape rhs output in
      let storages = storages_iff shape source.storage rhs.storage output.storage in
      (
        (λ e.
            let (f, rest) = (then_iff _ _).0 e in
            let (p, q) = fields.0 f in
            let (u, v, t) = storages.0 rest in
            record {
              rhs_shape = p;
              output_shape = q;
              source_usable = u;
              rhs_usable = v;
              output_usable = t;
            }),
        λ a. (then_iff _ _).1 (
          fields.1 (a.rhs_shape, a.output_shape),
          storages.1 (a.source_usable, a.rhs_usable, a.output_usable),
        ),
      )

  -- The check before the allocation of an output.
  pub validate_step-eq_ok_none :
      (source : HaloGrid2D b) (rhs : Field2D b)
      → rhs.storage.shape ≡ source.storage.shape
      → Usable source.storage.shape.haloed source.storage
      → Usable source.storage.shape.interior rhs.storage
      → validate_step b session source rhs none ≡ ok tt
  unfolding validate_step
  validate_step-eq_ok_none source rhs same u v =
      let shape = source.storage.shape in
      let fields : check_fields b shape (("rhs", some rhs) ∷ ("output", none) ∷ []) ≡ ok tt =
        ground arith in
      rw (
        fields,
        (check_buffer_iff shape "source" source.storage).1 u,
        (check_buffer_iff shape "rhs" rhs.storage).1 v,
      )

  -- What `laplacian_into` accepts: the output fits the source, and both are usable.
  pub record AcceptsOutput (source : HaloGrid2D b) (output : Field2D b) : Type 0 where
    pub output_shape : output.storage.shape ≡ source.storage.shape
    pub source_usable : Usable source.storage.shape.haloed source.storage
    pub output_usable : Usable source.storage.shape.interior output.storage

  output_fields_iff :
      (shape : Shape2D) (output : Field2D b)
      → (check_fields b shape (("rhs", none) ∷ ("output", some output) ∷ []) ≡ ok tt)
        ↔ (output.storage.shape ≡ shape)
  output_fields_iff shape output = (forward, λ e. ground arith)
    where
      forward :
          check_fields b shape (("rhs", none) ∷ ("output", some output) ∷ []) ≡ ok tt
          → output.storage.shape ≡ shape
      forward e = ground arith

  output_storages_iff :
      (shape : Shape2D) (source output : Buffer b)
      → (check_storages b session shape
            (("source", some source) ∷ ("rhs", none) ∷ ("output", some output) ∷ [])
          ≡ ok tt)
        ↔ (Usable shape.haloed source × Usable shape.interior output)
  output_storages_iff shape source output =
      let first = check_buffer_iff shape "source" source in
      let second = check_buffer_iff shape "output" output in
      (
        (λ e.
            let (a, rest) = (then_iff _ _).0 e in (first.0 a, second.0 ((then_iff _ _).0 rest).0)),
        λ (a, c). rw (first.1 a, second.1 c),
      )

  -- `validate_fields` lets an output without a right-hand side through exactly when it has the shape
  -- of the source, and both are ready, belong to the session and its device, and have the extents
  -- and the row stride of their role.
  pub validate_fields-eq_ok_iff :
      (source : HaloGrid2D b) (output : Field2D b)
      → (validate_fields b session source none (some output) ≡ ok tt) ↔ AcceptsOutput source output
  unfolding validate_fields
  validate_fields-eq_ok_iff source output =
      let shape = source.storage.shape in
      let fields = output_fields_iff shape output in
      let storages = output_storages_iff shape source.storage output.storage in
      (
        (λ e.
            let (f, rest) = (then_iff _ _).0 e in
            let (u, t) = storages.0 rest in
            record { output_shape = fields.0 f; source_usable = u; output_usable = t }),
        λ a.
            (then_iff _ _).1
              (fields.1 a.output_shape, storages.1 (a.source_usable, a.output_usable)),
      )
