-- ===== src/Gpu/Charges.antt =====
-- What uploads and steps charge to the budgets, whatever the backend answers.
use gudra.Common.{
  ℕ, ◌*◌, ◌≤◌, ◌≡◌, refl, sym, ◌∙◌, ap, subst, F32, f32_zero, f32_size, List, length, replicate,
  checked_mul-eq-some, usize_max,
}
use native.Mathlib.Decide.{ℕ_discrete}
use gudra.Geometry.{Shape2D}
use gudra.Error.{Result, ok_injective, check_len_self, check_len_ne, ok, err, panic}
use gudra.Admission.{Reservation}
use gudra.Admission.Decision.{InRange}
use gudra.Backend.{Backend}
use gudra.Session.{
  Run, resume, ◌>>=◌, lift, scoped, owned_result, Session, State, admit_buffer, admit_operation,
  drop_guard,
}
use gudra.Session.Scopes.{own_budget, entered, left-Restored, refused-Restored}
use gudra.Session.Plain.{PlainScope, full, ran, scoped-PlainScope}
use gudra.Session.Charges.{
  buffer_guard, Charged, own-Charged, Charging, nothing, owner, owned-Charging,
  admit_buffer-Charging,
}
use gudra.Gpu.{
  Buffer, Field2D, HaloGrid2D, upload_reserved, upload, upload_field, upload_halo, zeros,
}
use gudra.Gpu.Copies.{copy, Copied, copied, copy-Copied}

resume_assoc :
    {S A B C : Type 0} (r : S × Result A) (f : A → Run S B) (g : B → Run S C)
    → resume (resume r f) g ≡ resume r (λ a s. resume (f a s) g)
resume_assoc (s, ok a) f g = refl
resume_assoc (s, err e) f g = refl
resume_assoc (s, panic) f g = refl

module _ (b : Backend) (session : Session) (s : State b) where
  -- The guard and the session of the buffer of an owner.
  abbrev pub BufferCharging : ℕ → State b × Result (Buffer b) → Type 0
  BufferCharging n = Charging b session s n (λ a. a.reservation) (λ a. a.session)

  abbrev pub FieldCharging : ℕ → State b × Result (Field2D b) → Type 0
  FieldCharging n = Charging b session s n (λ a. a.storage.reservation) (λ a. a.storage.session)

  abbrev pub HaloCharging : ℕ → State b × Result (HaloGrid2D b) → Type 0
  HaloCharging n = Charging b session s n (λ a. a.storage.reservation) (λ a. a.storage.session)

  module _ (range : InRange (own_budget b session s).limits) where
    upload_reserved-BufferCharging :
        (shape : Shape2D) (values : List F32) (extent : ℕ × ℕ) (n : ℕ) (s' : State b)
        → Charged b session s n s'
        → BufferCharging n (upload_reserved b session shape values extent (buffer_guard n) s')
    unfolding upload_reserved
    upload_reserved-BufferCharging shape values extent n s' charge =
        inner (copy-Copied b session shape values extent (buffer_guard n) (entered b session s'))
      where
        body : Run (State b) (Buffer b)
        body = copy b session shape values extent (buffer_guard n)

        outcome : State b × Result (Buffer b)
        outcome =
            (admit_operation b session >>= λ operation.
            scoped (drop_guard b session operation) body)
              s'

        own_range : InRange (own_budget b session s').limits
        own_range = rw (own-Charged b session s n s' charge) range

        inner :
            Copied b session shape values extent
              (buffer_guard n)
              (entered b session s')
              (body (entered b session s'))
            → BufferCharging n (owned_result (drop_guard b session (buffer_guard n)) outcome)
        inner (copied quiet made) = go (scoped-PlainScope b session s' body own_range quiet)
          where
            go :
                PlainScope b session s' body outcome
                → BufferCharging n (owned_result (drop_guard b session (buffer_guard n)) outcome)
            go (full c q) =
                owned-Charging b session s n _ _ outcome
                  (λ i. ap (λ r. r.0.budgets i) q ∙ refused-Restored b session s' i ∙ charge i)
                  (λ a z. cc)
            go (ran c q) =
                owned-Charging b session s n _ _ outcome
                  (λ i.
                    ap (λ r. r.0.budgets i) q
                    ∙ left-Restored b session s' (body (entered b session s')).0 quiet i
                    ∙ charge i)
                  (λ a z. made a (sym (ap (λ r. r.1) q) ∙ z))

    -- An admission and the upload that it is for.
    reserved-BufferCharging :
        (shape : Shape2D) (values : List F32) (extent : ℕ × ℕ) (n : ℕ)
        → BufferCharging n
            ((admit_buffer b session n >>= upload_reserved b session shape values extent) s)
    reserved-BufferCharging shape values extent n =
        go (admit_buffer b session n s) (admit_buffer-Charging b session s n range)
      where
        go :
            (r : State b × Result Reservation)
            → Charging b session s n (λ g. g) (λ g. session) r
            → BufferCharging n (resume r (upload_reserved b session shape values extent))
        go (s', ok g) (nothing never restored) = absurd (never g refl)
        go (s', ok g) (owner a e guard home charge) =
            subst (λ g. BufferCharging n (upload_reserved b session shape values extent g s'))
              (sym (ok_injective e ∙ guard))
              (upload_reserved-BufferCharging shape values extent n s' charge)
        go (s', err x) (nothing never restored) = nothing (λ a z. cc) restored
        go (s', err x) (owner a e guard home charge) = absurd cc
        go (s', panic) (nothing never restored) = nothing (λ a z. cc) restored
        go (s', panic) (owner a e guard home charge) = absurd cc

    -- An owner around a buffer.
    wrap-Charging :
        (n : ℕ) {A : Type 0} (wrap : Buffer b → A) (guard : A → Reservation) (home : A → Session)
        → ((x : Buffer b) → guard (wrap x) ≡ x.reservation)
        → ((x : Buffer b) → home (wrap x) ≡ x.session)
        → (r : State b × Result (Buffer b)) → BufferCharging n r
        → Charging b session s n guard home (resume r (λ x. lift (ok (wrap x))))
    wrap-Charging n wrap guard home g h (s', ok x) (nothing never restored) = absurd (never x refl)
    wrap-Charging n wrap guard home g h (s', ok x) (owner a e same own charge) =
        let same_buffer = ok_injective e in
        owner (wrap x) refl (g x ∙ ap (λ y. y.reservation) same_buffer ∙ same)
          (h x ∙ ap (λ y. y.session) same_buffer ∙ own) charge
    wrap-Charging n wrap guard home g h (s', err x) (nothing never restored) =
        nothing (λ a z. cc) restored
    wrap-Charging n wrap guard home g h (s', err x) (owner a e same own charge) = absurd cc
    wrap-Charging n wrap guard home g h (s', panic) (nothing never restored) =
        nothing (λ a z. cc) restored
    wrap-Charging n wrap guard home g h (s', panic) (owner a e same own charge) = absurd cc

    -- Under limits of type `usize` and whatever the backend answers, `zeros` either fails with every
    -- budget as it was, or returns a field of the session whose guard holds the bytes of the
    -- interior, and exactly these and one buffer are charged.
    pub zeros-FieldCharging :
        (shape : Shape2D) → FieldCharging shape.interior_bytes (zeros b session shape s)
    unfolding zeros
    zeros-FieldCharging shape =
        subst (FieldCharging shape.interior_bytes)
          (resume_assoc (admit_buffer b session shape.interior_bytes s)
            (upload_reserved b session shape (replicate shape.interior_len f32_zero) shape.interior)
            (λ x. lift (ok (field_of x))))
          (wrap-Charging shape.interior_bytes field_of _ _ (λ x. refl) (λ x. refl) _
            (reserved-BufferCharging shape (replicate shape.interior_len f32_zero) shape.interior
              shape.interior_bytes))
      where
        field_of : Buffer b → Field2D b
        field_of x = record { storage = x }

    upload-BufferCharging :
        (shape : Shape2D) (values : List F32) (extent : ℕ × ℕ)
        → length values * f32_size ≤ usize_max
        → BufferCharging (length values * f32_size) (upload b session shape values extent s)
    unfolding upload
    upload-BufferCharging shape values extent fits =
        rw (checked_mul-eq-some (length values) f32_size fits)
          (reserved-BufferCharging shape values extent (length values * f32_size))

    -- Under limits of type `usize`, for values whose bytes a `usize` can count and whatever the
    -- backend answers, `upload_halo` and `upload_field` either fail with every budget as it was, or
    -- return an owner of the session whose guard holds the bytes of the values, and exactly
    -- these and one buffer are charged.
    pub uploads-Charging :
        (shape : Shape2D) (values : List F32)
        → length values * f32_size ≤ usize_max
        → HaloCharging (length values * f32_size) (upload_halo b session shape values s)
          × FieldCharging (length values * f32_size) (upload_field b session shape values s)
    unfolding upload_halo upload_field
    uploads-Charging shape values fits = (
      elim (ℕ_discrete shape.haloed_len (length values)) [
        | yes e ↦ rw (check_len_self "source" _ _ e) (
            wrap-Charging (length values * f32_size) (λ x. record { storage = x }) _ _ (λ x. refl)
              (λ x. refl) _ (upload-BufferCharging shape values shape.haloed fits))
        | no ne ↦ rw (check_len_ne "source" _ _ ne) (nothing (λ a z. cc) (λ i. refl))
      ],
      elim (ℕ_discrete shape.interior_len (length values)) [
        | yes e ↦ rw (check_len_self "field" _ _ e) (
            wrap-Charging (length values * f32_size) (λ x. record { storage = x }) _ _ (λ x. refl)
              (λ x. refl) _ (upload-BufferCharging shape values shape.interior fits))
        | no ne ↦ rw (check_len_ne "field" _ _ ne) (nothing (λ a z. cc) (λ i. refl))
      ],
    )
