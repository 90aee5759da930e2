-- ===== src/Gpu/Copies.antt =====
-- The copy of an upload (src/gpu/cutile_impl.rs: `upload_reserved` after its admission).
use gudra.Common.{ℕ, ◌≡◌, refl, ap, F32, List}
use gudra.Geometry.{Shape2D}
use gudra.Error.{Result, ok}
use gudra.Admission.{Reservation}
use gudra.Completion.{ready}
use gudra.Backend.{Backend, Reply, reply, done, failed, unwound}
use gudra.Session.{Run, ◌>>=◌, ◌>>◌, lift, Session, State, call, bind}
use gudra.Gpu.{Buffer}

module _ (b : Backend) (session : Session) where
  module _ (shape : Shape2D) (values : List F32) (extent : ℕ × ℕ) (reservation : Reservation) where
    abbrev pub copy : Run (State b) (Buffer b)
    copy = do
      bind b session
      flat ← call b "upload buffer" (b.copy_to_device session.ordinal values)
      tensor ← lift (reply "reshape uploaded buffer" (b.reshape flat extent.0 extent.1))
      lift (
          ok (record {
            tensor = tensor;
            shape = shape;
            session = session;
            completion = ready;
            reservation = reservation;
          }))

    -- The copy leaves the budgets alone, and its buffer has the guard and the session given.
    pub data Copied (s : State b) (r : State b × Result (Buffer b)) : Type 0 where
      copied :
          r.0.budgets ≡ s.budgets
          → ((a : Buffer b) → r.1 ≡ ok a → (a.reservation ≡ reservation) × (a.session ≡ session))
          → Copied s r

    pub copy-Copied : (s : State b) → Copied s (copy s)
    unfolding bind
    copy-Copied s = first (b.bind_to_thread session.ordinal s.world).1 refl
      where
        world : b.World
        world = (b.bind_to_thread session.ordinal s.world).0

        third :
            (t : b.Tensor)
            → (b.copy_to_device session.ordinal values world).1 ≡ done t
            → (b.bind_to_thread session.ordinal s.world).1 ≡ done tt
            → (x : Reply b.Tensor) → b.reshape t extent.0 extent.1 ≡ x
            → Copied s (copy s)
        third t q p (done u) e = rw (p, q, e) (copied refl (λ a z. (ap (λ r. r) cc, cc)))
        third t q p (failed m) e = rw (p, q, e) (copied refl (λ a z. cc))
        third t q p unwound e = rw (p, q, e) (copied refl (λ a z. cc))

        second :
            (b.bind_to_thread session.ordinal s.world).1 ≡ done tt
            → (x : Reply b.Tensor) → (b.copy_to_device session.ordinal values world).1 ≡ x
            → Copied s (copy s)
        second p (done t) q = third t q p (b.reshape t extent.0 extent.1) refl
        second p (failed m) q = rw (p, q) (copied refl (λ a z. cc))
        second p unwound q = rw (p, q) (copied refl (λ a z. cc))

        first :
            (x : Reply (Unit {0}))
            → (b.bind_to_thread session.ordinal s.world).1 ≡ x
            → Copied s (copy s)
        first (done t) p = second p (b.copy_to_device session.ordinal values world).1 refl
        first (failed m) p = rw p (copied refl (λ a z. cc))
        first unwound p = rw p (copied refl (λ a z. cc))
