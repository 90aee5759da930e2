-- ===== src/Timesteps/Construction/Uploads.antt =====
-- The uploads of the construction of a grid (src/gpu/timesteps.rs: `double_grid`), under the three
-- guards.
use gudra.Common.{ℕ, ◌*◌, ◌≡◌, refl, ◌∙◌, subst, F32, f32_size, List, [], ◌∷◌}
use gudra.Geometry.{Shape2D}
use gudra.Error.{Result, ok}
use gudra.Admission.{Budget, Reservation}
use gudra.Admission.Decision.{InRange}
use gudra.Backend.{Backend}
use gudra.Session.{Run, ◌>>=◌, lift, owned, Session, State, drop_guard}
use gudra.Session.Charges.{buffer_guard}
use gudra.Session.Ledger.{Owes, Owes-rotated, Owes-reversed, Carries, Apart, Pays, drop_guard-Pays}
use gudra.Session.Ends.{Ends, yields, resume-Ends, owned-Ends, scoped-Ends}
use gudra.Gpu.{Buffer, upload_reserved}
use gudra.Gpu.Copies.{copy, Copied, copied, copy-Copied}
use gudra.Gpu.Steps.{drop_buffer}
use gudra.Gpu.Jobs.Charges.{drop_buffer-Pays}
use gudra.Timesteps.{DoubleGrid}
use gudra.Timesteps.Jobs.Charges.{grid_guards, IsHomeGrid}

module _ (b : Backend) (session : Session) where
  -- A fresh grid of the session, which owns the charges of its three buffers.
  pub record IsBuilt (shape : Shape2D) (grid : DoubleGrid b) : Type 0 where
    pub home : IsHomeGrid b session grid
    pub current_guard :
        grid.current.storage.reservation ≡ buffer_guard (shape.haloed_len * f32_size)
    pub next_guard : grid.next.storage.reservation ≡ buffer_guard (shape.haloed_len * f32_size)
    pub rhs_guard : grid.rhs.storage.reservation ≡ buffer_guard shape.interior_bytes
    pub fresh : grid.completed ≡ 0

  -- A buffer with its guard, in a session.
  abbrev pub IsOwner : Reservation → Buffer b → Type 0
  IsOwner g buffer = (buffer.reservation ≡ g) × (buffer.session ≡ session)

  owner-Pays :
      (g : Reservation) (buffer : Buffer b)
      → IsOwner g buffer
      → Pays b session (drop_buffer b buffer) (g ∷ [])
  owner-Pays g buffer (guard, home) =
      subst (λ k. Pays b session (drop_buffer b buffer) (k ∷ [])) guard
        (drop_buffer-Pays b session buffer home)

  module _ (shape : Shape2D) (initial rhs : List F32) (first second forcing : Reservation) where
    -- The construction from the last upload on, from the second one, and from the first one.
    abbrev after_next : Buffer b → Buffer b → Run (State b) (DoubleGrid b)
    after_next current next =
        owned (drop_buffer b current)
          (owned (drop_buffer b next) (upload_reserved b session shape rhs shape.interior forcing))
        >>= λ field. lift (
            ok (record {
              current = record { storage = current };
              next = record { storage = next };
              rhs = record { storage = field };
              completed = 0;
            }))

    abbrev after_current : Buffer b → Run (State b) (DoubleGrid b)
    after_current current =
        owned (drop_guard b session forcing) (
          owned (drop_buffer b current)
            (upload_reserved b session shape initial shape.haloed second))
        >>= after_next current

    abbrev pub after_forcing : Run (State b) (DoubleGrid b)
    after_forcing =
        owned (drop_guard b session second) (
          owned (drop_guard b session forcing)
            (upload_reserved b session shape initial shape.haloed first))
        >>= after_current

module _ (b : Backend) (session : Session) (base : Budget) (s : State b) where
  abbrev pub EndsGrid : Shape2D → State b × Result (DoubleGrid b) → Type 0
  EndsGrid shape = Ends b session base s [] (grid_guards b session) (IsBuilt b session shape)

module _ (b : Backend) (session : Session) (base : Budget) (s : State b)
    (range : InRange base.limits) where
  upload_reserved-Ends :
      (shape : Shape2D) (values : List F32) (extent : ℕ × ℕ) (g : Reservation)
      (gs : List Reservation) (s' : State b)
      → Carries b session base (g ∷ gs) s'
      → Apart b session s s'
      → Ends b session base s gs
          (λ buffer. g ∷ gs)
          (IsOwner b session g)
          (upload_reserved b session shape values extent g s')
  unfolding upload_reserved
  upload_reserved-Ends shape values extent g gs s' carries apart =
      owned-Ends b session base s (λ buffer. g ∷ gs) (IsOwner b session g) (drop_guard b session g)
        (g ∷ []) gs _ (drop_guard-Pays b session g)
        (scoped-Ends b session base s (copy b session shape values extent g) (g ∷ gs)
          (IsOwner b session g) s' range carries apart
          (λ inside. quiet inside (copy-Copied b session shape values extent g inside)))
    where
      quiet :
          (inside : State b)
          → Copied b session shape values extent g inside
              (copy b session shape values extent g inside)
          → ((copy b session shape values extent g inside).0.budgets ≡ inside.budgets)
            × ((a : Buffer b)
                → (copy b session shape values extent g inside).1 ≡ ok a
                → IsOwner b session g a)
      quiet inside (copied same made) = (same, made)

  abbrev pub back :
      (now : Budget) (x y z : Reservation)
      → Owes base (x ∷ y ∷ z ∷ []) now
      → Owes base (z ∷ x ∷ y ∷ []) now
  back now x y z o = Owes-rotated base now y z x (Owes-rotated base now x y z o)

  module _ (shape : Shape2D) (initial rhs : List F32) (first second forcing : Reservation)
      (first_charge : first ≡ buffer_guard (shape.haloed_len * f32_size))
      (second_charge : second ≡ buffer_guard (shape.haloed_len * f32_size))
      (forcing_charge : forcing ≡ buffer_guard shape.interior_bytes) where
    after_next-EndsGrid :
        (current next : Buffer b) (s' : State b)
        → IsOwner b session first current
        → IsOwner b session second next
        → Carries b session base (forcing ∷ second ∷ first ∷ []) s'
        → Apart b session s s'
        → EndsGrid b session base s shape
            (after_next b session shape initial rhs first second forcing current next s')
    after_next-EndsGrid current next s' mine other carries apart =
        resume-Ends b session base s [] (λ field. forcing ∷ second ∷ first ∷ [])
          (IsOwner b session forcing) (grid_guards b session) (IsBuilt b session shape) _ _
          (owned-Ends b session base s _ (IsOwner b session forcing) (drop_buffer b current)
            (first ∷ []) [] _ (owner-Pays b session first current mine)
            (owned-Ends b session base s _ (IsOwner b session forcing) (drop_buffer b next)
              (second ∷ []) (first ∷ []) _ (owner-Pays b session second next other)
              (upload_reserved-Ends shape rhs shape.interior forcing (second ∷ first ∷ []) s'
                carries apart)))
          (λ field s'' last c a.
            yields _ refl
              (record {
                home = record { current_home = mine.1; next_home = other.1; rhs_home = last.1 };
                current_guard = mine.0 ∙ first_charge;
                next_guard = other.0 ∙ second_charge;
                rhs_guard = last.0 ∙ forcing_charge;
                fresh = refl;
              })
              (owed (s''.budgets session.id) current.reservation next.reservation field.reservation
                mine.0 other.0 last.0 c)
              a)
      where
        owed :
            (now : Budget) (x y z : Reservation)
            → x ≡ first
            → y ≡ second
            → z ≡ forcing
            → Owes base (forcing ∷ second ∷ first ∷ []) now
            → Owes base (x ∷ y ∷ z ∷ []) now
        owed now x y z p q r o = rw p (rw q (rw r (Owes-reversed base now forcing second first o)))

    after_current-EndsGrid :
        (current : Buffer b) (s' : State b)
        → IsOwner b session first current
        → Carries b session base (second ∷ first ∷ forcing ∷ []) s'
        → Apart b session s s'
        → EndsGrid b session base s shape
            (after_current b session shape initial rhs first second forcing current s')
    after_current-EndsGrid current s' mine carries apart =
        resume-Ends b session base s [] (λ next. second ∷ first ∷ forcing ∷ [])
          (IsOwner b session second) (grid_guards b session) (IsBuilt b session shape) _ _
          (owned-Ends b session base s _ (IsOwner b session second) (drop_guard b session forcing)
            (forcing ∷ []) [] _ (drop_guard-Pays b session forcing)
            (owned-Ends b session base s _ (IsOwner b session second) (drop_buffer b current)
              (first ∷ []) (forcing ∷ []) _ (owner-Pays b session first current mine)
              (upload_reserved-Ends shape initial shape.haloed second (first ∷ forcing ∷ []) s'
                carries apart)))
          (λ next s'' other c a.
            after_next-EndsGrid current next s'' mine other
              (back (s''.budgets session.id) second first forcing c) a)

    pub after_forcing-EndsGrid :
        (s' : State b)
        → Carries b session base (first ∷ forcing ∷ second ∷ []) s'
        → Apart b session s s'
        → EndsGrid b session base s shape
            (after_forcing b session shape initial rhs first second forcing s')
    after_forcing-EndsGrid s' carries apart =
        resume-Ends b session base s [] (λ current. first ∷ forcing ∷ second ∷ [])
          (IsOwner b session first) (grid_guards b session) (IsBuilt b session shape) _ _
          (owned-Ends b session base s _ (IsOwner b session first) (drop_guard b session second)
            (second ∷ []) [] _ (drop_guard-Pays b session second)
            (owned-Ends b session base s _ (IsOwner b session first) (drop_guard b session forcing)
              (forcing ∷ []) (second ∷ []) _ (drop_guard-Pays b session forcing)
              (upload_reserved-Ends shape initial shape.haloed first (forcing ∷ second ∷ []) s'
                carries apart)))
          (λ current s'' mine c a.
            after_current-EndsGrid current s'' mine
              (back (s''.budgets session.id) first forcing second c) a)
