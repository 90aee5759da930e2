-- ===== src/Timesteps/Construction.antt =====
-- What the construction of a grid charges (src/gpu/timesteps.rs: `double_grid`).
pub mod Uploads
use gudra.Common.{
  ℕ, ◌*◌, ◌≡◌, refl, ◌∙◌, subst, arith, F32, f32_size, List, [], ◌∷◌, length, checked_mul,
}
use gudra.Geometry.{Shape2D}
use gudra.Error.{Result, ok, err, panic, check_len, or_panic}
use gudra.Admission.{Budget, Reservation}
use gudra.Admission.Decision.{InRange}
use gudra.Backend.{Backend}
use gudra.Session.{Run, ◌>>=◌, lift, owned, Session, State, admit_buffer, drop_guard}
use gudra.Session.Charges.{buffer_guard}
use gudra.Session.Ledger.{Owes, Owes-rotated, Owes-reversed, Carries, Apart, Pays, drop_guard-Pays}
use gudra.Session.Ends.{
  Ends, fails, yields, resume-Ends, owned-Ends, admit_buffer-Ends, scoped-Ends,
}
use gudra.Gpu.{Buffer, upload_reserved}
use gudra.Gpu.Copies.{copy, Copied, copied, copy-Copied}
use gudra.Gpu.Steps.{drop_buffer}
use gudra.Gpu.Jobs.Charges.{drop_buffer-Pays}
use gudra.Timesteps.{DoubleGrid, double_grid, check_blocks}
use gudra.Timesteps.Jobs.Charges.{grid_guards, IsHomeGrid}
use gudra.Timesteps.Construction.Uploads.{
  back, IsBuilt, EndsGrid, after_forcing, after_forcing-EndsGrid,
}

-- A product that does not overflow.
multiplied : (n k product : ℕ) → or_panic (checked_mul n k) ≡ ok product → n * k ≡ product
unfolding checked_mul
multiplied n k product e = ground (arith, e)

module _ (b : Backend) (session : Session) where
  module _ (shape : Shape2D) (initial rhs : List F32) (bytes : ℕ) where
    -- The three admissions, from the last one on, and from the first one.
    abbrev after_second : Reservation → Reservation → Run (State b) (DoubleGrid b)
    after_second first second =
        owned (drop_guard b session first)
          (owned (drop_guard b session second) (admit_buffer b session shape.interior_bytes))
        >>= after_forcing b session shape initial rhs first second

    abbrev after_first : Reservation → Run (State b) (DoubleGrid b)
    after_first first =
        owned (drop_guard b session first) (admit_buffer b session bytes) >>= after_second first

module _ (b : Backend) (session : Session) (base : Budget) (s : State b)
    (range : InRange base.limits) where
  lift-Ends :
      {A : Type 0} (x : Result A) (gs : List Reservation) (s' : State b)
      → Carries b session base gs s'
      → Apart b session s s'
      → Ends b session base s gs (λ a. gs) (λ a. x ≡ ok a) (lift x s')
  lift-Ends (ok a) gs s' carries apart = yields a refl refl carries apart
  lift-Ends (err e) gs s' carries apart = fails (λ a z. cc) carries apart
  lift-Ends panic gs s' carries apart = fails (λ a z. cc) carries apart

  module _ (shape : Shape2D) (initial rhs : List F32) where
    after_second-EndsGrid :
        (first second : Reservation) (s' : State b)
        → first ≡ buffer_guard (shape.haloed_len * f32_size)
        → second ≡ buffer_guard (shape.haloed_len * f32_size)
        → Carries b session base (second ∷ first ∷ []) s'
        → Apart b session s s'
        → EndsGrid b session base s shape
            (after_second b session shape initial rhs (shape.haloed_len * f32_size) first second s')
    after_second-EndsGrid first second s' p q carries apart =
        resume-Ends b session base s [] (λ g. g ∷ second ∷ first ∷ [])
          (λ g. g ≡ buffer_guard shape.interior_bytes) (grid_guards b session)
          (IsBuilt b session shape) _ _
          (owned-Ends b session base s _ _ (drop_guard b session first) (first ∷ []) [] _
            (drop_guard-Pays b session first)
            (owned-Ends b session base s _ _ (drop_guard b session second) (second ∷ [])
              (first ∷ []) _ (drop_guard-Pays b session second)
              (admit_buffer-Ends b session base s shape.interior_bytes (second ∷ first ∷ []) s'
                range carries apart)))
          (λ forcing s'' r c a.
            after_forcing-EndsGrid b session base s range shape initial rhs first second forcing p q
              r s'' (back b session base s range (s''.budgets session.id) forcing second first c) a)

    after_first-EndsGrid :
        (first : Reservation) (s' : State b)
        → first ≡ buffer_guard (shape.haloed_len * f32_size)
        → Carries b session base (first ∷ []) s'
        → Apart b session s s'
        → EndsGrid b session base s shape
            (after_first b session shape initial rhs (shape.haloed_len * f32_size) first s')
    after_first-EndsGrid first s' p carries apart =
        resume-Ends b session base s [] (λ g. g ∷ first ∷ [])
          (λ g. g ≡ buffer_guard (shape.haloed_len * f32_size)) (grid_guards b session)
          (IsBuilt b session shape) _ _
          (owned-Ends b session base s _ _ (drop_guard b session first) (first ∷ []) [] _
            (drop_guard-Pays b session first)
            (admit_buffer-Ends b session base s (shape.haloed_len * f32_size) (first ∷ []) s' range
              carries apart))
          (λ second s'' q c a. after_second-EndsGrid first second s'' p q c a)

    -- The lengths are checked before the budget is asked.
    construction-EndsGrid :
        Carries b session base [] s
        → EndsGrid b session base s shape (double_grid b session shape initial rhs s)
    unfolding double_grid
    construction-EndsGrid carries =
        checked (check_len "source" shape.haloed_len (length initial)) s carries (λ i h. refl)
          (λ u s1 e c a.
            checked (check_len "rhs" shape.interior_len (length rhs)) s1 c a (λ u s2 e c a.
              checked
                (check_blocks (
                  ("timestep row blocks", shape.haloed.0)
                  ∷ ("timestep column blocks", shape.haloed.1)
                  ∷ []))
                s2 c a
                (λ u s3 e c a.
                  checked (or_panic (checked_mul shape.haloed_len f32_size)) s3 c a
                    (λ bytes s4 e c a.
                      subst
                        (λ k. EndsGrid b session base s shape (
                          (admit_buffer b session k >>= after_first b session shape initial rhs k)
                            s4))
                        (multiplied shape.haloed_len f32_size bytes e)
                        (resume-Ends b session base s [] (λ g. g ∷ []) _ (grid_guards b session)
                          (IsBuilt b session shape) _ _
                          (admit_buffer-Ends b session base s (shape.haloed_len * f32_size) [] s4
                            range c a)
                          (λ first s5 p c a. after_first-EndsGrid first s5 p c a))))))
      where
        checked :
            {A : Type 0} (x : Result A) (s' : State b)
            → Carries b session base [] s'
            → Apart b session s s'
            → {next : A → Run (State b) (DoubleGrid b)}
            → ((v : A) (s'' : State b)
                → x ≡ ok v
                → Carries b session base [] s''
                → Apart b session s s''
                → EndsGrid b session base s shape (next v s''))
            → EndsGrid b session base s shape ((lift x >>= next) s')
        checked x s' c a {next = next} rest =
            resume-Ends b session base s [] (λ v. []) (λ v. x ≡ ok v) (grid_guards b session)
              (IsBuilt b session shape) next (lift x s') (lift-Ends x [] s' c a) rest

module _ (b : Backend) (session : Session) (s : State b) where
  -- Under limits of type usize and whatever the backend answers, `double_grid` either fails and
  -- leaves every budget as it was, or returns a grid with the counter at zero, whose three buffers
  -- belong to the session and whose guards hold the bytes of two haloed grids and of an interior;
  -- then exactly these are charged to the session, and other budgets are as before.
  pub double_grid-EndsGrid :
      (shape : Shape2D) (initial rhs : List F32)
      → InRange (s.budgets session.id).limits
      → EndsGrid b session
          (s.budgets session.id)
          s
          shape
          (double_grid b session shape initial rhs s)
  double_grid-EndsGrid shape initial rhs range =
      construction-EndsGrid b session (s.budgets session.id) s range shape initial rhs (record {
        limits = refl;
        bytes = omega arith;
        buffers = omega arith;
        operations = omega arith;
      })
