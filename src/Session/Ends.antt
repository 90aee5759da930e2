-- ===== src/Session/Ends.antt =====
-- How a computation ends for the budget of its session: with a value that owns charges, or with a
-- failure.
use gudra.Common.{ℕ, ◌≡◌, ◌≢◌, refl, sym, ◌∙◌, ap, subst, List, [], ◌∷◌, ◌++◌}
use gudra.Error.{Error, Result, ok, err, panic}
use gudra.Admission.{Budget, Reservation}
use gudra.Admission.Decision.{InRange}
use gudra.Backend.{Backend}
use gudra.Session.{
  Run, ◌>>=◌, resume, scoped, owned_result, after_drop, Session, State, admit_buffer,
  admit_operation, drop_guard,
}
use gudra.Session.Scopes.{operation_guard}
use gudra.Session.Charges.{buffer_guard}
use gudra.Session.Ledger.{
  Takes, refused, granted, admit_operation-Takes, admit_buffer-Takes, Carries, Apart, Pays,
  drop_guard-Pays, after_drop-Pays,
}

ok-ne-err : {A : Type 0} {a : A} {e : Error} → ok a ≢ err e
ok-ne-err e = cc

ok-ne-panic : {A : Type 0} {a : A} → ok a ≢ panic
ok-ne-panic e = cc

module _ (b : Backend) (session : Session) (base : Budget) (s : State b) where
  -- A failure leaves the charges of a list; a value has its own.
  pub data Ends {A : Type 0} (failing : List Reservation) (own : A → List Reservation)
      (Good : A → Type 0) (r : State b × Result A) : Type 0 where
    fails :
        ((a : A) → r.1 ≢ ok a)
        → Carries b session base failing r.0
        → Apart b session s r.0
        → Ends failing own Good r
    yields :
        (a : A)
        → r.1 ≡ ok a
        → Good a
        → Carries b session base (own a) r.0
        → Apart b session s r.0
        → Ends failing own Good r

  module _ {A B : Type 0} (failing : List Reservation) (own : A → List Reservation)
      (Good : A → Type 0) (own' : B → List Reservation) (Good' : B → Type 0) where
    -- `?` on a computation, and what follows it.
    pub resume-Ends :
        (next : A → Run (State b) B) (r : State b × Result A)
        → Ends failing own Good r
        → ((a : A) (s' : State b)
            → Good a
            → Carries b session base (own a) s'
            → Apart b session s s'
            → Ends failing own' Good' (next a s'))
        → Ends failing own' Good' (resume r next)
    resume-Ends next (s', ok a) (fails never c p) rest = absurd (never a refl)
    resume-Ends next (s', err e) (fails never c p) rest = fails (λ a z. cc) c p
    resume-Ends next (s', panic) (fails never c p) rest = fails (λ a z. cc) c p
    resume-Ends next (s', x) (yields a e good c p) rest = rw e (rest a s' good c p)

  module _ {A : Type 0} (own : A → List Reservation) (Good : A → Type 0) where
    -- A failure drops what the scope owns.
    pub owned-Ends :
        (drop : Run (State b) (Unit {0})) (gs failing : List Reservation) (r : State b × Result A)
        → Pays b session drop gs
        → Ends (gs ++ failing) own Good r
        → Ends failing own Good (owned_result drop r)
    owned-Ends drop gs failing (s', ok a) pays (fails never c p) = absurd (never a refl)
    owned-Ends drop gs failing (s', err x) pays (fails never c p) =
        let (e, c', p', w) =
          after_drop-Pays b session drop gs pays {A = A} (err x) base failing s' c in
        fails (λ a z. cc) c' (λ i h. p' i h ∙ p i h)
    owned-Ends drop gs failing (s', panic) pays (fails never c p) =
        let (e, c', p', w) =
          after_drop-Pays b session drop gs pays {A = A} panic base failing s' c in
        fails (λ a z. cc) c' (λ i h. p' i h ∙ p i h)
    owned-Ends drop gs failing (s', x) pays (yields a e good c p) = rw e (yields a refl good c p)

    -- The charges that a failure leaves, in another order.
    pub reorder-Ends :
        (failing failing' : List Reservation) (r : State b × Result A)
        → ((s' : State b) → Carries b session base failing s' → Carries b session base failing' s')
        → Ends failing own Good r
        → Ends failing' own Good r
    reorder-Ends failing failing' r order (fails never c p) = fails never (order r.0 c) p
    reorder-Ends failing failing' r order (yields a e good c p) = yields a e good c p

  -- The admission of a buffer, with any number of guards held before.
  pub admit_buffer-Ends :
      (n : ℕ) (gs : List Reservation) (s' : State b)
      → InRange base.limits
      → Carries b session base gs s'
      → Apart b session s s'
      → Ends gs (λ g. g ∷ gs) (λ g. g ≡ buffer_guard n) (admit_buffer b session n s')
  admit_buffer-Ends n gs s' range carries apart =
      go (admit_buffer b session n s') (admit_buffer-Takes b session n base gs s' range carries)
    where
      go :
          (r : State b × Result Reservation)
          → Takes b session (buffer_guard n) base gs s' r
          → Ends gs (λ g. g ∷ gs) (λ g. g ≡ buffer_guard n) r
      go (s'', x) (refused e q c a w) = fails (λ g z. cc) c (λ i h. a i h ∙ apart i h)
      go (s'', x) (granted q c a w) = yields (buffer_guard n) q refl c (λ i h. a i h ∙ apart i h)

  -- A body under the guard of an operation, whose charges do not change in it.
  pub scoped-Ends :
      {A : Type 0} (body : Run (State b) A) (gs : List Reservation) (Good : A → Type 0)
      (s' : State b)
      → InRange base.limits
      → Carries b session base gs s'
      → Apart b session s s'
      → ((inside : State b)
          → ((body inside).0.budgets ≡ inside.budgets)
            × ((a : A) → (body inside).1 ≡ ok a → Good a))
      → Ends gs
          (λ a. gs)
          Good
          ((admit_operation b session >>= λ operation. scoped (drop_guard b session operation) body)
            s')
  scoped-Ends {A = A} body gs Good s' range carries apart quiet =
      go (admit_operation b session s') (admit_operation-Takes b session base gs s' range carries)
    where
      inner :
          (g : Reservation) (s'' : State b)
          → Carries b session base (g ∷ gs) s''
          → Apart b session s s''
          → (x : Result A) → (body s'').1 ≡ x
          → Ends gs (λ a. gs) Good (scoped (drop_guard b session g) body s'')
      inner g s'' c a x e = split x e
        where
          out : State b × Result A
          out = body s''

          held : Carries b session base (g ∷ gs) out.0
          held =
              subst (λ k. Carries b session base (g ∷ gs) (record out.0 { budgets = k }))
                (sym (quiet s'').0) c

          dropped :
              (after_drop out.1 (drop_guard b session g out.0)).1 ≡ out.1
              × Carries b session base gs (after_drop out.1 (drop_guard b session g out.0)).0
              × Apart b session out.0 (after_drop out.1 (drop_guard b session g out.0)).0
              × ((after_drop out.1 (drop_guard b session g out.0)).0.world ≡ out.0.world)
          dropped =
              after_drop-Pays b session (drop_guard b session g) (g ∷ [])
                (drop_guard-Pays b session g) out.1 base gs out.0 held

          away : Apart b session s (after_drop out.1 (drop_guard b session g out.0)).0
          away i h = dropped.2 i h ∙ ap (λ k. k i) (quiet s'').0 ∙ a i h

          split :
              (x : Result A)
              → out.1 ≡ x
              → Ends gs (λ a. gs) Good (scoped (drop_guard b session g) body s'')
          split (ok v) e = yields v (dropped.0 ∙ e) ((quiet s'').1 v e) dropped.1 away
          split (err z) e = fails (λ v k. ok-ne-err (sym k ∙ dropped.0 ∙ e)) dropped.1 away
          split panic e = fails (λ v k. ok-ne-panic (sym k ∙ dropped.0 ∙ e)) dropped.1 away

      go :
          (r : State b × Result Reservation)
          → Takes b session operation_guard base gs s' r
          → Ends gs
              (λ a. gs)
              Good
              (resume r (λ operation. scoped (drop_guard b session operation) body))
      go (s'', x) (refused e q c a w) = rw q (fails (λ z k. cc) c (λ i h. a i h ∙ apart i h))
      go (s'', x) (granted q c a w) =
          rw q (inner operation_guard s'' c (λ i h. a i h ∙ apart i h) (body s'').1 refl)
