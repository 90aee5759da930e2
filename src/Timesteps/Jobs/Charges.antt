-- ===== src/Timesteps/Jobs/Charges.antt =====
-- What a batch that is polled or dropped charges to the budget of its session.
use gudra.Common.{
  ℕ, zero, suc, ◌≡◌, refl, sym, subst, arith, Bool, true, false, Arithmetic, List, [], ◌∷◌, ◌++◌,
  Option, some, none, checked_add,
}
use gudra.Error.{Result, ok, err, panic}
use gudra.Admission.{Budget, Reservation}
use gudra.Backend.{Backend, Reply, done, failed, unwound, reply, Progress, in_flight, finished}
use gudra.Executor.Charges.{Polled, dropped-Polled}
use gudra.Session.{Session, State, drop_guard, bind}
use gudra.Session.Ledger.{Owes-nothing, Carries, Apart, Pays, drop_guard-Pays, scoped-Pays}
use gudra.Gpu.Jobs.Charges.{drop_buffer-Pays}
use gudra.Timesteps.{DoubleGrid, swap_completed, drop_grid}
use gudra.Timesteps.Jobs.{
  GridFrame, GridJob, unpolled, awaiting, returned, drop_frame, drop_job, Turn, fail, Rest,
  written_frame, conclude, advance_frame, poll_launch, bound, run_loop, poll,
}

module _ (b : Backend) (session : Session) where
  abbrev pub grid_guards : DoubleGrid b → List Reservation
  grid_guards g =
      g.current.storage.reservation ∷ g.next.storage.reservation ∷ g.rhs.storage.reservation ∷ []

  -- The three buffers belong to the session.
  pub record IsHomeGrid (g : DoubleGrid b) : Type 0 where
    pub current_home : g.current.storage.session ≡ session
    pub next_home : g.next.storage.session ≡ session
    pub rhs_home : g.rhs.storage.session ≡ session

  pub drop_grid-Pays :
      (g : DoubleGrid b) → IsHomeGrid g → Pays b session (drop_grid b g) (grid_guards g)
  drop_grid-Pays g home =
      let current = g.current.storage.reservation ∷ [] in
      let next = g.next.storage.reservation ∷ [] in
      let rhs = g.rhs.storage.reservation ∷ [] in
      scoped-Pays b session _ _ rhs (current ++ next)
        (drop_buffer-Pays b session g.rhs.storage home.rhs_home)
        (scoped-Pays b session _ _ next current
          (drop_buffer-Pays b session g.next.storage home.next_home)
          (drop_buffer-Pays b session g.current.storage home.current_home))

  abbrev pub frame_guards : GridFrame b → List Reservation
  frame_guards f = f.guard ∷ grid_guards f.grid

  abbrev pub IsHome : GridFrame b → Type 0
  IsHome f = (f.session ≡ session) × IsHomeGrid f.grid

  own_guard-Pays :
      (f : GridFrame b) → IsHome f → Pays b session (drop_guard b f.session f.guard) (f.guard ∷ [])
  own_guard-Pays f home =
      subst (λ k. Pays b session (drop_guard b k f.guard) (f.guard ∷ [])) (sym home.0)
        (drop_guard-Pays b session f.guard)

  pub drop_frame-Pays :
      (f : GridFrame b) → IsHome f → Pays b session (drop_frame b f) (frame_guards f)
  drop_frame-Pays f home =
      scoped-Pays b session (drop_grid b f.grid) (drop_guard b f.session f.guard)
        (grid_guards f.grid) (f.guard ∷ []) (drop_grid-Pays f.grid home.1) (own_guard-Pays f home)

  -- What a job holds, and what a poll hands out.
  abbrev pub job_guards : GridJob b → List Reservation
  job_guards (unpolled f steps) = frame_guards f
  job_guards (awaiting f steps) = frame_guards f
  job_guards returned = []

  abbrev pub result_guards : Result (DoubleGrid b) → List Reservation
  result_guards (ok g) = grid_guards g
  result_guards (err e) = []
  result_guards panic = []

  abbrev pub Home : GridJob b → Type 0
  Home (unpolled f steps) = IsHome f
  Home (awaiting f steps) = IsHome f
  Home returned = Unit

module _ (b : Backend) (session : Session) (base : Budget) (s : State b) where
  abbrev pub GridPolled : Turn b → Type 0
  GridPolled =
      Polled b session base s (job_guards b session) (result_guards b session) (Home b session)

  abbrev Held : GridFrame b → State b → Type 0
  Held f s' =
      IsHome b session f
      × Carries b session base (frame_guards b session f) s'
      × Apart b session s s'

  -- The frame after a swap.
  abbrev flipped : GridFrame b → ℕ → GridFrame b
  flipped f n = record f {
    grid = record f.grid { current = f.grid.next; next = f.grid.current; completed = n };
  }

  flipped-Held : (f : GridFrame b) (n : ℕ) (s' : State b) → Held f s' → Held (flipped f n) s'
  flipped-Held f n s' (home, carries, apart) = (
    (
      home.0,
      record {
        current_home = home.1.next_home;
        next_home = home.1.current_home;
        rhs_home = home.1.rhs_home;
      },
    ),
    record {
      limits = carries.limits;
      bytes = ground (arith, carries.bytes);
      buffers = ground (arith, carries.buffers);
      operations = ground (arith, carries.operations);
    },
    apart,
  )

  -- An early return drops the frame.
  fail-GridPolled :
      (f : GridFrame b) (x : Result (DoubleGrid b)) (s' : State b)
      → result_guards b session x ≡ []
      → Held f s'
      → GridPolled (fail b f x s')
  fail-GridPolled f x s' empty (home, carries, apart) =
      dropped-Polled b session base s (job_guards b session) (result_guards b session)
        (Home b session) returned refl tt (drop_frame b f) (frame_guards b session f) x s'
        (drop_frame-Pays b session f home)
        (subst (λ l. Carries b session base (frame_guards b session f ++ l) s') (sym empty) carries)
        apart

  module _ (m : Arithmetic) where
    abbrev KeepsCharges : Rest b m → Type 0
    KeepsCharges rest = (f : GridFrame b) (s' : State b) → Held f s' → GridPolled (rest f s')

    module _ (rest : Rest b m) (keeps : KeepsCharges rest) where
      conclude-GridPolled :
          (f : GridFrame b) (r : Result (Unit {0})) (s' : State b)
          → Held f s'
          → GridPolled (conclude b m rest f r s')
      unfolding swap_completed
      conclude-GridPolled f (err x) s' held = fail-GridPolled f (err x) s' refl held
      conclude-GridPolled f panic s' held = fail-GridPolled f panic s' refl held
      conclude-GridPolled f (ok t) s' held = go (checked_add f.grid.completed 1) refl
        where
          go :
              (x : Option ℕ)
              → checked_add f.grid.completed 1 ≡ x
              → GridPolled (conclude b m rest f (ok t) s')
          go none e = rw e (
              fail-GridPolled (flipped f f.grid.completed) panic s' refl
                (flipped-Held f f.grid.completed s' held))
          go (some total) e = rw e (keeps (flipped f total) s' (flipped-Held f total s' held))

      advance_frame-GridPolled :
          (steps : ℕ) (f : GridFrame b) (s' : State b) (p : Progress)
          → Held f s'
          → GridPolled (advance_frame b m rest steps f s' p)
      advance_frame-GridPolled steps f s' in_flight (home, carries, apart) = record {
        carries = carries;
        apart = apart;
        home = home;
      }
      advance_frame-GridPolled steps f s' (finished l) (home, carries, apart) =
          conclude-GridPolled (written_frame b m f l.ran) (reply "execute async timestep" l.ended)
            s'
            (
              (
                home.0,
                record {
                  current_home = home.1.current_home;
                  next_home = home.1.next_home;
                  rhs_home = home.1.rhs_home;
                },
              ),
              carries,
              apart,
            )

      poll_launch-GridPolled :
          (steps : ℕ) (f : GridFrame b) (submitted : Bool) (s' : State b)
          → Held f s'
          → GridPolled (poll_launch b m rest steps f submitted s')
      unfolding poll_launch
      poll_launch-GridPolled steps f submitted s' held =
          let q = b.poll_launch 1 f.grid.next.storage.tensor submitted s'.world in
          advance_frame-GridPolled steps f (record s' { world = q.0 }) q.1 held

      bound-GridPolled :
          (steps : ℕ) (f : GridFrame b) (s' : State b)
          → Held f s'
          → GridPolled (bound b m rest steps f (bind b f.session s'))
      unfolding bind
      bound-GridPolled steps f s' held = go (b.bind_to_thread f.session.ordinal s'.world).1 refl
        where
          after : State b
          after = record s' { world = (b.bind_to_thread f.session.ordinal s'.world).0 }

          go :
              (x : Reply (Unit {0}))
              → (b.bind_to_thread f.session.ordinal s'.world).1 ≡ x
              → GridPolled (bound b m rest steps f (bind b f.session s'))
          go (done t) e = rw e (poll_launch-GridPolled steps f false after held)
          go (failed x) e = rw e (fail-GridPolled f _ after refl held)
          go unwound e = rw e (fail-GridPolled f panic after refl held)

    run_loop-GridPolled : (steps : ℕ) → KeepsCharges (run_loop b m steps)
    unfolding run_loop
    run_loop-GridPolled zero f s' (home, carries, apart) =
        dropped-Polled b session base s (job_guards b session) (result_guards b session)
          (Home b session) returned refl tt (drop_guard b f.session f.guard) (f.guard ∷ [])
          (ok f.grid) s' (own_guard-Pays b session f home) carries apart
    run_loop-GridPolled (suc steps) f s' held =
        bound-GridPolled (run_loop b m steps) (run_loop-GridPolled steps) steps f s' held

    -- Whatever the backend answers, a poll moves charges only: if the budget of the session is some
    -- base with the charges of the batch, then afterwards it is the base with the charges of the
    -- batch as it then is and of the grid that the poll handed out, and other budgets are as before.
    pub poll-GridPolled :
        (job : GridJob b)
        → Home b session job
        → Carries b session base (job_guards b session job) s
        → GridPolled (poll b m job s)
    unfolding poll
    poll-GridPolled (unpolled f steps) home carries =
        run_loop-GridPolled steps f s (home, carries, λ i h. refl)
    poll-GridPolled (awaiting f steps) home carries =
        poll_launch-GridPolled (run_loop b m steps) (run_loop-GridPolled steps) steps f true s
          (home, carries, λ i h. refl)
    poll-GridPolled returned home carries = record {
      carries = carries;
      apart = λ i h. refl;
      home = tt;
    }

module _ (b : Backend) (session : Session) (base : Budget) (s : State b) where
  -- Whatever the backend answers, a batch that is dropped gives back all that it holds; before its
  -- first poll this does nothing on the device, whose state stays as it was.
  pub drop_job-GridPaid :
      (job : GridJob b)
      → Home b session job
      → Carries b session base (job_guards b session job) s
      → let r = drop_job b job s in
        (r.1 ≡ ok tt)
        × (r.0.budgets session.id ≡ base)
        × Apart b session s r.0
        × ((f : GridFrame b) (steps : ℕ) → job ≡ unpolled f steps → r.0.world ≡ s.world)
  unfolding drop_job
  drop_job-GridPaid (unpolled f steps) home carries =
      let paid = drop_frame-Pays b session f home base [] s carries in
      (paid.done, Owes-nothing base _ paid.carries, paid.apart, λ g n e. paid.quiet)
  drop_job-GridPaid (awaiting f steps) home carries =
      let paid =
        drop_frame-Pays b session f home base [] (record s { world = b.drain s.world }) carries in
      (paid.done, Owes-nothing base _ paid.carries, paid.apart, λ g n e. cc)
  drop_job-GridPaid returned home carries =
      (refl, Owes-nothing base _ carries, λ i h. refl, λ g n e. cc)
