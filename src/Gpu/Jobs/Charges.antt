-- ===== src/Gpu/Jobs/Charges.antt =====
-- What a step that is polled or dropped charges to the budget of its session.
use gudra.Common.{◌≡◌, refl, sym, ap, subst, Bool, true, false, Arithmetic, List, [], ◌∷◌, ◌++◌}
use gudra.Error.{Result, ok, err, panic}
use gudra.Shape.{tile}
use gudra.Admission.{Budget, Reservation}
use gudra.Backend.{Backend, Reply, done, failed, unwound, reply, Progress, in_flight, finished}
use gudra.Executor.Charges.{Polled, dropped-Polled}
use gudra.Session.{◌>>◌, lift, after_drop, Session, State, drop_guard, bind}
use gudra.Session.Ledger.{Owes-nothing, Carries, Apart, Pays, drop_guard-Pays, scoped-Pays}
use gudra.Gpu.{Buffer, HaloGrid2D, Field2D, ReadViews, StepBuffers}
use gudra.Executor.{Poll}
use gudra.Gpu.Views.{directional_views}
use gudra.Gpu.Steps.{drop_buffer}
use gudra.Gpu.Jobs.{
  Frame, Job, unpolled, awaiting, returned, drop_frame, drop_job, hand_out, written_frame, conclude,
  advance_frame, poll_frame, enter_frame, poll,
}

module _ (b : Backend) (session : Session) where
  pub drop_buffer-Pays :
      (buffer : Buffer b)
      → buffer.session ≡ session
      → Pays b session (drop_buffer b buffer) (buffer.reservation ∷ [])
  drop_buffer-Pays buffer home =
      subst (λ k. Pays b session (drop_guard b k buffer.reservation) (buffer.reservation ∷ []))
        (sym home) (drop_guard-Pays b session buffer.reservation)

  -- The frame and its buffers belong to the session.
  pub record IsHome (f : Frame b) : Type 0 where
    pub frame_home : f.session ≡ session
    pub source_home : f.source.storage.session ≡ session
    pub rhs_home : f.rhs.storage.session ≡ session
    pub output_home : f.output.storage.session ≡ session

  abbrev pub buffer_guards : (source : HaloGrid2D b) (rhs output : Field2D b) → List Reservation
  buffer_guards source rhs output =
      source.storage.reservation ∷ output.storage.reservation ∷ rhs.storage.reservation ∷ []

  abbrev pub frame_guards : Frame b → List Reservation
  frame_guards f = f.operation ∷ buffer_guards f.source f.rhs f.output

  drop_frame-Pays : (f : Frame b) → IsHome f → Pays b session (drop_frame b f) (frame_guards f)
  drop_frame-Pays f home =
      let g = f.operation ∷ [] in
      let source = f.source.storage.reservation ∷ [] in
      let rhs = f.rhs.storage.reservation ∷ [] in
      let output = f.output.storage.reservation ∷ [] in
      let inner =
        scoped-Pays b session _ _ source g (drop_buffer-Pays f.source.storage home.source_home) (
          subst (λ k. Pays b session (drop_guard b k f.operation) g) (sym home.frame_home)
            (drop_guard-Pays b session f.operation)) in
      let middle =
        scoped-Pays b session _ _ output (g ++ source)
          (drop_buffer-Pays f.output.storage home.output_home) inner in
      scoped-Pays b session _ _ rhs (g ++ source ++ output)
        (drop_buffer-Pays f.rhs.storage home.rhs_home) middle

  -- What a job holds, and what a poll hands out.
  abbrev pub job_guards : Job b → List Reservation
  job_guards (unpolled f) = frame_guards f
  job_guards (awaiting f views) = frame_guards f
  job_guards returned = []

  abbrev pub result_guards : Result (StepBuffers b) → List Reservation
  result_guards (ok r) = buffer_guards r.source r.rhs r.output
  result_guards (err e) = []
  result_guards panic = []

  abbrev pub Home : Job b → Type 0
  Home (unpolled f) = IsHome f
  Home (awaiting f views) = IsHome f
  Home returned = Unit

module _ (b : Backend) (session : Session) (base : Budget) (s : State b) where
  abbrev pub JobPolled : (State b × Job b) × Poll (StepBuffers b) → Type 0
  JobPolled =
      Polled b session base s (job_guards b session) (result_guards b session) (Home b session)

  module _ (m : Arithmetic) where
    -- The frame is dropped with a result that holds no buffer.
    abandoned-JobPolled :
        (f : Frame b) (x : Result (StepBuffers b)) (s' : State b)
        → IsHome b session f
        → result_guards b session x ≡ []
        → Carries b session base (frame_guards b session f) s'
        → Apart b session s s'
        → JobPolled (hand_out b m (after_drop x (drop_frame b f s')))
    abandoned-JobPolled f x s' home none carries apart =
        dropped-Polled b session base s (job_guards b session) (result_guards b session)
          (Home b session) returned refl tt (drop_frame b f) (frame_guards b session f) x s'
          (drop_frame-Pays b session f home)
          (subst (λ l. Carries b session base (frame_guards b session f ++ l) s') (sym none)
            carries)
          apart

    conclude-JobPolled :
        (f : Frame b) (r : Result (Unit {0})) (s' : State b)
        → IsHome b session f
        → Carries b session base (frame_guards b session f) s'
        → Apart b session s s'
        → JobPolled (hand_out b m (conclude b m f r s'))
    conclude-JobPolled f (ok t) s' home carries apart =
        dropped-Polled b session base s (job_guards b session) (result_guards b session)
          (Home b session) returned refl tt (drop_guard b f.session f.operation) (f.operation ∷ [])
          (ok (record { source = f.source; rhs = f.rhs; output = f.output })) s'
          (subst (λ k. Pays b session (drop_guard b k f.operation) (f.operation ∷ []))
            (sym home.frame_home) (drop_guard-Pays b session f.operation))
          carries apart
    conclude-JobPolled f (err x) s' home carries apart =
        abandoned-JobPolled f (err x) s' home refl carries apart
    conclude-JobPolled f panic s' home carries apart =
        abandoned-JobPolled f panic s' home refl carries apart

    advance_frame-JobPolled :
        (f : Frame b) (views : ReadViews b) (s' : State b) (p : Progress)
        → IsHome b session f
        → Carries b session base (frame_guards b session f) s'
        → Apart b session s s'
        → JobPolled (advance_frame b m f views s' p)
    advance_frame-JobPolled f views s' in_flight home carries apart = record {
      carries = carries;
      apart = apart;
      home = home;
    }
    advance_frame-JobPolled f views s' (finished l) home carries apart =
        conclude-JobPolled (written_frame b m f views l.ran)
          (reply "execute async Jacobi step" l.ended) s'
          (record {
            frame_home = home.frame_home;
            source_home = home.source_home;
            rhs_home = home.rhs_home;
            output_home = home.output_home;
          })
          carries apart

    poll_frame-JobPolled :
        (f : Frame b) (views : ReadViews b) (submitted : Bool) (s' : State b)
        → IsHome b session f
        → Carries b session base (frame_guards b session f) s'
        → Apart b session s s'
        → JobPolled (poll_frame b m f views submitted s')
    unfolding poll_frame
    poll_frame-JobPolled f views submitted s' home carries apart =
        advance_frame-JobPolled f views
          (record s' { world = (b.poll_launch tile f.output.storage.tensor submitted s'.world).0 })
          (b.poll_launch tile f.output.storage.tensor submitted s'.world).1 home carries apart

    enter_frame-JobPolled :
        (f : Frame b) (q : State b × Result (ReadViews b))
        → q.0.budgets ≡ s.budgets
        → IsHome b session f
        → Carries b session base (frame_guards b session f) s
        → JobPolled (enter_frame b m f q)
    enter_frame-JobPolled f (s', ok views) same home carries =
        poll_frame-JobPolled f views false s' home
          (subst (λ g. Carries b session base (frame_guards b session f) (record s { budgets = g }))
            (sym same) carries)
          (λ i h. ap (λ g. g i) same)
    enter_frame-JobPolled f (s', err x) same home carries =
        abandoned-JobPolled f (err x) s' home refl
          (subst (λ g. Carries b session base (frame_guards b session f) (record s { budgets = g }))
            (sym same) carries)
          (λ i h. ap (λ g. g i) same)
    enter_frame-JobPolled f (s', panic) same home carries =
        abandoned-JobPolled f panic s' home refl
          (subst (λ g. Carries b session base (frame_guards b session f) (record s { budgets = g }))
            (sym same) carries)
          (λ i h. ap (λ g. g i) same)

    bind-budgets :
        (k : Session) (r : Result (ReadViews b)) → ((bind b k >> lift r) s).0.budgets ≡ s.budgets
    unfolding bind
    bind-budgets k r = go (b.bind_to_thread k.ordinal s.world).1 refl
      where
        go :
            (x : Reply (Unit {0}))
            → (b.bind_to_thread k.ordinal s.world).1 ≡ x
            → ((bind b k >> lift r) s).0.budgets ≡ s.budgets
        go (done t) e = rw e refl
        go (failed x) e = rw e refl
        go unwound e = rw e refl

    -- Whatever the backend answers, a poll moves charges only: if the budget of the session is some
    -- base with the charges of the job, then afterwards it is the base with the charges of the job
    -- as it then is and of the buffers that the poll handed out, and other budgets are as before.
    pub poll-JobPolled :
        (job : Job b)
        → Home b session job
        → Carries b session base (job_guards b session job) s
        → JobPolled (poll b m job s)
    unfolding poll
    poll-JobPolled (unpolled f) home carries =
        enter_frame-JobPolled f _ (bind-budgets f.session (directional_views b f.source)) home
          carries
    poll-JobPolled (awaiting f views) home carries =
        poll_frame-JobPolled f views true s home carries (λ i h. refl)
    poll-JobPolled returned home carries = record {
      carries = carries;
      apart = λ i h. refl;
      home = tt;
    }

module _ (b : Backend) (session : Session) (base : Budget) (s : State b) where
  -- Whatever the backend answers, a job that is dropped gives back all that it holds; before its
  -- first poll this does nothing on the device, whose state stays as it was.
  pub drop_job-Paid :
      (job : Job b)
      → Home b session job
      → Carries b session base (job_guards b session job) s
      → let r = drop_job b job s in
        (r.1 ≡ ok tt)
        × (r.0.budgets session.id ≡ base)
        × Apart b session s r.0
        × ((f : Frame b) → job ≡ unpolled f → r.0.world ≡ s.world)
  unfolding drop_job
  drop_job-Paid (unpolled f) home carries =
      let paid = drop_frame-Pays b session f home base [] s carries in
      (paid.done, Owes-nothing base _ paid.carries, paid.apart, λ g e. paid.quiet)
  drop_job-Paid (awaiting f views) home carries =
      let paid =
        drop_frame-Pays b session f home base [] (record s { world = b.drain s.world }) carries in
      (paid.done, Owes-nothing base _ paid.carries, paid.apart, λ g e. cc)
  drop_job-Paid returned home carries = (refl, Owes-nothing base _ carries, λ i h. refl, λ g e. cc)
