-- ===== src/Timesteps/Jobs/Finish.antt =====
-- A batch that is polled until it is ready, on a backend that finishes its launches.
use gudra.Common.{
  ℕ, zero, suc, ◌+◌, ◌*◌, ◌/◌, ◌<◌, ◌≤◌, ◌≡◌, refl, sym, ◌∙◌, ap, ap₂, subst, arith, Bool, true,
  false, F32, Arithmetic, inl, inr, i32_max, usize_max, checked_add-eq-some,
}
use gudra.Error.{Result, ok}
use gudra.Params.{JacobiParams}
use gudra.Backend.{Backend, Launch, finished, done, PollLaws, TileLaws, Responsive, ◌∈◌}
use gudra.Executor.{ready, complete, Nearer, waits, settles, complete-Ended}
use gudra.Session.{Session, State, bind, after_drop}
use gudra.Session.Scopes.{Restored}
use gudra.Session.Inside.{Inside, drop_guard-Restored}
use gudra.Timesteps.{DoubleGrid, swap_completed}
use gudra.Timesteps.Values.{next_value, evolved, Agree, evolved-Agree}
use gudra.Timesteps.Evolution.{Formed, swapped-Formed, swapped-cell}
use gudra.Timesteps.Evolution
use gudra.Timesteps.Jobs.{
  GridFrame, GridJob, unpolled, awaiting, returned, drop_job, Turn, advance_frame, poll_launch,
  run_loop, poll,
}

-- The polls that a number of steps needs at most, for launches that need up to a number of polls
-- before they are ready.
abbrev pub allowance : ℕ → ℕ → ℕ
allowance patience zero = 0
allowance patience (suc steps) = suc patience + allowance patience steps

pub allowance-eq : (patience steps : ℕ) → allowance patience steps ≡ steps * (patience + 1)
allowance-eq patience zero = omega arith
allowance-eq patience (suc steps) =
    ap (λ k. suc patience + k) (allowance-eq patience steps) ∙ omega arith

-- The cells, the counter and the forcing that a batch is to end with.
module _ (b : Backend) (m : Arithmetic) (session : Session) (start : State b)
    (params : JacobiParams) (h w : ℕ) (target : ℕ → ℕ → F32) (count : ℕ) (forcing : b.Tensor) where
  -- A frame at the top of the loop, with the steps that are left.
  pub record Halfway (steps : ℕ) (f : GridFrame b) : Type 0 where
    pub own : f.session ≡ session
    pub same_params : f.params ≡ params
    pub same_forcing : f.grid.rhs.storage.tensor ≡ forcing
    pub formed : Formed b h w f.grid
    pub counts : f.grid.completed + steps ≡ count
    pub current_session : f.grid.current.storage.session ≡ session
    pub values :
        Agree h w
          (evolved m params h w (b.cell forcing) steps (b.cell f.grid.current.storage.tensor))
          target

  -- The grid that is handed out.
  pub record Finished (x : Result (DoubleGrid b)) (end : GridJob b) (s : State b) : Type 0 where
    pub left : end ≡ returned
    pub grid : DoubleGrid b
    pub result : x ≡ ok grid
    pub counts : grid.completed ≡ count
    pub formed : Formed b h w grid
    pub current_session : grid.current.storage.session ≡ session
    pub values : Agree h w (b.cell grid.current.storage.tensor) target
    pub restored : Restored b session start s

  module _ (tiles : TileLaws b) (laws : PollLaws b) (responsive : Responsive b)
      (small : (h ≤ i32_max) × (w ≤ i32_max)) (fits : count ≤ usize_max)
      (binds : (world : b.World) → (b.bind_to_thread session.ordinal world).1 ≡ done tt) where
    open responsive use {patience, polls_left}

    abbrev pub polls_needed : GridJob b → State b → ℕ
    polls_needed (unpolled f steps) s = allowance patience steps
    polls_needed (awaiting f steps) s = polls_left s.world + allowance patience steps
    polls_needed returned s = 0

    abbrev pub Proceeds : GridJob b → State b → Type 0
    Proceeds (unpolled f steps) s = Halfway steps f × Inside b session start f.guard s.budgets
    Proceeds (awaiting f steps) s = Halfway (suc steps) f × Inside b session start f.guard s.budgets
    Proceeds returned s = ⊥

    abbrev NearerEnd : ℕ → Turn b → Type 0
    NearerEnd = Nearer (poll b m) (drop_job b) polls_needed Proceeds Finished

    -- The frame after a launch that ended well.
    abbrev flipped : GridFrame b → Launch → GridFrame b
    flipped f l = record f { grid = Evolution.swapped b m f.params f.grid l }

    flipped-Halfway :
        (steps : ℕ) (f : GridFrame b) (l : Launch)
        → Halfway (suc steps) f
        → ((r c : ℕ) → r < h + 2 → c < w + 2 → (r / 1, c / 1) ∈ l.ran)
        → Halfway steps (flipped f l)
    flipped-Halfway steps f l half covers = record {
      own = half.own;
      same_params = half.same_params;
      same_forcing = half.same_forcing;
      formed = swapped-Formed b tiles m f.params h w small f.grid l half.formed;
      counts = omega (arith, half.counts);
      current_session = half.formed.one_session ∙ half.current_session;
      values = λ r c hr hc.
          evolved-Agree m params h w (b.cell forcing) steps _ _
            (λ i j hi hj.
              swapped-cell b tiles m f.params h w small f.grid l half.formed covers i j hi hj
              ∙ ap₂
                  (λ p t. next_value m p h w (b.cell t) (b.cell f.grid.current.storage.tensor) i j)
                  half.same_params half.same_forcing)
            r c hr hc
          ∙ half.values r c hr hc;
    }

    finished-NearerEnd :
        (bound steps : ℕ) (f : GridFrame b) (s : State b) (l : Launch)
        → Halfway (suc steps) f
        → Inside b session start f.guard s.budgets
        → l.ended ≡ done tt
        → ((r c : ℕ) → r < h + 2 → c < w + 2 → (r / 1, c / 1) ∈ l.ran)
        → ((g : GridFrame b) (s' : State b)
            → Halfway steps g
            → Inside b session start g.guard s'.budgets
            → NearerEnd bound (run_loop b m steps g s'))
        → NearerEnd bound (advance_frame b m (run_loop b m steps) steps f s (finished l))
    unfolding swap_completed
    finished-NearerEnd bound steps f s l half inside ended covers rest =
        rw (ended, checked_add-eq-some f.grid.completed 1 (omega (arith, half.counts)))
          (rest (flipped f l) s (flipped-Halfway steps f l half covers) inside)

    poll_launch-NearerEnd :
        (bound steps : ℕ) (f : GridFrame b) (submitted : Bool) (s : State b)
        → Halfway (suc steps) f
        → Inside b session start f.guard s.budgets
        → polls_left s.world + allowance patience steps ≤ bound
        → ((g : GridFrame b) (s' : State b)
            → Halfway steps g
            → Inside b session start g.guard s'.budgets
            → NearerEnd bound (run_loop b m steps g s'))
        → NearerEnd bound (poll_launch b m (run_loop b m steps) steps f submitted s)
    unfolding poll_launch
    poll_launch-NearerEnd bound steps f submitted s half inside enough rest =
        elim (responsive.polls 1 f.grid.next.storage.tensor submitted s.world) [
          | inl (e, less) ↦ rw e (waits refl (half, inside) (omega arith))
          | inr (l, e, ended) ↦ rw e (
              finished-NearerEnd bound steps f _ l half inside ended
                (λ r c hr hc.
                  laws.poll_covers 1 f.grid.next.storage.tensor submitted s.world l (h + 2) (w + 2)
                    r c e (omega arith) half.formed.next_extent hr hc ended)
                rest)
        ]

    run_loop-NearerEnd :
        (steps bound : ℕ) (f : GridFrame b) (s : State b)
        → Halfway steps f
        → Inside b session start f.guard s.budgets
        → allowance patience steps ≤ bound
        → NearerEnd bound (run_loop b m steps f s)
    unfolding run_loop bind
    run_loop-NearerEnd zero bound f s half inside enough =
        let (e, restored) =
          drop_guard-Restored b session start f.session f.guard (ok f.grid) s half.own inside in
        settles (ok f.grid) (ap ready e) (record {
          left = refl;
          grid = f.grid;
          result = refl;
          counts = omega (arith, half.counts);
          formed = half.formed;
          current_session = half.current_session;
          values = half.values;
          restored = restored;
        })
    run_loop-NearerEnd (suc steps) bound f s half inside enough =
        let bound_now : (b.bind_to_thread f.session.ordinal s.world).1 ≡ done tt =
          subst (λ k. (b.bind_to_thread k.ordinal s.world).1 ≡ done tt) (sym half.own)
            (binds s.world) in
        let after = (b.bind_to_thread f.session.ordinal s.world).0 in
        let patient = responsive.patient after in
        rw bound_now (
          poll_launch-NearerEnd bound steps f false (record s { world = after }) half inside
            (omega (arith, patient))
            (λ g s' half' inside'. run_loop-NearerEnd steps bound g s' half' inside' (omega arith)))

    poll-NearerEnd :
        (job : GridJob b) (s : State b)
        → Proceeds job s
        → NearerEnd (polls_needed job s) (poll b m job s)
    unfolding poll
    poll-NearerEnd (unpolled f steps) s (half, inside) =
        run_loop-NearerEnd steps (allowance patience steps) f s half inside (omega arith)
    poll-NearerEnd (awaiting f steps) s (half, inside) =
        poll_launch-NearerEnd (polls_left s.world + allowance patience steps) steps f true s half
          inside (omega arith)
          (λ g s' half' inside'.
            run_loop-NearerEnd steps (polls_left s.world + allowance patience steps) g s' half'
              inside' (omega arith))
    poll-NearerEnd returned s never = absurd never

    -- What the executor returns.
    pub complete-Finished :
        (polls steps : ℕ) (f : GridFrame b) (s : State b)
        → allowance patience steps ≤ polls
        → Halfway steps f
        → Inside b session start f.guard s.budgets
        → let r = complete (poll b m) (drop_job b) polls (unpolled f steps) s in
          Finished r.1 returned r.0
    unfolding drop_job
    complete-Finished polls steps f s enough half inside =
        let (x, end, s', e, fin) =
          complete-Ended (poll b m) (drop_job b) polls_needed Proceeds Finished poll-NearerEnd polls
            (unpolled f steps) s (half, inside) enough in
        subst (λ q. Finished q.1 returned q.0)
          (sym (e ∙ ap (λ job. after_drop x (drop_job b job s')) fin.left))
          (subst (λ job. Finished x job s') fin.left fin)
