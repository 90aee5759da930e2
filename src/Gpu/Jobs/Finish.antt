-- ===== src/Gpu/Jobs/Finish.antt =====
-- A step that is polled until it is ready, on a backend that finishes its launches.
use gudra.Common.{
  ℕ, ◌/◌, ◌<◌, ◌≤◌, ◌≡◌, refl, sym, ◌∙◌, ap, subst, arith, Bool, true, false, Arithmetic, inl, inr,
}
use gudra.Error.{Result, ok}
use gudra.Shape.{tile}
use gudra.Backend.{Backend, Launch, finished, done, HasExtent, ◌∈◌, PollLaws, Responsive}
use gudra.Executor.{Poll, ready, complete, Nearer, waits, settles, complete-Ended}
use gudra.Session.{Session, State, bind, after_drop}
use gudra.Session.Scopes.{Restored}
use gudra.Session.Inside.{Inside, drop_guard-Restored}
use gudra.Gpu.{ReadViews, StepBuffers}
use gudra.Gpu.Views.{directional_views}
use gudra.Gpu.Jobs.{
  Frame, Job, unpolled, awaiting, returned, drop_job, written_frame, advance_frame, poll_frame,
  poll,
}

module _ (b : Backend) (m : Arithmetic) (session : Session) (start : State b) (f : Frame b)
    (v : ReadViews b) where
  -- The buffers of the frame, its output written by a launch that covers it.
  pub record Finished (x : Result (StepBuffers b)) (end : Job b) (s : State b) : Type 0 where
    pub left : end ≡ returned
    pub launch : Launch
    pub result :
        x
        ≡ ok (record {
          source = f.source;
          rhs = f.rhs;
          output = (written_frame b m f v launch.ran).output;
        })
    pub covers :
        (h w r c : ℕ)
        → HasExtent b f.output.storage.tensor h w
        → r < h
        → c < w
        → (r / tile, c / tile) ∈ launch.ran
    pub restored : Restored b session start s

  module _ (laws : PollLaws b) (responsive : Responsive b) (home : f.session ≡ session)
      (views : directional_views b f.source ≡ ok v) where
    open responsive use {patience, polls_left}

    -- The polls that a job still needs, and what holds between them.
    abbrev pub polls_needed : Job b → State b → ℕ
    polls_needed (unpolled g) s = patience
    polls_needed (awaiting g u) s = polls_left s.world
    polls_needed returned s = 0

    abbrev pub Proceeds : Job b → State b → Type 0
    Proceeds (unpolled g) s =
        (g ≡ f)
        × ((b.bind_to_thread f.session.ordinal s.world).1 ≡ done tt)
        × Inside b session start f.operation s.budgets
    Proceeds (awaiting g u) s = (g ≡ f) × (u ≡ v) × Inside b session start f.operation s.budgets
    Proceeds returned s = ⊥

    abbrev NearerEnd : ℕ → (State b × Job b) × Poll (StepBuffers b) → Type 0
    NearerEnd = Nearer (poll b m) (drop_job b) polls_needed Proceeds Finished

    abbrev after_launch : Launch → StepBuffers b
    after_launch l = record {
      source = f.source;
      rhs = f.rhs;
      output = (written_frame b m f v l.ran).output;
    }

    finished-NearerEnd :
        (bound : ℕ) (s : State b) (l : Launch)
        → Inside b session start f.operation s.budgets
        → l.ended ≡ done tt
        → ((h w r c : ℕ)
            → HasExtent b f.output.storage.tensor h w
            → r < h
            → c < w
            → (r / tile, c / tile) ∈ l.ran)
        → NearerEnd bound (advance_frame b m f v s (finished l))
    finished-NearerEnd bound s l inside ended covers =
        let (e, restored) =
          drop_guard-Restored b session start f.session f.operation (ok (after_launch l)) s home
            inside in
        rw ended (
          settles (ok (after_launch l)) (ap ready e) (record {
            left = refl;
            launch = l;
            result = refl;
            covers = covers;
            restored = restored;
          }))

    poll_frame-NearerEnd :
        (bound : ℕ) (submitted : Bool) (s : State b)
        → Inside b session start f.operation s.budgets
        → polls_left s.world ≤ bound
        → NearerEnd bound (poll_frame b m f v submitted s)
    unfolding poll_frame
    poll_frame-NearerEnd bound submitted s inside enough =
        elim (responsive.polls tile f.output.storage.tensor submitted s.world) [
          | inl (e, less) ↦ rw e (waits refl (refl, refl, inside) (omega arith))
          | inr (l, e, ended) ↦ rw e (
              finished-NearerEnd bound _ l inside ended (λ h w r c extent hr hc.
                laws.poll_covers tile f.output.storage.tensor submitted s.world l h w r c e
                  (omega arith) extent hr hc ended))
        ]

    poll-NearerEnd :
        (job : Job b) (s : State b)
        → Proceeds job s
        → NearerEnd (polls_needed job s) (poll b m job s)
    unfolding poll bind
    poll-NearerEnd (unpolled g) s (e, binds, inside) =
        subst (λ k. NearerEnd patience (poll b m (unpolled k) s)) (sym e)
          (rw (binds, views)
            (poll_frame-NearerEnd patience false
              (record s { world = (b.bind_to_thread f.session.ordinal s.world).0 }) inside
              (responsive.patient _)))
    poll-NearerEnd (awaiting g u) s (e, q, inside) =
        subst (λ k. NearerEnd (polls_left s.world) (poll b m (awaiting k u) s)) (sym e)
          (subst (λ k. NearerEnd (polls_left s.world) (poll b m (awaiting f k) s)) (sym q)
            (poll_frame-NearerEnd (polls_left s.world) true s inside (omega arith)))
    poll-NearerEnd returned s none = absurd none

    -- What the executor returns.
    pub complete-Finished :
        (polls : ℕ) (s : State b)
        → patience ≤ polls
        → (b.bind_to_thread f.session.ordinal s.world).1 ≡ done tt
        → Inside b session start f.operation s.budgets
        → let r = complete (poll b m) (drop_job b) polls (unpolled f) s in Finished r.1 returned r.0
    unfolding drop_job
    complete-Finished polls s enough binds inside =
        let (x, end, s', e, fin) =
          complete-Ended (poll b m) (drop_job b) polls_needed Proceeds Finished poll-NearerEnd polls
            (unpolled f) s (refl, binds, inside) enough in
        subst (λ q. Finished q.1 returned q.0)
          (sym (e ∙ ap (λ job. after_drop x (drop_job b job s')) fin.left))
          (subst (λ job. Finished x job s') fin.left fin)
