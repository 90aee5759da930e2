-- ===== src/Completion.antt =====
-- The readiness of an output that a backend call may have left half written (src/completion.rs).
use gudra.Common.{Bool, true, false, if◌then◌else◌, String, ◌≡◌, refl, ◌↔◌, ◌≢◌}
use gudra.Error.{Result, ok, err, panic, invalid_buffer}

pub record Completion : Type 0 where
  pub uncertain : Bool

-- `Completion::default`.
abbrev pub ready : Completion
ready = record { uncertain = false }

unfoldable pub ensure_ready : Completion → String → Result (Unit {0})
ensure_ready c buffer = if c.uncertain then err (invalid_buffer buffer) else ok tt

-- What follows `operation()?`: the flag is cleared on success only. An error returns before, and a
-- panic unwinds before.
abbrev pub settle : Completion → Result (Unit {0}) → Completion
settle c (ok done) = record c { uncertain = false }
settle c (err e) = c
settle c panic = c

-- `Completion::run`. The operation acts on a state of its own, such as the tensor it writes.
unfoldable pub run {ℓ} :
    {S : Type ℓ}
    → (S → S × Result (Unit {0}))
    → Completion × S
    → (Completion × S) × Result (Unit {0})
run operation (c, s) =
    let marked = record c { uncertain = true } in
    let (s', result) = operation s in ((settle marked result, s'), result)

settle-ready :
    (c : Completion) (r : Result (Unit {0})) (role : String)
    → (ensure_ready (settle (record c { uncertain = true }) r) role ≡ ok tt) ↔ (r ≡ ok tt)
unfolding ensure_ready
settle-ready c (ok done) role = ((λ e. refl), λ e. refl)
settle-ready c (err x) role = ((λ e. cc), λ e. cc)
settle-ready c panic role = ((λ e. cc), λ e. cc)

settle-unready :
    (c : Completion) (r : Result (Unit {0})) (role : String)
    → (ensure_ready (settle (record c { uncertain = true }) r) role ≡ err (invalid_buffer role))
      ↔ (r ≢ ok tt)
unfolding ensure_ready
settle-unready c (ok done) role = ((λ e. cc), λ n. absurd (n refl))
settle-unready c (err x) role = ((λ e q. cc), λ n. refl)
settle-unready c panic role = ((λ e q. cc), λ n. refl)

-- Whatever the operation does, `run` passes its result and its state on, and the output counts as
-- ready afterwards exactly when the operation succeeded; otherwise every later check of it fails with
-- `InvalidBuffer` for the role that is asked for.
pub run-ensure_ready {ℓ} :
    {S : Type ℓ} (operation : S → S × Result (Unit {0})) (c : Completion) (s : S) (role : String)
    → let after = run operation (c, s) in
      (after.1 ≡ (operation s).1)
      × (after.0.1 ≡ (operation s).0)
      × ((ensure_ready after.0.0 role ≡ ok tt) ↔ ((operation s).1 ≡ ok tt))
      × ((ensure_ready after.0.0 role ≡ err (invalid_buffer role)) ↔ ((operation s).1 ≢ ok tt))
unfolding run ensure_ready
run-ensure_ready operation c s role =
    (refl, refl, settle-ready c (operation s).1 role, settle-unready c (operation s).1 role)
