-- ===== src/Runtime/Finished.antt =====
-- runtime.go: the Runtime and its Containers once `Run` has returned.
use gx.Base.{
  ◌≡◌, refl, sym, subst, ◌⊎◌, inl, inr, ℕ, Bool, true, false, Option, List, length, not, ltb,
  reverse, if◌then◌else◌,
}
use gx.Base.Exec.{ok, pure, gets}
use gx.Base.Exec.Keeps.{Keeps-gets}
use gx.Base.Exec.Ensures.{
  After, Ensures, Ensures-pure, Ensures-bind, Ensures-kept, Ensures-weaken, Ensures-modify,
  Ensures-unless, Ensures-guard, returned,
}
use gx.Sync.Context.{Cause}
use gx.Runtime.Types.{Error, runtime_stopped, Runtime, Event}
use gx.Runtime.Calls.{is_runtime_setup}
use gx.Runtime.Lifecycle.{or_first}
use gx.Runtime.Run.{
  RunOptions, run_options, all_refs, shutdown_each, shutdown_first, runtime_shutdown,
  set_runtime_state, run_setup, run_started, run_unstarted, runtime_run,
}
use gx.Runtime.Frame.{View, view, lives, Under, ctx_err-Under}
use gx.Runtime.Phases.{runtime_start-Under, runner_wait-Under}
use gx.Runtime.Settled.{AllSettled, length-lives, settle_each-AllSettled, shutdown_each-Lives}

-- The shutdown has run.
abbrev Shut {ℓ} : {E : Type ℓ} → View E → Type 0
Shut v = AllSettled v.lives × (v.shutdown_once ≡ true)

-- It has run, or nothing has begun it.
abbrev Unbroken {ℓ} : {E : Type ℓ} → View E → Type 0
Unbroken v = (v.shutdown_once ≡ false) ⊎ Shut v

module _ {ℓ} {V E : Type ℓ} (is_canceled : E → Bool) (schedule : ℕ → List (Event V E)) where
  shutdown_all-Shut :
      (r : Runtime V E)
      → Under (λ v. v.shutdown_once ≡ true) r
      → After
          (λ _. Under Shut)
          (shutdown_each is_canceled schedule (reverse (all_refs r)) r).0
          (shutdown_each is_canceled schedule (reverse (all_refs r)) r).1
  shutdown_all-Shut r u =
      (Ensures-weaken
          (shutdown_each-Lives is_canceled schedule true (reverse (all_refs r))
            (lives r.containers))
          (λ a s q. (
            q.0,
            (
              subst AllSettled (sym q.1.0)
                  (settle_each-AllSettled (lives r.containers) _ (length-lives r.containers)),
              q.1.1,
            ),
          ))).at
        r (u.0, (refl, u.1))

  -- The function that runs once, from wherever it starts.
  shutdown_first-Shut :
      Ensures
        (Under {V = V} {E = E} (λ v. Unit {0}))
        (shutdown_first is_canceled schedule)
        (λ _. Under Shut)
  unfolding shutdown_first
  shutdown_first-Shut =
      Ensures-bind {R = λ _. Under (λ v. v.shutdown_once ≡ true)} _ _
        (Ensures-modify (λ r. record r { shutdown_once = true }) (λ r u. (u.0, refl)))
        (λ _.
          Ensures-bind _ _ (Ensures-kept (Keeps-gets (λ r. r.startup_done))) (λ startup_done.
            Ensures-unless startup_done _ (λ _. record { at = shutdown_all-Shut })))

  runtime_shutdown-Shut :
      Ensures (Under Unbroken) (runtime_shutdown is_canceled schedule) (λ _. Under Shut)
  unfolding runtime_shutdown
  runtime_shutdown-Shut = record { at = λ r u. from r u.0 u.1 r.shutdown_once refl }
    where
      from :
          (r : Runtime V E)
          → is_runtime_setup r.state ≡ false
          → Unbroken (view r)
          → (b : Bool) → r.shutdown_once ≡ b
          → After
              (λ _. Under Shut)
              ((if b then pure tt else shutdown_first is_canceled schedule) r).0
              ((if b then pure tt else shutdown_first is_canceled schedule) r).1
      from r w u false e = shutdown_first-Shut.at r (w, tt)
      from r w (inl h) true e = absurd (cc)
      from r w (inr h) true e = (w, h)

  abbrev NotBegun : View E → Type 0
  NotBegun v = v.shutdown_once ≡ false

  shutdown_if-Unbroken :
      (ended : Bool)
      → Ensures
          (Under {V = V} NotBegun)
          (if ended then runtime_shutdown is_canceled schedule else pure tt)
          (λ _. Under Unbroken)
  shutdown_if-Unbroken true = record {
    at =
        λ r u. (Ensures-weaken runtime_shutdown-Shut (λ a s q. (q.0, inr q.1))).at r (u.0, inl u.1);
  }
  shutdown_if-Unbroken false = record { at = λ r u. (u.0, inl u.1) }

  abbrev Finished : Runtime V E → Type 0
  Finished r = (r.state ≡ runtime_stopped) × AllSettled (lives r.containers)

  set_stopped-Finished : Ensures (Under Shut) (set_runtime_state runtime_stopped) (λ _. Finished)
  unfolding set_runtime_state
  set_stopped-Finished = record { at = λ r u. (refl, u.1.0) }

  run_started-Finished : Ensures (Under NotBegun) (run_started is_canceled schedule) (λ _. Finished)
  unfolding run_started
  run_started-Finished =
      Ensures-bind _ _ (Ensures-kept (ctx_err-Under is_canceled schedule NotBegun)) (λ ended.
        Ensures-bind _ _ (shutdown_if-Unbroken ended) (λ _.
          Ensures-bind _ _ (Ensures-kept (runner_wait-Under is_canceled schedule Unbroken)) (λ err.
            Ensures-bind {R = λ _. Under Unbroken} _ _
              (Ensures-modify (λ r. record r { ctx_done = true }) (λ r u. u))
              (λ _. Ensures-bind _ _ runtime_shutdown-Shut (λ _.
                Ensures-bind _ _ set_stopped-Finished (λ _.
                  Ensures-bind _ _ (Ensures-kept (Keeps-gets (λ r. r.stop_err)))
                    (λ stop_err. Ensures-pure (or_first err stop_err) (λ r u. u))))))))

  run_unstarted-Finished :
      (opts : RunOptions) (parent : Option (Cause (Error E)))
      → Ensures
          (λ r. r.shutdown_once ≡ false)
          (run_unstarted is_canceled schedule opts parent)
          (λ _. Finished)
  unfolding run_unstarted run_setup
  run_unstarted-Finished opts parent = record {
    at = λ r h.
        (Ensures-bind _ _
            (Ensures-kept (
              runtime_start-Under is_canceled schedule NotBegun
                (record { logs = λ c v message step h. h; moves = λ i s v h. h }) (λ s v h. h)
                (record { logs = λ c v message step h. h; moves = λ i s v h. h }) (λ v h. h)
                (all_refs r)))
            (λ _. run_started-Finished)).at
          (run_setup opts parent r).1 (refl, h);
  }

  runtime_run-Ensures :
      (has_ctx : Bool) (opts : List RunOptions) (parent : Option (Cause (Error E)))
      → Ensures
          (λ r. r.shutdown_once ≡ false)
          (runtime_run is_canceled schedule has_ctx opts parent)
          (λ _. Finished)
  unfolding runtime_run
  runtime_run-Ensures has_ctx opts parent = Ensures-guard (not has_ctx) _ (λ _.
      Ensures-guard (ltb 1 (length opts)) _ (λ _.
        Ensures-bind (gets (λ r. r.state)) _ (Ensures-kept (Keeps-gets _)) (λ state.
          Ensures-guard (not (is_runtime_setup state))
            (run_unstarted is_canceled schedule (run_options opts) parent)
            (λ _. run_unstarted-Finished (run_options opts) parent))))

  -- When `Run` returns on a Runtime that has not been shut down before, the Runtime is stopped, and each
  -- of its Containers either was never initialized or is stopped, whatever failed meanwhile.
  pub runtime_run-AllSettled :
      (has_ctx : Bool) (opts : List RunOptions) (parent : Option (Cause (Error E)))
      (r : Runtime V E) {r' : Runtime V E} {err : Option (Error E)}
      → r.shutdown_once ≡ false
      → runtime_run is_canceled schedule has_ctx opts parent r ≡ (ok err, r')
      → (r'.state ≡ runtime_stopped) × AllSettled (lives r'.containers)
  runtime_run-AllSettled has_ctx opts parent r once e =
      returned (runtime_run-Ensures has_ctx opts parent) r once e
