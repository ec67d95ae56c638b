-- ===== src/Runtime/Quiet/Run.antt =====
-- runtime.go: what tasks are left once `Run` has returned.
use gx.Base.{
  ◌≡◌, refl, ap, ◌∙◌, sym, subst, ℕ, zero, suc, Bool, true, false, not, Option, none, some, List,
  [], ◌∷◌, ◌++◌, reverse, length, ltb, get_elem?, arith,
}
use gx.Base.Exec.{ok, gets}
use gx.Base.Exec.Keeps.{Keeps, Keeps-gets, Keeps-bind}
use gx.Base.Exec.Ensures.{
  Ensures, Ensures-pure, Ensures-bind, Ensures-kept, Ensures-if, Ensures-option, Ensures-unless,
  Ensures-guard, returned,
}
use gx.Sync.Context.{Cause}
use gx.Runner.{Runner}
use gx.Runtime.Types.{Name, Ref, Error, Container, Runtime, Event, runtime_stopped}
use gx.Runtime.Calls.{Action, is_runtime_setup}
use gx.Runtime.Turns.{ctx_err}
use gx.Runtime.Lifecycle.{or_first}
use gx.Runtime.Run.{
  RunOptions, run_options, all_refs, startup_failed, cancel_runner, each_container,
  start_initialized, runtime_start, record_stop_err, shutdown_each, shutdown_first,
  runtime_shutdown, waited, runner_wait, set_runtime_state, run_setup, run_started, run_unstarted,
  runtime_run,
}
use gx.Runtime.Tasks.{container_tasks, all_tasks, running_tasks}
use gx.Runtime.Frame.{lives}
use gx.Runtime.Settled.{AllSettled}
use gx.Runtime.Finished.{runtime_run-AllSettled}
use gx.Runtime.Invariant.{some_inj, AllSound, WellFormed}
use gx.Runtime.Invariant.Run.{runtime_run-WellFormed}
use gx.Runtime.Quiet.{Quiet, elsewhere-Quiet, quiet_rules}
use gx.Runtime.Quiet.Turns.{turn-Quiet, ctx_err-Quiet}
use gx.Runtime.Quiet.Rules.{Resting, Resting-IsSteady}
use gx.Runtime.Quiet.Containers.{
  container_init-Resting, container_start-Resting, container_shutdown-Resting,
}

module _ {ℓ} {A : Type ℓ} where
  append-empty : (xs ys : List A) → xs ++ ys ≡ [] → (xs ≡ []) × (ys ≡ [])
  append-empty [] ys e = (refl, e)
  append-empty (x ∷ xs) ys e = absurd (cc)

  length-empty : (xs : List A) → length xs ≡ 0 → xs ≡ []
  length-empty [] e = refl
  length-empty (x ∷ xs) e = absurd (omega (arith, e))

container_tasks-empty : (c : Name) (names : List Name) → container_tasks c names ≡ [] → names ≡ []
container_tasks-empty c [] e = refl
container_tasks-empty c (name ∷ names) e = absurd (cc)

module _ {ℓ} {V E : Type ℓ} where
  waited-Resting :
      (o : Option (Option (Error E) × Runner (Error E))) → Keeps (Quiet {V = V} Resting) (waited o)
  unfolding waited
  waited-Resting none = search quiet_rules
  waited-Resting (some (err, runner)) = search quiet_rules

  set_stopped-Resting : Keeps (Quiet {V = V} {E = E} Resting) (set_runtime_state runtime_stopped)
  unfolding set_runtime_state
  set_stopped-Resting =
      elsewhere-Quiet (λ r. record r { state = runtime_stopped }) (λ r. refl) (λ r b. refl)

  -- A Container that rests has no task running.
  abbrev AllRest : Runtime V E → Type ℓ
  AllRest r =
      (j : ℕ) (c : Container V E) → get_elem? r.containers j ≡ some c → Resting j c.state c.wg

  no_tasks-rest :
      (cs : List (Container V E))
      → AllSound cs
      → all_tasks cs ≡ []
      → (j : ℕ) (c : Container V E) → get_elem? cs j ≡ some c
      → c.wg ≡ 0
  no_tasks-rest [] h e j c q = absurd (cc)
  no_tasks-rest (d ∷ cs) h e zero c q =
      subst (λ b. b.wg ≡ 0) (some_inj q)
        (h.0.counted
          ∙ ap length (
              container_tasks-empty d.name d.running
                (append-empty (container_tasks d.name d.running) (all_tasks cs) e).0))
  no_tasks-rest (d ∷ cs) h e (suc j) c q =
      no_tasks-rest cs h.1 (append-empty (container_tasks d.name d.running) (all_tasks cs) e).1 j c
        q

  rest-no_tasks :
      (cs : List (Container V E))
      → AllSound cs
      → AllSettled (lives cs)
      → ((j : ℕ) (c : Container V E) → get_elem? cs j ≡ some c → Resting j c.state c.wg)
      → all_tasks cs ≡ []
  rest-no_tasks [] h s k = refl
  rest-no_tasks (d ∷ cs) h s k =
      ap (λ xs. container_tasks d.name xs ++ all_tasks cs)
        (length-empty d.running (sym h.0.counted ∙ k zero d refl s.0))
      ∙ rest-no_tasks cs h.1 s.1 (λ j. k (suc j))

module _ {ℓ} {V E : Type ℓ} (is_canceled : E → Bool) (schedule : ℕ → List (Event V E)) where
  ctx_err-Resting : Keeps (Quiet Resting) (ctx_err is_canceled schedule)
  ctx_err-Resting = ctx_err-Quiet is_canceled Resting-IsSteady schedule

  each_container-Resting :
      {step : Ref → Action V E (Option (Error E))}
      → ((i : Ref) → Ensures (Quiet Resting) (step i) (λ _. Quiet Resting))
      → (is : List Ref)
      → Ensures (Quiet Resting) (each_container is_canceled schedule step is) (λ _. Quiet Resting)
  unfolding each_container startup_failed cancel_runner
  each_container-Resting k [] = Ensures-pure true (λ r q. q)
  each_container-Resting {step} k (i ∷ is) =
      Ensures-bind _ _ (Ensures-kept ctx_err-Resting) (λ ended.
        Ensures-if ended _ _ (Ensures-pure false (λ r q. q)) (
          Ensures-bind _ _ (k i) (λ err.
            Ensures-option err _ _ (each_container-Resting k is)
              (λ e. Ensures-kept (search (quiet_rules, ctx_err-Resting) depth 8)))))

  shutdown_each-Resting :
      (is : List Ref)
      → Ensures (Quiet Resting) (shutdown_each is_canceled schedule is) (λ _. Quiet Resting)
  unfolding shutdown_each record_stop_err
  shutdown_each-Resting [] = Ensures-pure tt (λ r q. q)
  shutdown_each-Resting (i ∷ is) =
      Ensures-bind _ _ (container_shutdown-Resting is_canceled schedule i) (λ err.
        Ensures-bind _ _ (Ensures-kept (elsewhere-Quiet _ (λ r. refl) (λ r b. b)))
          (λ _. shutdown_each-Resting is))

  runtime_shutdown-Resting :
      Ensures (Quiet Resting) (runtime_shutdown is_canceled schedule) (λ _. Quiet Resting)
  unfolding runtime_shutdown shutdown_first
  runtime_shutdown-Resting =
      Ensures-bind _ _ (Ensures-kept (Keeps-gets (λ r. r.shutdown_once))) (λ once.
        Ensures-if once _ _ (Ensures-pure tt (λ r q. q)) (
          Ensures-bind _ _ (Ensures-kept (elsewhere-Quiet _ (λ r. refl) (λ r b. b))) (λ _.
            Ensures-bind _ _ (Ensures-kept (Keeps-gets (λ r. r.startup_done))) (λ startup_done.
              Ensures-unless startup_done _ (λ _.
                Ensures-bind _ _ (Ensures-kept (Keeps-gets all_refs))
                  (λ refs. shutdown_each-Resting (reverse refs)))))))

  start_initialized-Resting :
      (is : List Ref) (b : Bool)
      → Ensures (Quiet Resting) (start_initialized is_canceled schedule is b) (λ _. Quiet Resting)
  unfolding start_initialized set_runtime_state
  start_initialized-Resting is false = Ensures-pure tt (λ r q. q)
  start_initialized-Resting is true = Ensures-bind _ _ (Ensures-kept ctx_err-Resting) (λ ended.
      Ensures-if ended _ _ (Ensures-pure tt (λ r q. q)) (
        Ensures-bind _ _ (Ensures-kept (elsewhere-Quiet _ (λ r. refl) (λ r b. refl))) (λ _.
          Ensures-bind _ _
            (each_container-Resting (container_start-Resting is_canceled schedule) is)
            (λ _. Ensures-pure tt (λ r q. q)))))

  runtime_start-Resting :
      (is : List Ref)
      → Ensures (Quiet Resting) (runtime_start is_canceled schedule is) (λ _. Quiet Resting)
  unfolding runtime_start
  runtime_start-Resting is =
      Ensures-bind _ _
        (each_container-Resting (λ i. Ensures-kept (container_init-Resting is_canceled schedule i))
          is)
        (λ initialized.
          Ensures-bind _ _ (start_initialized-Resting is initialized)
            (λ _. Ensures-kept (elsewhere-Quiet _ (λ r. refl) (λ r b. b))))

  runner_wait-Resting : Keeps (Quiet Resting) (runner_wait is_canceled schedule)
  unfolding runner_wait
  runner_wait-Resting =
      Keeps-bind _ _ (turn-Quiet is_canceled Resting-IsSteady schedule)
        (λ _. Keeps-bind _ _ (Keeps-gets (λ r. r.runner)) (λ runner. waited-Resting _))

  run_started-Resting :
      Ensures (Quiet Resting) (run_started is_canceled schedule) (λ _. Quiet Resting)
  unfolding run_started
  run_started-Resting = Ensures-bind _ _ (Ensures-kept ctx_err-Resting) (λ ended.
      Ensures-bind _ _ (Ensures-if ended _ _ runtime_shutdown-Resting (Ensures-pure tt (λ r q. q)))
        (λ _. Ensures-bind _ _ (Ensures-kept runner_wait-Resting) (λ err.
          Ensures-bind _ _ (Ensures-kept (elsewhere-Quiet _ (λ r. refl) (λ r b. b))) (λ _.
            Ensures-bind _ _ runtime_shutdown-Resting (λ _.
              Ensures-bind _ _ (Ensures-kept set_stopped-Resting) (λ _.
                Ensures-bind _ _ (Ensures-kept (Keeps-gets (λ r. r.stop_err)))
                  (λ stop_err. Ensures-pure (or_first err stop_err) (λ r q. q))))))))

  run_unstarted-Resting :
      (opts : RunOptions) (parent : Option (Cause (Error E)))
      → Ensures AllRest (run_unstarted is_canceled schedule opts parent) (λ _. Quiet Resting)
  unfolding run_unstarted run_setup
  run_unstarted-Resting opts parent = record {
    at = λ r h.
        (Ensures-bind _ _ (runtime_start-Resting (all_refs r)) (λ _. run_started-Resting)).at
          (run_setup opts parent r).1 (record { begun = refl; each = h });
  }

  runtime_run-Resting :
      (has_ctx : Bool) (opts : List RunOptions) (parent : Option (Cause (Error E)))
      → Ensures AllRest (runtime_run is_canceled schedule has_ctx opts parent) (λ _. Quiet Resting)
  unfolding runtime_run
  runtime_run-Resting has_ctx opts parent = Ensures-guard (not has_ctx) _ (λ _.
      Ensures-guard (ltb 1 (length opts)) _ (λ _.
        Ensures-bind (gets (λ r. r.state)) _ (Ensures-kept (Keeps-gets (λ r. r.state))) (λ state.
          Ensures-guard (not (is_runtime_setup state))
            (run_unstarted is_canceled schedule (run_options opts) parent)
            (λ _. run_unstarted-Resting (run_options opts) parent))))

  -- When `Run` returns on a well formed Runtime that has not been shut down before and has no task
  -- running, no task of any Container is running any more, whatever hooks and tasks did meanwhile.
  pub runtime_run-running_tasks :
      (has_ctx : Bool) (opts : List RunOptions) (parent : Option (Cause (Error E)))
      (r : Runtime V E) {r' : Runtime V E} {err : Option (Error E)}
      → WellFormed r
      → r.shutdown_once ≡ false
      → running_tasks r ≡ []
      → runtime_run is_canceled schedule has_ctx opts parent r ≡ (ok err, r')
      → running_tasks r' ≡ []
  unfolding running_tasks
  runtime_run-running_tasks has_ctx opts parent r {r'} w once idle e =
      rest-no_tasks r'.containers
        (subst (λ p. WellFormed p.1) e
          (runtime_run-WellFormed is_canceled schedule has_ctx opts parent r w)).sound
        (runtime_run-AllSettled is_canceled schedule has_ctx opts parent r once e).1
        (returned (runtime_run-Resting has_ctx opts parent) r
          (λ j c q _. no_tasks-rest r.containers w.sound idle j c q) e).each
