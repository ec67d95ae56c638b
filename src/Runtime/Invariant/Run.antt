-- ===== src/Runtime/Invariant/Run.antt =====
-- runtime.go: a run keeps a Runtime well formed.
use gx.Base.{refl, ℕ, Bool, true, false, Option, none, some, List, [], ◌∷◌}
use gx.Base.Exec.Keeps.{Keeps, Keeps-bind, Keeps-if, Keeps-option}
use gx.Dict.{list_eq}
use gx.Runtime.Types.{
  Name, Ref, Error, ContainerState, Hook, Runtime, Phase, Message, step_starting, step_error,
  step_completed, Event,
}
use gx.Runtime.Calls.{Action}
use gx.Runner.{Runner}
use gx.Sync.Context.{Cause}
use gx.Runtime.Lifecycle.{
  Loop, fails, cut_short, completed, log_step, set_state, start_tasks, run_hooks, stop_hooks,
  wait_tasks, after_init, after_start, container_init, container_start, stop_container,
  container_shutdown,
}
use gx.Runtime.Run.{
  RunOptions, startup_failed, cancel_runner, each_container, start_initialized, runtime_start,
  record_stop_err, shutdown_each, shutdown_first, runtime_shutdown, waited, runner_wait,
  set_runtime_state, run_setup, run_started, run_unstarted, runtime_run,
}
use gx.Runtime.Invariant.{WellFormed, elsewhere-WellFormed}
use gx.Runtime.Invariant.Turns.{turn-WellFormed, ctx_err-WellFormed, exec-WellFormed}
use gx.Runtime.Invariant.Calls.{wf_rules, start_task_locked-WellFormed}

module _ {ℓ} {V E : Type ℓ} where
  log_step-WellFormed :
      (c : Name) (m : Message) (phase : Phase) (step : Name)
      → Keeps (WellFormed {V = V} {E = E}) (log_step c m phase step)
  unfolding log_step
  log_step-WellFormed c m phase step = search wf_rules

  set_state-WellFormed :
      (i : Ref) (s : ContainerState) → Keeps (WellFormed {V = V} {E = E}) (set_state i s)
  unfolding set_state
  set_state-WellFormed i s = search wf_rules

  start_tasks-WellFormed :
      (i : Ref) (ts : List Name) → Keeps (WellFormed {V = V} {E = E}) (start_tasks i ts)
  unfolding start_tasks
  start_tasks-WellFormed i [] = search wf_rules
  start_tasks-WellFormed i (t ∷ ts) =
      Keeps-bind _ _ (start_task_locked-WellFormed i t) (λ _. start_tasks-WellFormed i ts)

  waited-WellFormed :
      (o : Option (Option (Error E) × Runner (Error E))) → Keeps (WellFormed {V = V}) (waited o)
  unfolding waited
  waited-WellFormed none = search wf_rules
  waited-WellFormed (some (err, runner)) = search wf_rules

module _ {ℓ} {V E : Type ℓ} (is_canceled : E → Bool) (schedule : ℕ → List (Event V E)) where
  run_hooks-WellFormed :
      (c : Name) (phase : Phase) (hs : List (Hook V E))
      → Keeps WellFormed (run_hooks is_canceled schedule c phase hs)
  unfolding run_hooks
  run_hooks-WellFormed c phase [] = search wf_rules
  run_hooks-WellFormed c phase (h ∷ hs) =
      Keeps-bind _ _ (ctx_err-WellFormed is_canceled schedule) (λ ended.
        Keeps-if ended _ _ (search wf_rules) (
          Keeps-bind _ _ (log_step-WellFormed c step_starting phase h.name) (λ _.
            Keeps-bind _ _ (exec-WellFormed is_canceled schedule h.fn) (λ err.
              Keeps-option err _ _
                (Keeps-bind _ _ (log_step-WellFormed c step_completed phase h.name)
                  (λ _. run_hooks-WellFormed c phase hs))
                (λ e. search (wf_rules, log_step-WellFormed))))))

  stop_hooks-WellFormed :
      (c : Name) (phase : Phase) (hs : List (Hook V E)) (first : Option (Error E))
      → Keeps WellFormed (stop_hooks is_canceled schedule c phase hs first)
  unfolding stop_hooks
  stop_hooks-WellFormed c phase [] first = search wf_rules
  stop_hooks-WellFormed c phase (h ∷ hs) first =
      Keeps-bind _ _ (log_step-WellFormed c step_starting phase h.name) (λ _.
        Keeps-bind _ _ (exec-WellFormed is_canceled schedule h.fn) (λ err.
          Keeps-option err _ _
            (Keeps-bind _ _ (log_step-WellFormed c step_completed phase h.name)
              (λ _. stop_hooks-WellFormed c phase hs first))
            (λ e.
              Keeps-bind _ _ (log_step-WellFormed c step_error phase h.name)
                (λ _. stop_hooks-WellFormed c phase hs _))))

  ruleset step_rules = (
    wf_rules, turn-WellFormed, ctx_err-WellFormed, run_hooks-WellFormed, stop_hooks-WellFormed,
    set_state-WellFormed, start_tasks-WellFormed, waited-WellFormed,
  )

  after_init-WellFormed :
      (i : Ref) (loop : Loop E) → Keeps WellFormed (after_init is_canceled schedule i loop)
  unfolding after_init
  after_init-WellFormed i (fails e) = search step_rules
  after_init-WellFormed i cut_short = search step_rules
  after_init-WellFormed i completed = search step_rules

  after_start-WellFormed :
      (i : Ref) (loop : Loop E) → Keeps WellFormed (after_start is_canceled schedule i loop)
  unfolding after_start
  after_start-WellFormed i (fails e) = search step_rules
  after_start-WellFormed i cut_short = search step_rules
  after_start-WellFormed i completed = search step_rules depth 10

  container_init-WellFormed : (i : Ref) → Keeps WellFormed (container_init is_canceled schedule i)
  unfolding container_init
  container_init-WellFormed i = search (step_rules, after_init-WellFormed) depth 10

  container_start-WellFormed : (i : Ref) → Keeps WellFormed (container_start is_canceled schedule i)
  unfolding container_start
  container_start-WellFormed i = search (step_rules, after_start-WellFormed) depth 10

  container_shutdown-WellFormed :
      (i : Ref) → Keeps WellFormed (container_shutdown is_canceled schedule i)
  unfolding container_shutdown stop_container wait_tasks
  container_shutdown-WellFormed i = search step_rules depth 12

  each_container-WellFormed :
      {step : Ref → Action V E (Option (Error E))}
      → ((i : Ref) → Keeps WellFormed (step i))
      → (is : List Ref) → Keeps WellFormed (each_container is_canceled schedule step is)
  unfolding each_container startup_failed cancel_runner
  each_container-WellFormed k [] = search step_rules
  each_container-WellFormed {step} k (i ∷ is) =
      Keeps-bind _ _ (ctx_err-WellFormed is_canceled schedule) (λ ended.
        Keeps-if ended _ _ (search step_rules) (
          Keeps-bind _ _ (k i) (λ err.
            Keeps-option err _ _ (each_container-WellFormed k is)
              (λ e. search step_rules depth 8))))

  shutdown_each-WellFormed :
      (is : List Ref) → Keeps WellFormed (shutdown_each is_canceled schedule is)
  unfolding shutdown_each record_stop_err
  shutdown_each-WellFormed [] = search step_rules
  shutdown_each-WellFormed (i ∷ is) = Keeps-bind _ _ (container_shutdown-WellFormed i) (λ err.
      Keeps-bind _ _ (elsewhere-WellFormed _ (λ r. refl) (λ r. refl))
        (λ _. shutdown_each-WellFormed is))

  runtime_shutdown-WellFormed : Keeps WellFormed (runtime_shutdown is_canceled schedule)
  unfolding runtime_shutdown shutdown_first
  runtime_shutdown-WellFormed = search (step_rules, shutdown_each-WellFormed) depth 10

  start_initialized-WellFormed :
      (is : List Ref) (b : Bool) → Keeps WellFormed (start_initialized is_canceled schedule is b)
  unfolding start_initialized set_runtime_state
  start_initialized-WellFormed is false = search step_rules
  start_initialized-WellFormed is true =
      search (step_rules, each_container-WellFormed, container_start-WellFormed) depth 10

  runtime_start-WellFormed :
      (is : List Ref) → Keeps WellFormed (runtime_start is_canceled schedule is)
  unfolding runtime_start
  runtime_start-WellFormed is =
      search
        (
          step_rules, each_container-WellFormed, container_init-WellFormed,
          start_initialized-WellFormed,
        )
        depth 10

  run_started-WellFormed : Keeps WellFormed (run_started is_canceled schedule)
  unfolding run_started runner_wait set_runtime_state
  run_started-WellFormed = search (step_rules, runtime_shutdown-WellFormed) depth 12

  runtime_run-Keeps :
      (has_ctx : Bool) (opts : List RunOptions) (parent : Option (Cause (Error E)))
      → Keeps WellFormed (runtime_run is_canceled schedule has_ctx opts parent)
  unfolding runtime_run run_unstarted run_setup
  runtime_run-Keeps has_ctx opts parent =
      search (step_rules, runtime_start-WellFormed, run_started-WellFormed) depth 12

  -- However `Run` ends, whatever hooks and tasks do: it keeps that each Container counts its running tasks,
  -- that its and the Runtime's dependencies stand under their types, and that the Containers have names
  -- and no two the same.
  pub runtime_run-WellFormed :
      (has_ctx : Bool) (opts : List RunOptions) (parent : Option (Cause (Error E)))
      (r : Runtime V E)
      → WellFormed r
      → WellFormed (runtime_run is_canceled schedule has_ctx opts parent r).1
  runtime_run-WellFormed has_ctx opts parent r w = (runtime_run-Keeps has_ctx opts parent).at r w
