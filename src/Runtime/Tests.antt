-- ===== src/Runtime/Tests.antt =====
-- Runs of a Runtime with two Containers, and calls on its parts.
use gx.Base.{ℕ, ◌≡◌, refl, true, false, Option, none, some, List, [], ◌∷◌, ◌==◌, if◌then◌else◌}
use gx.Base.Exec.{Result, ok, panicked, ◌>>=◌, ◌>>◌}
use gx.Dict.{insert, lookup}
use gx.Runner.{new_runner, start, finish, wait, step, cancel, record_error}
use gx.Sync.Context.{cancel_cause}
use gx.Runtime.Types.{
  Name, returns, calls, on_stop_call, run_call, Event, exits, reports, ctx_ends, Runtime,
  runtime_running, runtime_stopped, Container, container_running, Hook, Error, failed, start_phase,
}
use gx.Runtime.Store.{store_set, store_get, get_value}
use gx.Runtime.Calls.{
  Action, new_runtime, new_container, attach, on_init, on_start, on_stop, run_task, call, container,
  update, start_task_locked, run_in, set_global, set_local, get_try, get_try_global,
}
use gx.Runtime.Create.{makes, create, create_hook}
use gx.Runtime.Tasks.{running_tasks, log_shutdown_timeout}
use gx.Runtime.Turns.{turn, ctx_err, exec, happen, happen_all, task_exits, stop_task, task_result}
use gx.Runtime.Lifecycle.{
  fails, container_init, container_start, container_shutdown, run_hooks, stop_hooks, log_step,
  set_state, start_tasks, after_init, after_start, wait_tasks, stop_container,
}
use gx.Runtime.Run.{
  runtime_run, run_unstarted, run_setup, runtime_start, run_started, run_options, each_container,
  start_initialized, startup_failed, cancel_runner, runtime_shutdown, shutdown_first, shutdown_each,
  waited, runner_wait, set_runtime_state, record_stop_err,
}
use gx.Runtime.Frame.{lives}
use gx.Runtime.Phases.{InOrder, runtime_run-InOrder}
use gx.Runtime.Shutdown.{ShutDown, container_shutdown-ShutDown}
use gx.Runtime.Finished.{runtime_run-AllSettled}
use gx.Runtime.Settled.{AllSettled}
use gx.Runtime.Quiet.Run.{runtime_run-running_tasks}
use gx.Runtime.Deps.{set_local-get_try}
use gx.Runtime.Invariant.{WellFormed}
use gx.Runtime.Invariant.Run.{runtime_run-WellFormed}
use gx.Runtime.Invariant.Lookup.{get_try-WellFormed}
use gx.Runtime.Reports.{Closed, runtime_run-Closed}
use gx.Runtime.Hooks.{RanHooks, run_hooks-RanHooks}

abbrev a : Name
a = 97 ∷ []

abbrev b : Name
b = 98 ∷ []

-- "a" has a hook to finalize it, which its initialization registers, and a task; "b" fails to start.
abbrev set_up : Action ℕ ℕ (Unit {0})
set_up = do
  i ← attach a
  j ← attach b
  on_init i (1 ∷ []) (some (calls (on_stop_call i (2 ∷ []) (returns (some 7))) (λ _. returns none)))
  on_start i (3 ∷ []) (some (calls (run_call i (4 ∷ [])) (λ _. returns none)))
  on_start j (5 ∷ []) (some (returns (some 8)))

abbrev prepared : Runtime ℕ ℕ
prepared = (set_up new_runtime).1

-- The context ends after the failure, and then the task.
abbrev turns : ℕ → List (Event ℕ ℕ)
turns n = if n == 14 then ctx_ends ∷ exits 0 (4 ∷ []) none ∷ reports 0 ∷ [] else []

abbrev ran : Result (Option (Error ℕ)) × Runtime ℕ ℕ
ran = runtime_run (λ e. false) turns true [] none prepared

run_reports_start : ran.0 ≡ ok (some (failed b (5 ∷ []) 8))
unfolding new_runtime attach on_init on_start on_stop run_task call container update
    start_task_locked run_in turn ctx_err exec happen happen_all task_exits stop_task task_result
    container_init container_start container_shutdown run_hooks stop_hooks log_step set_state
    start_tasks after_init after_start wait_tasks stop_container runtime_run run_unstarted run_setup
    runtime_start run_started run_options each_container start_initialized startup_failed
    cancel_runner runtime_shutdown shutdown_first shutdown_each waited runner_wait set_runtime_state
    record_stop_err new_runner start finish wait step cancel record_error cancel_cause
run_reports_start = refl

runtime_run-InOrder_example : InOrder 0 2 ran.1.log
unfolding new_runtime attach on_init on_start container update
runtime_run-InOrder_example = runtime_run-InOrder (λ e. false) turns true [] none prepared refl

runtime_run-AllSettled_example :
    (ran.1.state ≡ runtime_stopped) × AllSettled (lives ran.1.containers)
unfolding new_runtime attach on_init on_start on_stop run_task call container update
    start_task_locked run_in turn ctx_err exec happen happen_all task_exits stop_task task_result
    container_init container_start container_shutdown run_hooks stop_hooks log_step set_state
    start_tasks after_init after_start wait_tasks stop_container runtime_run run_unstarted run_setup
    runtime_start run_started run_options each_container start_initialized startup_failed
    cancel_runner runtime_shutdown shutdown_first shutdown_each waited runner_wait set_runtime_state
    record_stop_err new_runner start finish wait step cancel record_error cancel_cause
runtime_run-AllSettled_example =
    runtime_run-AllSettled (λ e. false) turns true [] none prepared refl refl

prepared-WellFormed : WellFormed prepared
unfolding new_runtime attach on_init on_start container update
prepared-WellFormed = record {
  sound = (record { counted = refl; typed = tt }, (record { counted = refl; typed = tt }, tt));
  named = (refl, refl, (refl, refl, tt));
  typed = tt;
}

runtime_run-WellFormed_example : WellFormed ran.1
runtime_run-WellFormed_example =
    runtime_run-WellFormed (λ e. false) turns true [] none prepared prepared-WellFormed

runtime_run-running_tasks_example : running_tasks ran.1 ≡ []
unfolding running_tasks new_runtime attach on_init on_start on_stop run_task call container update
    start_task_locked run_in turn ctx_err exec happen happen_all task_exits stop_task task_result
    container_init container_start container_shutdown run_hooks stop_hooks log_step set_state
    start_tasks after_init after_start wait_tasks stop_container runtime_run run_unstarted run_setup
    runtime_start run_started run_options each_container start_initialized startup_failed
    cancel_runner runtime_shutdown shutdown_first shutdown_each waited runner_wait set_runtime_state
    record_stop_err new_runner start finish wait step cancel record_error cancel_cause
runtime_run-running_tasks_example =
    runtime_run-running_tasks (λ e. false) turns true [] none prepared prepared-WellFormed refl refl
      refl

-- A running Container with a stopping hook and two stop hooks, one of which fails.
abbrev stopping : Container ℕ ℕ
stopping = record (new_container a) {
  state = container_running;
  stop_fns =
      record { fn = returns none; name = 1 ∷ [] }
      ∷ record { fn = returns (some 7); name = 2 ∷ [] }
      ∷ [];
  stopping_fns = record { fn = returns none; name = 3 ∷ [] } ∷ [];
}

abbrev running : Runtime ℕ ℕ
running = record new_runtime { containers = stopping ∷ []; state = runtime_running }

abbrev quiet : ℕ → List (Event ℕ ℕ)
quiet n = []

abbrev stopped : Runtime ℕ ℕ
stopped = (container_shutdown (λ e. false) quiet 0 running).1

container_shutdown-ShutDown_example :
    ShutDown (λ e. false) quiet 0 stopping (some (failed a (2 ∷ []) 7)) running stopped
unfolding new_runtime container update turn happen_all exec container_shutdown stop_container
    stop_hooks log_step set_state wait_tasks
container_shutdown-ShutDown_example =
    container_shutdown-ShutDown (λ e. false) quiet 0 stopping running refl refl refl refl

abbrev stocked : Runtime ℕ ℕ
stocked = (set_local 0 5 (some 9) running).1

set_local-get_try_example :
    ((get_try 0 5 (set_local 0 5 (some 9) prepared).1).0 ≡ ok (some (some 9)))
    × ((u : ℕ)
        → (u ≡ 5 → ⊥)
        → (get_try 0 u (set_local 0 5 (some 9) prepared).1).0 ≡ (get_try 0 u prepared).0)
    × ((w : Option ℕ) → (set_local 0 5 w (set_local 0 5 (some 9) prepared).1).0 ≡ panicked)
unfolding new_runtime attach on_init on_start container update set_local store_set insert lookup
set_local-get_try_example = set_local-get_try 0 5 (some 9) prepared refl refl

get_try-WellFormed_example :
    ((get_try_global 5 prepared).0 ≡ ok none) × ((get_try 0 5 prepared).0 ≡ ok none)
unfolding new_runtime attach on_init on_start container update lookup
get_try-WellFormed_example = get_try-WellFormed 5 0 prepared prepared-WellFormed refl

-- A Container whose stop hook fails.
abbrev failing : Runtime ℕ ℕ
failing = ((attach a >>= λ i. on_stop i (1 ∷ []) (some (returns (some 7)))) new_runtime).1

runtime_run-Closed_example :
    (s : Runtime ℕ ℕ) × (runtime_start
        (λ e. false)
        quiet
        (0 ∷ [])
        (run_setup (run_options []) none failing).1
      ≡ (ok tt, s))
    × Closed
        (λ e. false)
        quiet
        s
        (some (failed a (1 ∷ []) 7))
        (runtime_run (λ e. false) quiet true [] none failing).1
unfolding new_runtime attach on_init on_start on_stop run_task call container update
    start_task_locked run_in turn ctx_err exec happen happen_all task_exits stop_task task_result
    container_init container_start container_shutdown run_hooks stop_hooks log_step set_state
    start_tasks after_init after_start wait_tasks stop_container runtime_run run_unstarted run_setup
    runtime_start run_started run_options each_container start_initialized startup_failed
    cancel_runner runtime_shutdown shutdown_first shutdown_each waited runner_wait set_runtime_state
    record_stop_err new_runner start finish wait step cancel record_error cancel_cause
runtime_run-Closed_example =
    runtime_run-Closed (λ e. false) quiet true [] none failing refl refl refl

abbrev fns : List (Hook ℕ ℕ)
fns =
    record { fn = returns none; name = 1 ∷ [] }
    ∷ record { fn = returns (some 7); name = 2 ∷ [] }
    ∷ record { fn = returns none; name = 3 ∷ [] }
    ∷ []

-- The third one is not run.
run_hooks-RanHooks_example :
    RanHooks
      (λ e. false)
      quiet
      a
      start_phase
      fns
      (fails (failed a (2 ∷ []) 7))
      running
      (run_hooks (λ e. false) quiet a start_phase fns running).1
unfolding new_runtime turn ctx_err happen_all exec run_hooks log_step
run_hooks-RanHooks_example = run_hooks-RanHooks (λ e. false) quiet a start_phase fns running refl

-- The factory's value is there after the initialization.
abbrev created : Result (Option (Error ℕ)) × Runtime ℕ ℕ
created =
    (create a 5 (some (makes (some 9))) >> runtime_run (λ e. false) quiet true [] none) new_runtime

create_stores : (get_try_global 5 created.1).0 ≡ ok (some (some 9))
unfolding new_runtime attach on_init on_start on_stop run_task call container update
    start_task_locked run_in turn ctx_err exec happen happen_all task_exits stop_task task_result
    container_init container_start container_shutdown run_hooks stop_hooks log_step set_state
    start_tasks after_init after_start wait_tasks stop_container runtime_run run_unstarted run_setup
    runtime_start run_started run_options each_container start_initialized startup_failed
    cancel_runner runtime_shutdown shutdown_first shutdown_each waited runner_wait set_runtime_state
    record_stop_err new_runner start finish wait step cancel record_error cancel_cause create
    create_hook set_global get_try_global store_set store_get get_value insert lookup
create_stores = refl

log_shutdown_timeout_names :
    log_shutdown_timeout
      (record running { containers = record stopping { running = (4 ∷ []) ∷ [] } ∷ [] })
    ≡ (true, record { container = a; name = 4 ∷ [] } ∷ [])
unfolding log_shutdown_timeout running_tasks new_runtime
log_shutdown_timeout_names = refl
