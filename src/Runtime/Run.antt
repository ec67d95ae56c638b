-- ===== src/Runtime/Run.antt =====
-- runtime.go: `Run`, from the start of the Containers to their shutdown. The goroutine that shuts down as
-- soon as the context is done takes its turn once the start is over; then no task is left that the
-- Runner could still wait for but those that `shutdown` waits for first.
use gx.Base.{
  ℕ, zero, suc, Bool, true, false, not, Option, none, some, List, [], ◌∷◌, length, reverse,
  if◌then◌else◌, ltb,
}
use gx.Base.Exec.{pure, gets, modify, panic_if, block_unless, ◌>>=◌, ◌>>◌}
use gx.Base.Int.{ℤ, pos, ltb_ℤ}
use gx.Sync.Context.{Cause}
use gx.Runner
use gx.Runtime.Types.{
  Ref, Error, RuntimeState, runtime_initializing, runtime_running, runtime_stopped, Runtime, Event,
}
use gx.Runtime.Calls.{Action, is_runtime_setup}
use gx.Runtime.Turns.{turn, ctx_err}
use gx.Runtime.Lifecycle.{container_init, container_start, container_shutdown, or_first}

-- `logger` is whether there is one; the timeout is in nanoseconds.
pub record RunOptions : Type 0 where
  pub logger : Bool
  pub no_signals : Bool
  pub shutdown_timeout : ℤ
  pub signals : List ℕ

unfoldable pub run_options : List RunOptions → RunOptions
run_options [] = record {
  logger = false;
  no_signals = false;
  shutdown_timeout = pos 30000000000;
  signals = [];
}
run_options (o ∷ opts) = record {
  logger = o.logger;
  no_signals = o.no_signals;
  shutdown_timeout =
      (if ltb_ℤ (pos 0) o.shutdown_timeout then o.shutdown_timeout else pos 30000000000);
  signals = o.signals;
}

-- The Containers' places, from one on.
abbrev pub refs_from : ℕ → ℕ → List Ref
refs_from i zero = []
refs_from i (suc n) = i ∷ refs_from (suc i) n

module _ {ℓ} {V E : Type ℓ} where
  abbrev pub all_refs : Runtime V E → List Ref
  all_refs r = refs_from 0 (length r.containers)

  unfoldable pub set_runtime_state : RuntimeState → Action V E (Unit {0})
  set_runtime_state state = modify (λ r. record r { state = state })

  -- `r.runner.Cancel(err)`; the Runner is that of `NewRunner`.
  unfoldable pub cancel_runner : Error E → Action V E (Unit {0})
  cancel_runner err = modify (λ r. record r { runner = Runner.step r.runner (Runner.cancels err) })

  -- `newRuntimeTaskContext`, `NewRunner` and what `Run` sets with them. `parent` is what has cancelled
  -- the parent context; `r.ctx` ends with it in a turn.
  unfoldable pub run_setup : RunOptions → Option (Cause (Error E)) → Action V E (Unit {0})
  run_setup opts parent = modify (λ r. record r {
    ctx_done = false;
    runner = Runner.new_runner parent;
    shutdown_timeout = opts.shutdown_timeout;
    startup_done = false;
    state = runtime_initializing;
  })

  -- `if err != nil && r.stopErr == nil`
  unfoldable pub record_stop_err : Option (Error E) → Action V E (Unit {0})
  record_stop_err err = modify (λ r. record r { stop_err = or_first r.stop_err err })

  -- What `Wait` of the Runner returns, none while it blocks.
  unfoldable pub waited :
      Option (Option (Error E) × Runner.Runner (Error E)) → Action V E (Option (Error E))
  waited none = do block_unless false; pure none
  waited (some (err, runner)) = do modify (λ r. record r { runner = runner }); pure err

module _ {ℓ} {V E : Type ℓ} (is_canceled : E → Bool) (schedule : ℕ → List (Event V E)) where
  -- A Container that fails to start cancels the Runner, unless the context is done already.
  unfoldable pub startup_failed : Error E → Action V E (Unit {0})
  startup_failed err = do
    ended ← ctx_err is_canceled schedule
    if ended then pure tt else cancel_runner err

  -- A loop of `start`, which says whether it came to its end.
  unfoldable pub each_container : (Ref → Action V E (Option (Error E))) → List Ref → Action V E Bool
  each_container step [] = pure true
  each_container step (i ∷ is) = do
    ended ← ctx_err is_canceled schedule
    if ended then pure false else (do
      err ← step i
      elim err [ some e ↦ (do startup_failed e; pure false) | none ↦ each_container step is ])

  -- What `start` does after the loop of `init`.
  unfoldable pub start_initialized : List Ref → Bool → Action V E (Unit {0})
  start_initialized is false = pure tt
  start_initialized is true = do
    ended ← ctx_err is_canceled schedule
    if ended then pure tt else (do
      set_runtime_state runtime_running
      started ← each_container (container_start is_canceled schedule) is
      pure tt)

  -- `Runtime.start`
  unfoldable pub runtime_start : List Ref → Action V E (Unit {0})
  runtime_start is = do
    initialized ← each_container (container_init is_canceled schedule) is
    start_initialized is initialized
    modify (λ r. record r { startup_done = true })

  unfoldable pub shutdown_each : List Ref → Action V E (Unit {0})
  shutdown_each [] = pure tt
  shutdown_each (i ∷ is) = do
    err ← container_shutdown is_canceled schedule i
    record_stop_err err
    shutdown_each is

  -- The function that `shutdownOnce` runs.
  unfoldable pub shutdown_first : Action V E (Unit {0})
  shutdown_first = do
    modify (λ r. record r { shutdown_once = true })
    startup_done ← gets (λ r. r.startup_done)
    block_unless startup_done
    is ← gets all_refs
    shutdown_each (reverse is)

  -- `Runtime.shutdown`
  unfoldable pub runtime_shutdown : Action V E (Unit {0})
  runtime_shutdown = do once ← gets (λ r. r.shutdown_once); if once then pure tt else shutdown_first

  -- `r.runner.Wait()`
  unfoldable pub runner_wait : Action V E (Option (Error E))
  runner_wait = do
    turn is_canceled schedule
    runner ← gets (λ r. r.runner)
    waited (Runner.wait runner)

  -- What `Run` does after `start`.
  unfoldable pub run_started : Action V E (Option (Error E))
  run_started = do
    ended ← ctx_err is_canceled schedule
    (if ended then runtime_shutdown else pure tt)
    err ← runner_wait
    modify (λ r. record r { ctx_done = true })
    runtime_shutdown
    set_runtime_state runtime_stopped
    stop_err ← gets (λ r. r.stop_err)
    pure (or_first err stop_err)

  -- `Run` once its guards are passed.
  unfoldable pub run_unstarted :
      RunOptions → Option (Cause (Error E)) → Action V E (Option (Error E))
  run_unstarted opts parent = do
    run_setup opts parent
    is ← gets all_refs
    runtime_start is
    run_started

  -- `Run`, where `has_ctx` is whether its context is not nil.
  unfoldable pub runtime_run :
      Bool → List RunOptions → Option (Cause (Error E)) → Action V E (Option (Error E))
  runtime_run has_ctx opts parent = do
    panic_if (not has_ctx)
    panic_if (ltb 1 (length opts))
    state ← gets (λ r. r.state)
    panic_if (not (is_runtime_setup state))
    run_unstarted (run_options opts) parent
