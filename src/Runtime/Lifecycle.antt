-- ===== src/Runtime/Lifecycle.antt =====
-- runtime.go: the initialization, the start and the shutdown of a Container.
use gx.Base.{
  ℕ, Bool, true, false, not, ◌||◌, Option, none, some, List, [], ◌∷◌, ◌++◌, reverse, if◌then◌else◌,
  ◌==◌,
}
use gx.Base.Exec.{pure, modify, panic_if, block_unless, ◌>>=◌, ◌>>◌}
use gx.Runtime.Types.{
  Name, Ref, Error, failed, ContainerState, container_initializing, container_initialized,
  container_starting, container_running, container_stopping, container_stopped, Hook, Container,
  Phase, init_phase, start_phase, stopping_phase, stop_phase, Message, step_starting, step_error,
  step_completed, Event,
}
use gx.Runtime.Calls.{Action, container, update, is_setup, start_task_locked}
use gx.Runtime.Turns.{turn, ctx_err, exec}

abbrev pub is_initialized : ContainerState → Bool
is_initialized container_initialized = true
is_initialized _ = false

abbrev pub is_stopped : ContainerState → Bool
is_stopped container_stopped = true
is_stopped _ = false

-- How the loop over the hooks of `init` or `start` ends.
pub data Loop {ℓ} (E : Type ℓ) : Type ℓ where
  completed cut_short : Loop E
  fails : Error E → Loop E

-- `if firstErr == nil`
abbrev pub or_first {ℓ} : {E : Type ℓ} → Option E → Option E → Option E
or_first none e = e
or_first (some d) e = some d

module _ {ℓ} {V E : Type ℓ} where
  unfoldable pub log_step : Name → Message → Phase → Name → Action V E (Unit {0})
  log_step c message phase step = modify (λ r. record r {
    log = r.log ++ record { message = message; container = c; phase = phase; step = step } ∷ [];
  })

  unfoldable pub set_state : Ref → ContainerState → Action V E (Unit {0})
  set_state i state = update i (λ c. record c { state = state })

  unfoldable pub start_tasks : Ref → List Name → Action V E (Unit {0})
  start_tasks i [] = pure tt
  start_tasks i (t ∷ ts) = do start_task_locked i t; start_tasks i ts

module _ {ℓ} {V E : Type ℓ} (is_canceled : E → Bool) (schedule : ℕ → List (Event V E)) where
  -- The loop of `init` and of `start`, over the hooks of a Container with a name.
  unfoldable pub run_hooks : Name → Phase → List (Hook V E) → Action V E (Loop E)
  run_hooks c phase [] = pure completed
  run_hooks c phase (h ∷ hs) = do
    ended ← ctx_err is_canceled schedule
    if ended then pure cut_short else (do
      log_step c step_starting phase h.name
      err ← exec is_canceled schedule h.fn
      elim err [
        | some e ↦ (do log_step c step_error phase h.name; pure (fails (failed c h.name e)))
        | none ↦ (do log_step c step_completed phase h.name; run_hooks c phase hs)
      ])

  unfoldable pub after_init : Ref → Loop E → Action V E (Option (Error E))
  after_init i (fails e) = pure (some e)
  after_init i cut_short = pure none
  after_init i completed = do
    ended ← ctx_err is_canceled schedule
    if ended then pure none else (do set_state i container_initialized; pure none)

  -- `Container.init`
  unfoldable pub container_init : Ref → Action V E (Option (Error E))
  container_init i = do
    c ← container i
    panic_if (not (is_setup c.state))
    set_state i container_initializing
    loop ← run_hooks c.name init_phase c.init_fns
    after_init i loop

  unfoldable pub after_start : Ref → Loop E → Action V E (Option (Error E))
  after_start i (fails e) = pure (some e)
  after_start i cut_short = pure none
  after_start i completed = do
    ended ← ctx_err is_canceled schedule
    if ended then pure none else (do
      c ← container i
      start_tasks i c.tasks
      update i (λ c. record c { tasks = []; state = container_running })
      pure none)

  -- `Container.start`
  unfoldable pub container_start : Ref → Action V E (Option (Error E))
  container_start i = do
    c ← container i
    panic_if (not (is_initialized c.state))
    set_state i container_starting
    loop ← run_hooks c.name start_phase c.start_fns
    after_start i loop

  -- A loop of `shutdown`, with the first error so far.
  unfoldable pub stop_hooks :
      Name → Phase → List (Hook V E) → Option (Error E) → Action V E (Option (Error E))
  stop_hooks c phase [] first = pure first
  stop_hooks c phase (h ∷ hs) first = do
    log_step c step_starting phase h.name
    err ← exec is_canceled schedule h.fn
    elim err [
      | some e ↦ (do
        log_step c step_error phase h.name
        stop_hooks c phase hs (or_first first (some (failed c h.name e))))
      | none ↦ (do log_step c step_completed phase h.name; stop_hooks c phase hs first)
    ]

  -- `c.wg.Wait()`
  unfoldable pub wait_tasks : Ref → Action V E (Unit {0})
  wait_tasks i = do turn is_canceled schedule; c ← container i; block_unless (c.wg == 0)

  -- The rest of `shutdown`, for a Container as it was under the lock.
  unfoldable pub stop_container : Ref → Container V E → Action V E (Option (Error E))
  stop_container i c = do
    set_state i container_stopping
    first ← stop_hooks c.name stopping_phase (reverse c.stopping_fns) none
    wait_tasks i
    err ← stop_hooks c.name stop_phase (reverse c.stop_fns) first
    set_state i container_stopped
    pure err

  -- `Container.shutdown`
  unfoldable pub container_shutdown : Ref → Action V E (Option (Error E))
  container_shutdown i = do
    c ← container i
    if is_setup c.state || is_stopped c.state then pure none else stop_container i c
