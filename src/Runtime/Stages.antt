-- ===== src/Runtime/Stages.antt =====
-- runtime.go: what the loops over hooks do to the log and to the states of the Containers.
use gx.Base.{◌≡◌, refl, ap, ◌∙◌, sym, subst, ℕ, zero, suc, Bool, Option, List, [], ◌∷◌, ◌++◌, set}
use gx.Base.Exec.Keeps.{Keeps, Keeps-bind, Keeps-if, Keeps-option, keeps_rules}
use gx.Runtime.Types.{
  Name, Ref, Error, ContainerState, container_running, Hook, Container, Phase, init_phase,
  start_phase, stopping_phase, stop_phase, Message, step_starting, step_error, step_completed,
  Entry, Event,
}
use gx.Runtime.Calls.{update, start_task_locked}
use gx.Runtime.Lifecycle.{
  Loop, fails, cut_short, completed, after_init, container_init, after_start, container_start,
  stop_container, container_shutdown, log_step, set_state, start_tasks, run_hooks, stop_hooks,
  wait_tasks,
}
use gx.Runtime.Keeps.{update-Keeps, container-Keeps}
use gx.Runtime.Frame.{
  View, view, lives, Under, framed, start_task_locked-Sees, turn-Under, ctx_err-Under, exec-Under,
}

module _ {ℓ} {E : Type ℓ} where
  abbrev logged : Entry → View E → View E
  logged e v = record v { log = v.log ++ e ∷ [] }

  abbrev moved : Ref → ContainerState → View E → View E
  moved i s v = record v { lives = set v.lives i s }

module _ {ℓ} {V E : Type ℓ} where
  pub lives-put :
      (cs : List (Container V E)) (i : ℕ) (d : Container V E)
      → lives (set cs i d) ≡ set (lives cs) i d.state
  lives-put [] i d = refl
  lives-put (c ∷ cs) zero d = refl
  lives-put (c ∷ cs) (suc i) d = ap (◌∷◌ c.state) (lives-put cs i d)

module _ {ℓ κ} {V E : Type ℓ} (Q : View E → Type κ) where
  log_step-Under :
      (c : Name) (message : Message) (phase : Phase) (step : Name)
      → ((v : View E)
          → Q v
          → Q (logged (record { message = message; container = c; phase = phase; step = step }) v))
      → Keeps (Under Q) (log_step {V = V} c message phase step)
  unfolding log_step
  log_step-Under c message phase step k = record { at = λ r h. (h.0, k (view r) h.1) }

  become-Under :
      (i : Ref) (s : ContainerState) (f : Container V E → Container V E)
      → ((c : Container V E) → (f c).state ≡ s)
      → ((v : View E) → Q v → Q (moved i s v))
      → Keeps (Under Q) (update i f)
  become-Under i s f same k = update-Keeps (Under Q) i f (λ r c e h. (
    h.0,
    subst (λ ls. Q (record (view r) { lives = ls }))
        (sym (lives-put r.containers i (f c) ∙ ap (set (lives r.containers) i) (same c)))
        (k (view r) h.1),
  ))

  pub set_state-Under :
      (i : Ref) (s : ContainerState)
      → ((v : View E) → Q v → Q (moved i s v))
      → Keeps (Under Q) (set_state {V = V} i s)
  unfolding set_state
  set_state-Under i s k = become-Under i s _ (λ c. refl) k

  module _ (is_canceled : E → Bool) (schedule : ℕ → List (Event V E)) (c : Name) (phase : Phase)
      (k : (v : View E) (message : Message) (step : Name)
        → Q v
        → Q (
            logged
              (record { message = message; container = c; phase = phase; step = step })
              v)) where
    log-Under :
        (message : Message) (step : Name) → Keeps (Under Q) (log_step {V = V} c message phase step)
    log-Under message step = log_step-Under c message phase step (λ v. k v message step)

    run_hooks-Under :
        (hs : List (Hook V E)) → Keeps (Under Q) (run_hooks is_canceled schedule c phase hs)
    unfolding run_hooks
    run_hooks-Under [] = search keeps_rules
    run_hooks-Under (h ∷ hs) = Keeps-bind _ _ (ctx_err-Under is_canceled schedule Q) (λ ended.
        Keeps-if ended _ _ (search keeps_rules) (
          Keeps-bind _ _ (log-Under step_starting h.name) (λ _.
            Keeps-bind _ _ (exec-Under is_canceled schedule Q h.fn) (λ err.
              Keeps-option err _ _
                (Keeps-bind _ _ (log-Under step_completed h.name) (λ _. run_hooks-Under hs))
                (λ e. Keeps-bind _ _ (log-Under step_error h.name) (λ _. search keeps_rules))))))

    pub stop_hooks-Under :
        (hs : List (Hook V E)) (first : Option (Error E))
        → Keeps (Under Q) (stop_hooks is_canceled schedule c phase hs first)
    unfolding stop_hooks
    stop_hooks-Under [] first = search keeps_rules
    stop_hooks-Under (h ∷ hs) first = Keeps-bind _ _ (log-Under step_starting h.name) (λ _.
        Keeps-bind _ _ (exec-Under is_canceled schedule Q h.fn) (λ err.
          Keeps-option err _ _
            (Keeps-bind _ _ (log-Under step_completed h.name) (λ _. stop_hooks-Under hs first))
            (λ e. Keeps-bind _ _ (log-Under step_error h.name) (λ _. stop_hooks-Under hs _))))

  module _ (is_canceled : E → Bool) (schedule : ℕ → List (Event V E)) where
    pub wait_tasks-Under : (i : Ref) → Keeps (Under Q) (wait_tasks is_canceled schedule i)
    unfolding wait_tasks
    wait_tasks-Under i = search (keeps_rules, turn-Under, container-Keeps)

  start_task_locked-Under :
      (i : Ref) (name : Name) → Keeps (Under Q) (start_task_locked {V = V} i name)
  start_task_locked-Under i name = framed Q _ (λ v w. start_task_locked-Sees v i name)

  start_tasks-Under : (i : Ref) (ts : List Name) → Keeps (Under Q) (start_tasks {V = V} i ts)
  unfolding start_tasks
  start_tasks-Under i [] = search keeps_rules
  start_tasks-Under i (t ∷ ts) =
      Keeps-bind _ _ (start_task_locked-Under i t) (λ _. start_tasks-Under i ts)

-- What each entry of a phase and each change of a Container's state keeps.
pub record Allows {ℓ κ} {E : Type ℓ} (phase : Phase) (Q : View E → Type κ) : Type (ℓ ⊔ κ) where
  pub logs :
      (c : Name) (v : View E) (message : Message) (step : Name)
      → Q v
      → Q (logged (record { message = message; container = c; phase = phase; step = step }) v)
  pub moves : (i : Ref) (s : ContainerState) (v : View E) → Q v → Q (moved i s v)

module _ {ℓ κ} {V E : Type ℓ} (is_canceled : E → Bool) (schedule : ℕ → List (Event V E))
    (Q : View E → Type κ) where
  module _ (a : Allows init_phase Q) where
    after_init-Under :
        (i : Ref) (loop : Loop E) → Keeps (Under Q) (after_init is_canceled schedule i loop)
    unfolding after_init
    after_init-Under i (fails e) = search keeps_rules
    after_init-Under i cut_short = search keeps_rules
    after_init-Under i completed = search (keeps_rules, ctx_err-Under, set_state-Under, a.moves)

    pub container_init-Under : (i : Ref) → Keeps (Under Q) (container_init is_canceled schedule i)
    unfolding container_init
    container_init-Under i =
        search
          (
            keeps_rules, container-Keeps, set_state-Under, run_hooks-Under, after_init-Under,
            a.moves, a.logs,
          )
          depth 8

  module _ (a : Allows start_phase Q) where
    after_start-Under :
        (i : Ref) (loop : Loop E) → Keeps (Under Q) (after_start is_canceled schedule i loop)
    unfolding after_start
    after_start-Under i (fails e) = search keeps_rules
    after_start-Under i cut_short = search keeps_rules
    after_start-Under i completed = Keeps-bind _ _ (ctx_err-Under is_canceled schedule Q) (λ ended.
        Keeps-if ended _ _ (search keeps_rules) (
          Keeps-bind _ _ (container-Keeps (Under Q) i) (λ c.
            Keeps-bind _ _ (start_tasks-Under Q i c.tasks) (λ _.
              Keeps-bind _ _
                (become-Under Q i container_running _ (λ c. refl) (a.moves i container_running))
                (λ _. search keeps_rules)))))

    pub container_start-Under : (i : Ref) → Keeps (Under Q) (container_start is_canceled schedule i)
    unfolding container_start
    container_start-Under i =
        search
          (
            keeps_rules, container-Keeps, set_state-Under, run_hooks-Under, after_start-Under,
            a.moves, a.logs,
          )
          depth 8

  module _ (a : Allows stopping_phase Q) (b : Allows stop_phase Q) where
    pub container_shutdown-Under :
        (i : Ref) → Keeps (Under Q) (container_shutdown is_canceled schedule i)
    unfolding container_shutdown stop_container
    container_shutdown-Under i =
        search
          (
            keeps_rules, container-Keeps, set_state-Under, stop_hooks-Under, wait_tasks-Under,
            a.moves, a.logs, b.logs,
          )
          depth 9
