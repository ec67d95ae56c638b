-- ===== src/Runtime/Quiet/Turns.antt =====
-- runtime.go: how many tasks the Containers have at work, between the calls of a hook and over hooks.
use gx.Base.{refl, ℕ, Bool, Option, none, some, List, [], ◌∷◌}
use gx.Base.Exec.Keeps.{Keeps, Keeps-pure, Keeps-gets, Keeps-bind, Keeps-if, Keeps-option}
use gx.Runtime.Types.{
  Name, Ref, Error, Program, returns, calls, Hook, Phase, Message, step_starting, step_error,
  step_completed, Event, exits, reports, parent_ends, ctx_ends, task_calls,
}
use gx.Runtime.Keeps.{container-Keeps}
use gx.Runtime.Turns.{
  is_listed, stop_task, report, task_exits, happen, happen_all, turn, ctx_err, exec,
}
use gx.Runtime.Lifecycle.{log_step, run_hooks, stop_hooks}
use gx.Runtime.Quiet.{Rule, Quiet, IsSteady, update-Quiet, elsewhere-Quiet, quiet_rules, call-Quiet}

module _ {ℓ} {V E : Type ℓ} (is_canceled : E → Bool) {Q : Rule} (k : IsSteady Q) where
  task_exits-Quiet :
      (i : Ref) (name : Name) (err : Option E)
      → Keeps (Quiet {V = V} Q) (task_exits is_canceled i name err)
  unfolding task_exits stop_task
  task_exits-Quiet i name err = Keeps-bind _ _ (container-Keeps (Quiet Q) i) (λ c.
      Keeps-bind _ _ (Keeps-gets (λ r. r.ctx_done)) (λ ctx_done.
        Keeps-if (is_listed name c.running) _ _
          (Keeps-bind _ _ (update-Quiet i _ (λ c q. q)) (λ _.
            Keeps-bind _ _ (update-Quiet i _ (λ c q. k.falls i c.state c.wg q))
              (λ _. elsewhere-Quiet _ (λ r. refl) (λ r b. b))))
          (Keeps-pure tt)))

  report-Quiet : (o : Option (Option (Error E))) (n : ℕ) → Keeps (Quiet {V = V} Q) (report o n)
  report-Quiet none n = search quiet_rules
  report-Quiet (some result) n = search quiet_rules

  happen-Quiet : (e : Event V E) → Keeps (Quiet Q) (happen is_canceled e)
  unfolding happen
  happen-Quiet (exits i name err) = task_exits-Quiet i name err
  happen-Quiet (reports n) = search (quiet_rules, report-Quiet)
  happen-Quiet (parent_ends c) = search quiet_rules
  happen-Quiet ctx_ends = search quiet_rules
  happen-Quiet (task_calls c) = search (quiet_rules, call-Quiet)

  happen_all-Quiet : (es : List (Event V E)) → Keeps (Quiet Q) (happen_all is_canceled es)
  unfolding happen_all
  happen_all-Quiet [] = search quiet_rules
  happen_all-Quiet (e ∷ es) = Keeps-bind _ _ (happen-Quiet e) (λ _. happen_all-Quiet es)

  module _ (schedule : ℕ → List (Event V E)) where
    pub turn-Quiet : Keeps (Quiet Q) (turn is_canceled schedule)
    unfolding turn
    turn-Quiet = search (quiet_rules, happen_all-Quiet)

    pub ctx_err-Quiet : Keeps (Quiet Q) (ctx_err is_canceled schedule)
    unfolding ctx_err
    ctx_err-Quiet = search (quiet_rules, turn-Quiet)

    exec-Quiet : (p : Program V E) → Keeps (Quiet Q) (exec is_canceled schedule p)
    unfolding exec
    exec-Quiet (returns err) = search quiet_rules
    exec-Quiet (calls c p) =
        Keeps-bind _ _ turn-Quiet
          (λ _. Keeps-bind _ _ (call-Quiet k c) (λ reply. exec-Quiet (p reply)))

    log_step-Quiet :
        (c : Name) (m : Message) (phase : Phase) (step : Name)
        → Keeps (Quiet {V = V} {E = E} Q) (log_step c m phase step)
    unfolding log_step
    log_step-Quiet c m phase step = search quiet_rules

    pub run_hooks-Quiet :
        (c : Name) (phase : Phase) (hs : List (Hook V E))
        → Keeps (Quiet Q) (run_hooks is_canceled schedule c phase hs)
    unfolding run_hooks
    run_hooks-Quiet c phase [] = search quiet_rules
    run_hooks-Quiet c phase (h ∷ hs) = Keeps-bind _ _ ctx_err-Quiet (λ ended.
        Keeps-if ended _ _ (search quiet_rules) (
          Keeps-bind _ _ (log_step-Quiet c step_starting phase h.name) (λ _.
            Keeps-bind _ _ (exec-Quiet h.fn) (λ err.
              Keeps-option err _ _
                (Keeps-bind _ _ (log_step-Quiet c step_completed phase h.name)
                  (λ _. run_hooks-Quiet c phase hs))
                (λ e. search (quiet_rules, log_step-Quiet))))))

    pub stop_hooks-Quiet :
        (c : Name) (phase : Phase) (hs : List (Hook V E)) (first : Option (Error E))
        → Keeps (Quiet Q) (stop_hooks is_canceled schedule c phase hs first)
    unfolding stop_hooks
    stop_hooks-Quiet c phase [] first = search quiet_rules
    stop_hooks-Quiet c phase (h ∷ hs) first =
        Keeps-bind _ _ (log_step-Quiet c step_starting phase h.name) (λ _.
          Keeps-bind _ _ (exec-Quiet h.fn) (λ err.
            Keeps-option err _ _
              (Keeps-bind _ _ (log_step-Quiet c step_completed phase h.name)
                (λ _. stop_hooks-Quiet c phase hs first))
              (λ e.
                Keeps-bind _ _ (log_step-Quiet c step_error phase h.name)
                  (λ _. stop_hooks-Quiet c phase hs _))))
