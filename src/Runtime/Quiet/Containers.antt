-- ===== src/Runtime/Quiet/Containers.antt =====
-- runtime.go: how many tasks the Containers have at work, over their start and shutdown.
use gx.Base.{
  ◌≡◌, refl, ap, ◌∙◌, sym, ℕ, Bool, true, false, not, ◌||◌, Option, none, some, List, [], reverse,
  get_elem?, ◌==◌, ==_iff,
}
use gx.Base.Exec.{or_panic, block_unless, ◌>>=◌}
use gx.Base.Exec.Keeps.{Keeps, Keeps-guard, Keeps-if, Keeps-pure, Keeps-bind}
use gx.Base.Exec.Ensures.{
  After, Ensures, Ensures-pure, Ensures-bind, Ensures-kept, Ensures-if, Ensures-guard,
}
use gx.Runtime.Types.{
  Ref, container_initializing, container_initialized, container_starting, container_running,
  container_stopping, Container, init_phase, start_phase, stopping_phase, stop_phase, Runtime,
  Event,
}
use gx.Runtime.Calls.{Action, is_setup, container}
use gx.Runtime.Lifecycle.{
  Loop, fails, cut_short, completed, is_initialized, is_stopped, after_init, after_start,
  container_init, container_start, wait_tasks, stop_container, container_shutdown,
}
use gx.Runtime.Keeps.{container-Keeps}
use gx.Runtime.Quiet.{Quiet, quiet_rules}
use gx.Runtime.Quiet.Turns.{turn-Quiet, ctx_err-Quiet, run_hooks-Quiet, stop_hooks-Quiet}
use gx.Runtime.Quiet.Rules.{
  Resting, Resting-IsSteady, InState, Drained, stopping-IsSteady, starting-IsSteady,
  Drained-IsSteady, update-Ensures, set_state-InState, set_state-Resting, set_stopped-Resting,
  start_tasks-Quiet, forget,
}
use gx.Runtime.Invariant.{some_inj}

module _ {ℓ} {V E : Type ℓ} (is_canceled : E → Bool) (schedule : ℕ → List (Event V E)) where
  after_init-Resting :
      (i : Ref) (loop : Loop E) → Keeps (Quiet Resting) (after_init is_canceled schedule i loop)
  unfolding after_init
  after_init-Resting i (fails e) = search quiet_rules
  after_init-Resting i cut_short = search quiet_rules
  after_init-Resting i completed =
      Keeps-bind _ _ (ctx_err-Quiet is_canceled Resting-IsSteady schedule) (λ ended.
        Keeps-if ended _ _ (Keeps-pure none)
          (Keeps-bind _ _ (set_state-Resting i container_initialized refl) (λ _. Keeps-pure none)))

  pub container_init-Resting :
      (i : Ref) → Keeps (Quiet Resting) (container_init is_canceled schedule i)
  unfolding container_init
  container_init-Resting i = Keeps-bind _ _ (container-Keeps _ i) (λ c.
      Keeps-guard (not (is_setup c.state)) _ (λ _.
        Keeps-bind _ _ (set_state-Resting i container_initializing refl) (λ _.
          Keeps-bind _ _
            (run_hooks-Quiet is_canceled Resting-IsSteady schedule c.name init_phase c.init_fns)
            (λ loop. after_init-Resting i loop))))

  after_start-Resting :
      (i : Ref) (loop : Loop E)
      → Ensures
          (Quiet (InState i container_starting))
          (after_start is_canceled schedule i loop)
          (λ _. Quiet Resting)
  unfolding after_start
  after_start-Resting i (fails e) = Ensures-pure (some e) (λ r. forget r (λ j s w q. q.0))
  after_start-Resting i cut_short = Ensures-pure none (λ r. forget r (λ j s w q. q.0))
  after_start-Resting i completed =
      Ensures-bind _ _ (Ensures-kept (ctx_err-Quiet is_canceled (starting-IsSteady i) schedule))
        (λ ended. Ensures-if ended _ _ (Ensures-pure none (λ r. forget r (λ j s w q. q.0))) (
          Ensures-bind _ _ (Ensures-kept (container-Keeps _ i)) (λ c.
            Ensures-bind _ _ (Ensures-kept (start_tasks-Quiet i c.tasks)) (λ _.
              Ensures-bind _ _
                (update-Ensures {Q = Resting} i
                  (λ c. record c { tasks = []; state = container_running }) (λ j s w n q. q.0)
                  (λ c q e. absurd (cc)))
                (λ _. Ensures-pure none (λ r q. q))))))

  pub container_start-Resting :
      (i : Ref)
      → Ensures (Quiet Resting) (container_start is_canceled schedule i) (λ _. Quiet Resting)
  unfolding container_start
  container_start-Resting i = Ensures-bind _ _ (Ensures-kept (container-Keeps _ i)) (λ c.
      Ensures-guard (not (is_initialized c.state)) _ (λ _.
        Ensures-bind _ _ (set_state-InState i container_starting refl) (λ _.
          Ensures-bind _ _
            (Ensures-kept (
              run_hooks-Quiet is_canceled (starting-IsSteady i) schedule c.name start_phase
                c.start_fns))
            (λ loop. after_start-Resting i loop))))

  wait_tasks-Drained :
      (i : Ref)
      → Ensures
          (Quiet (InState i container_stopping))
          (wait_tasks is_canceled schedule i)
          (λ _. Quiet (Drained i))
  unfolding wait_tasks container
  wait_tasks-Drained i =
      Ensures-bind _ _ (Ensures-kept (turn-Quiet is_canceled (stopping-IsSteady i) schedule))
        (λ _. record { at = λ r u. after r u (get_elem? r.containers i) refl })
    where
      waits : Container V E → Action V E (Unit {0})
      waits c = block_unless (c.wg == 0)

      drained :
          (r : Runtime V E)
          → Quiet (InState i container_stopping) r
          → (c : Container V E) → get_elem? r.containers i ≡ some c
          → (b : Bool) → (c.wg == 0) ≡ b
          → After (λ _. Quiet (Drained i)) (block_unless {S = Runtime V E} b r).0 r
      drained r u c e false h = tt
      drained r u c e true h = record {
        begun = u.begun;
        each = λ j d e'. (
          (u.each j d e').0,
          λ p. (
            (u.each j d e').1 p,
            ap (λ c. c.wg) (some_inj (sym e' ∙ ap (get_elem? r.containers) p ∙ e))
                ∙ (==_iff c.wg 0).0 h,
          ),
        );
      }

      after :
          (r : Runtime V E)
          → Quiet (InState i container_stopping) r
          → (o : Option (Container V E)) → get_elem? r.containers i ≡ o
          → After (λ _. Quiet (Drained i)) ((or_panic o >>= waits) r).0 ((or_panic o >>= waits) r).1
      after r u none e = tt
      after r u (some c) e = drained r u c e (c.wg == 0) refl

  stop_container-Resting :
      (i : Ref) (c : Container V E)
      → Ensures (Quiet Resting) (stop_container is_canceled schedule i c) (λ _. Quiet Resting)
  unfolding stop_container
  stop_container-Resting i c = Ensures-bind _ _ (set_state-InState i container_stopping refl) (λ _.
      Ensures-bind _ _
        (Ensures-kept (
          stop_hooks-Quiet is_canceled (stopping-IsSteady i) schedule c.name stopping_phase
            (reverse c.stopping_fns) none))
        (λ first. Ensures-bind _ _ (wait_tasks-Drained i) (λ _.
          Ensures-bind _ _
            (Ensures-kept (
              stop_hooks-Quiet is_canceled (Drained-IsSteady i) schedule c.name stop_phase
                (reverse c.stop_fns) first))
            (λ err. Ensures-bind _ _ (set_stopped-Resting i) (λ _. Ensures-pure err (λ r q. q))))))

  pub container_shutdown-Resting :
      (i : Ref)
      → Ensures (Quiet Resting) (container_shutdown is_canceled schedule i) (λ _. Quiet Resting)
  unfolding container_shutdown
  container_shutdown-Resting i = Ensures-bind _ _ (Ensures-kept (container-Keeps _ i)) (λ c.
      Ensures-if (is_setup c.state || is_stopped c.state) _ _ (Ensures-pure none (λ r q. q))
        (stop_container-Resting i c))
