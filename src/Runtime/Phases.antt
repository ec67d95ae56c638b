-- ===== src/Runtime/Phases.antt =====
-- runtime.go: the order of the phases of a run.
use gx.Base.{
  ◌≡◌, refl, sym, subst, ℕ, ◌≤◌, Bool, true, false, not, Option, none, some, List, [], ◌∷◌, ◌++◌,
  length, ltb, arith,
}
use gx.Base.Exec.{gets, ◌>>◌}
use gx.Base.Exec.Keeps.{
  Keeps, Keeps-bind, Keeps-if, Keeps-option, Keeps-gets, Keeps-modify, keeps_rules, Leads,
  Leads-kept, Leads-bind, Leads-guard,
}
use gx.Runner.{Runner}
use gx.Sync.Context.{Cause}
use gx.Runtime.Types.{
  Ref, Error, RuntimeState, runtime_running, Phase, init_phase, start_phase, stopping_phase,
  stop_phase, Entry, Runtime, Event,
}
use gx.Runtime.Calls.{Action, is_runtime_setup}
use gx.Runtime.Run.{
  RunOptions, run_unstarted, all_refs, startup_failed, cancel_runner, each_container,
  start_initialized, runtime_start, record_stop_err, shutdown_each, shutdown_first,
  runtime_shutdown, waited, runner_wait, run_started, run_setup, run_options, set_runtime_state,
  runtime_run,
}
use gx.Runtime.Frame.{View, view, Under, turn-Under, ctx_err-Under}
use gx.Runtime.Stages.{
  Allows, container_init-Under, container_start-Under, container_shutdown-Under,
}

abbrev pub rank : Phase → ℕ
rank init_phase = 0
rank start_phase = 1
rank stopping_phase = 2
rank stop_phase = 2

-- The phases of a log, from `lo` to `hi`, never go back.
abbrev pub InOrder : ℕ → ℕ → List Entry → Type 0
InOrder lo hi [] = lo ≤ hi
InOrder lo hi (e ∷ log) = (lo ≤ rank e.phase) × InOrder (rank e.phase) hi log

InOrder-snoc :
    (lo hi : ℕ) (log : List Entry) (e : Entry)
    → rank e.phase ≡ hi
    → InOrder lo hi log
    → InOrder lo hi (log ++ e ∷ [])
InOrder-snoc lo hi [] e same h = (omega arith, omega arith)
InOrder-snoc lo hi (d ∷ log) e same h = (h.0, InOrder-snoc (rank d.phase) hi log e same h.1)

InOrder-le : (lo : ℕ) {m n : ℕ} (log : List Entry) → m ≤ n → InOrder lo m log → InOrder lo n log
InOrder-le lo [] le h = omega arith
InOrder-le lo (e ∷ log) le h = (h.0, InOrder-le (rank e.phase) log le h.1)

abbrev UpTo {ℓ} : {E : Type ℓ} → ℕ → View E → Type 0
UpTo n v = InOrder 0 n v.log

UpTo-Allows {ℓ} :
    {E : Type ℓ} (phase : Phase) (n : ℕ) → rank phase ≡ n → Allows {E = E} phase (UpTo n)
UpTo-Allows phase n e = record {
  logs = λ c v message step h. InOrder-snoc 0 n v.log _ e h;
  moves = λ i s v h. h;
}

module _ {ℓ} {V E : Type ℓ} (is_canceled : E → Bool) (schedule : ℕ → List (Event V E)) where
  module _ {κ} (Q : View E → Type κ) where
    cancel_runner-Under : (e : Error E) → Keeps (Under {V = V} Q) (cancel_runner e)
    unfolding cancel_runner
    cancel_runner-Under e = search keeps_rules

    startup_failed-Under : (e : Error E) → Keeps (Under Q) (startup_failed is_canceled schedule e)
    unfolding startup_failed
    startup_failed-Under e = search (keeps_rules, ctx_err-Under, cancel_runner-Under)

    each_container-Under :
        {step : Ref → Action V E (Option (Error E))}
        → ((i : Ref) → Keeps (Under Q) (step i))
        → (is : List Ref) → Keeps (Under Q) (each_container is_canceled schedule step is)
    unfolding each_container
    each_container-Under k [] = search keeps_rules
    each_container-Under {step} k (i ∷ is) =
        Keeps-bind _ _ (ctx_err-Under is_canceled schedule Q) (λ ended.
          Keeps-if ended _ _ (search keeps_rules) (
            Keeps-bind _ _ (k i) (λ err.
              Keeps-option err _ _ (each_container-Under k is)
                (λ e. Keeps-bind _ _ (startup_failed-Under e) (λ _. search keeps_rules)))))

    shutdown_each-Under :
        (a : Allows stopping_phase Q) (b : Allows stop_phase Q)
        → ((v : View E) (e : Option (Error E)) → Q v → Q (record v { stop_err = e }))
        → (is : List Ref) → Keeps (Under Q) (shutdown_each is_canceled schedule is)
    unfolding shutdown_each record_stop_err
    shutdown_each-Under a b k [] = search keeps_rules
    shutdown_each-Under a b k (i ∷ is) =
        Keeps-bind _ _ (container_shutdown-Under is_canceled schedule Q a b i)
          (λ err. Keeps-bind _ _ (record_stop_err-Under err) (λ _. shutdown_each-Under a b k is))
      where
        record_stop_err-Under :
            (err : Option (Error E)) → Keeps (Under {V = V} Q) (record_stop_err err)
        record_stop_err-Under err = record { at = λ r h. (h.0, k (view r) _ h.1) }

    waited-Under :
        (o : Option (Option (Error E) × Runner (Error E))) → Keeps (Under {V = V} Q) (waited o)
    unfolding waited
    waited-Under none = search keeps_rules
    waited-Under (some (err, runner)) = search keeps_rules

    pub runner_wait-Under : Keeps (Under Q) (runner_wait is_canceled schedule)
    unfolding runner_wait
    runner_wait-Under = search (keeps_rules, turn-Under, waited-Under)

    pub set_runtime_state-Under :
        (s : RuntimeState)
        → is_runtime_setup s ≡ false
        → ((v : View E) → Q v → Q (record v { state = s }))
        → Keeps (Under {V = V} Q) (set_runtime_state s)
    unfolding set_runtime_state
    set_runtime_state-Under s w k = record { at = λ r h. (w, k (view r) h.1) }

    -- What the start keeps that does not read the state of the Runtime.
    module _ (a : Allows start_phase Q)
        (k : (s : RuntimeState) (v : View E) → Q v → Q (record v { state = s })) where
      start_initialized-Under :
          (is : List Ref) (b : Bool) → Keeps (Under Q) (start_initialized is_canceled schedule is b)
      unfolding start_initialized
      start_initialized-Under is false = search keeps_rules
      start_initialized-Under is true =
          Keeps-bind _ _ (ctx_err-Under is_canceled schedule Q) (λ ended.
            Keeps-if ended _ _ (search keeps_rules) (
              Keeps-bind _ _ (set_runtime_state-Under runtime_running refl (k runtime_running))
                (λ _.
                  Keeps-bind _ _
                    (each_container-Under (container_start-Under is_canceled schedule Q a) is)
                    (λ started. search keeps_rules))))

      pub runtime_start-Under :
          Allows init_phase Q
          → ((v : View E) → Q v → Q (record v { startup_done = true }))
          → (is : List Ref) → Keeps (Under Q) (runtime_start is_canceled schedule is)
      unfolding runtime_start
      runtime_start-Under b d is =
          Keeps-bind _ _ (each_container-Under (container_init-Under is_canceled schedule Q b) is)
            (λ initialized.
              Keeps-bind _ _ (start_initialized-Under is initialized)
                (λ _. Keeps-modify _ (λ r h. (h.0, d (view r) h.1))))

  shutdown_first-UpTo : Keeps (Under (UpTo 2)) (shutdown_first is_canceled schedule)
  unfolding shutdown_first
  shutdown_first-UpTo = search (keeps_rules, shutdown_each-Under, UpTo-Allows) depth 8

  runtime_shutdown-UpTo : Keeps (Under (UpTo 2)) (runtime_shutdown is_canceled schedule)
  unfolding runtime_shutdown
  runtime_shutdown-UpTo = search (keeps_rules, shutdown_first-UpTo)

  run_started-UpTo : Keeps (Under (UpTo 2)) (run_started is_canceled schedule)
  unfolding run_started
  run_started-UpTo =
      search
        (
          keeps_rules, ctx_err-Under, runtime_shutdown-UpTo, runner_wait-Under,
          set_runtime_state-Under,
        )
        depth 9

  runtime_start-UpTo :
      (is : List Ref)
      → Leads (Under (UpTo 0)) (runtime_start is_canceled schedule is) (Under (UpTo 1))
  unfolding runtime_start
  runtime_start-UpTo is =
      Leads-bind _ _
        (Leads-kept (λ r h. h)
          (each_container-Under (UpTo 0)
            (container_init-Under is_canceled schedule (UpTo 0) (UpTo-Allows init_phase 0 refl))
            is))
        (λ r h. (h.0, InOrder-le 0 r.log (omega arith) h.1))
        (λ initialized.
          Leads-kept (λ r h. (h.0, InOrder-le 0 r.log (omega arith) h.1))
            (Keeps-bind _ _
              (start_initialized-Under (UpTo 1) (UpTo-Allows start_phase 1 refl) (λ s v h. h) is
                initialized)
              (λ _. Keeps-modify _ (λ r h. h))))

  run_after_setup :
      (is : List Ref)
      → Leads
          (Under (UpTo 0))
          (runtime_start is_canceled schedule is >> run_started is_canceled schedule)
          (Under (UpTo 2))
  run_after_setup is =
      Leads-bind _ _ (runtime_start-UpTo is) (λ r h. (h.0, InOrder-le 0 r.log (omega arith) h.1))
        (λ _. Leads-kept (λ r h. (h.0, InOrder-le 0 r.log (omega arith) h.1)) run_started-UpTo)

  abbrev Logged : ℕ → Runtime V E → Type 0
  Logged n r = InOrder 0 n r.log

  run_unstarted-Logged :
      (opts : RunOptions) (parent : Option (Cause (Error E)))
      → Leads (Logged 0) (run_unstarted is_canceled schedule opts parent) (Logged 2)
  unfolding run_unstarted run_setup
  run_unstarted-Logged opts parent = record {
    at = λ r h. ((run_after_setup (all_refs r)).at (run_setup opts parent r).1 (refl, h)).1;
  }

  runtime_run-Logged :
      (has_ctx : Bool) (opts : List RunOptions) (parent : Option (Cause (Error E)))
      → Leads (Logged 0) (runtime_run is_canceled schedule has_ctx opts parent) (Logged 2)
  unfolding runtime_run
  runtime_run-Logged has_ctx opts parent = Leads-guard (not has_ctx) _ weaker (λ _.
      Leads-guard (ltb 1 (length opts)) _ weaker (λ _.
        Leads-bind (gets (λ r. r.state)) _ (Leads-kept (λ r h. h) (Keeps-gets _)) weaker (λ state.
          Leads-guard (not (is_runtime_setup state))
            (run_unstarted is_canceled schedule (run_options opts) parent) weaker
            (λ _. run_unstarted-Logged (run_options opts) parent))))
    where
      weaker : (r : Runtime V E) → Logged 0 r → Logged 2 r
      weaker r h = InOrder-le 0 r.log (omega arith) h

  -- However `Run` ends, where nothing was logged before: the log has the entries of all initialization
  -- hooks first, then those of all start hooks, then those of all stopping and stop hooks, of whatever
  -- Container.
  pub runtime_run-InOrder :
      (has_ctx : Bool) (opts : List RunOptions) (parent : Option (Cause (Error E)))
      (r : Runtime V E)
      → r.log ≡ []
      → InOrder 0 2 (runtime_run is_canceled schedule has_ctx opts parent r).1.log
  runtime_run-InOrder has_ctx opts parent r e =
      (runtime_run-Logged has_ctx opts parent).at r (subst (InOrder 0 0) (sym e) (omega arith))
