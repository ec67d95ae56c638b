-- ===== src/Runtime/Reports.antt =====
-- runtime.go: the errors of the shutdown, and how `Run` returns them.
pub mod Each
use gx.Base.{
  ◌≡◌, refl, ap, ◌∙◌, sym, subst, ℕ, Bool, true, false, Bool-cases, inl, inr, not, ◌||◌, Option,
  none, some, List, [], ◌∷◌, length, ltb, reverse, get_elem?, if◌then◌else◌, arith, ◌⊎◌,
}
use gx.Base.Exec.{Result, ok, Exec, pure, gets, modify, panic_if, block_unless, ◌>>=◌, ◌>>◌}
use gx.Base.Exec.Keeps.{Keeps}
use gx.Runtime.Types.{runtime_stopped, Ref, Error, Container, Runtime, Event}
use gx.Runtime.Calls.{Action, container, is_setup, is_runtime_setup}
use gx.Runtime.Lifecycle.{or_first, is_stopped, stop_container, container_shutdown}
use gx.Sync.Context.{Cause}
use gx.Runtime.Turns.{ctx_err}
use gx.Runtime.Phases.{runtime_start-Under, runner_wait-Under}
use gx.Runtime.Run.{
  RunOptions, run_options, all_refs, set_runtime_state, record_stop_err, shutdown_each,
  shutdown_first, runtime_shutdown, run_setup, runtime_start, runner_wait, run_started,
  run_unstarted, runtime_run,
}
use gx.Runtime.Frame.{View, view, Under, ctx_err-Under}
use gx.Runtime.Stages.{container_shutdown-Under}
use gx.Runtime.Executed.{bind_ok}
use gx.Runtime.Shutdown.{container_ok, ShutDown, stop_container-ShutDown}
use Each.{
  last_first, kept, EachShut, Tells, Recorded, LoopShut, marked, runtime_shutdown_first,
  runtime_shutdown_again,
}

module _ {ℓ} {V E : Type ℓ} (is_canceled : E → Bool) (schedule : ℕ → List (Event V E)) where
  -- What `Run` does after the start: the Containers are shut down as soon as the context is done, or once
  -- the Runner's tasks have ended, and its error is that of the Runner or else the first of the shutdown.
  pub data Closed (r : Runtime V E) : Option (Error E) → Runtime V E → Type ℓ where
    early :
        {waited first : Option (Error E)} {s t u : Runtime V E}
        → ctx_err is_canceled schedule r ≡ (ok true, s)
        → EachShut is_canceled schedule (last_first s) first (marked s) t
        → runner_wait is_canceled schedule t ≡ (ok waited, u)
        → Closed r (or_first waited first) (record u { ctx_done = true; state = runtime_stopped })
    late :
        {waited first : Option (Error E)} {s t u : Runtime V E}
        → ctx_err is_canceled schedule r ≡ (ok false, s)
        → runner_wait is_canceled schedule s ≡ (ok waited, t)
        → EachShut is_canceled schedule
            (last_first t)
            first
            (marked (record t { ctx_done = true }))
            u
        → Closed r (or_first waited first) (record u { state = runtime_stopped })

  -- What `Run` returns in the end.
  abbrev ending : Option (Error E) → Runtime V E → Result (Option (Error E)) × Runtime V E
  ending waited v = (ok (or_first waited v.stop_err), record v { state = runtime_stopped })

  closes :
      (r v : Runtime V E) (waited first : Option (Error E)) {err : Option (Error E)}
      {r' : Runtime V E}
      → v.stop_err ≡ first
      → Closed r (or_first waited first) (record v { state = runtime_stopped })
      → ending waited v ≡ (ok err, r')
      → Closed r err r'
  closes r v waited first {err} {r'} h q e =
      subst (λ x. Closed r x r') (ap (or_first waited) (sym h) ∙ cc)
        (subst (Closed r (or_first waited first)) (cc) q)

  run_started-Closed :
      (r : Runtime V E) {err : Option (Error E)} {r' : Runtime V E}
      → Recorded false none r
      → run_started is_canceled schedule r ≡ (ok err, r')
      → Closed r err r'
  unfolding run_started set_runtime_state
  run_started-Closed r {err} {r'} w e =
      let (ended, s, looked, e1) = bind_ok (ctx_err is_canceled schedule) after_look r e in
      let (_, t, first_call, e2) = bind_ok (if_ended ended) (λ _. after_call) s e1 in
      let (waited, u, wait, e3) = bind_ok (runner_wait is_canceled schedule) after_wait t e2 in
      let (_, v, second_call, e4) =
        bind_ok (runtime_shutdown is_canceled schedule) (λ _. finish waited)
          (record u { ctx_done = true }) e3 in
      at ended s t u v waited
        (kept (ctx_err-Under is_canceled schedule (Tells false none)) r w looked) looked first_call
        wait second_call e4
    where
      finish : Option (Error E) → Action V E (Option (Error E))
      finish waited = do
        set_runtime_state runtime_stopped
        stop_err ← gets (λ r. r.stop_err)
        pure (or_first waited stop_err)

      after_wait : Option (Error E) → Action V E (Option (Error E))
      after_wait waited = do
        modify (λ r. record r { ctx_done = true })
        runtime_shutdown is_canceled schedule
        finish waited

      after_call : Action V E (Option (Error E))
      after_call = do waited ← runner_wait is_canceled schedule; after_wait waited

      if_ended : Bool → Action V E (Unit {0})
      if_ended ended = if ended then runtime_shutdown is_canceled schedule else pure tt

      after_look : Bool → Action V E (Option (Error E))
      after_look ended = do if_ended ended; after_call

      at :
          (ended : Bool) (s t u v : Runtime V E) (waited : Option (Error E)) {a b : Unit {0}}
          → Recorded false none s
          → ctx_err is_canceled schedule r ≡ (ok ended, s)
          → if_ended ended s ≡ (ok a, t)
          → runner_wait is_canceled schedule t ≡ (ok waited, u)
          → runtime_shutdown is_canceled schedule (record u { ctx_done = true }) ≡ (ok b, v)
          → ending waited v ≡ (ok err, r')
          → Closed r err r'
      at true s t u v waited w looked call wait again f =
          let (first, each, x) = runtime_shutdown_first is_canceled schedule none s w call in
          let y : Recorded true first u =
            kept (runner_wait-Under is_canceled schedule (Tells true first)) t x wait in
          let same : record u { ctx_done = true } ≡ v =
            runtime_shutdown_again is_canceled schedule first (record u { ctx_done = true }) y
              again in
          closes r (record u { ctx_done = true }) waited first y.1.1 (early looked each wait)
            (ap (ending waited) same ∙ f)
      at false s t u v waited w looked call wait again f =
          let wait' : runner_wait is_canceled schedule s ≡ (ok waited, u) =
            subst (λ x. runner_wait is_canceled schedule x ≡ (ok waited, u))
              (sym (ap (λ p. p.1) call)) wait in
          let y : Recorded false none u =
            kept (runner_wait-Under is_canceled schedule (Tells false none)) s w wait' in
          let (first, each, x) =
            runtime_shutdown_first is_canceled schedule none (record u { ctx_done = true }) y
              again in
          closes r v waited first x.1.1 (late looked wait' each) f

  run_unstarted-Closed :
      (opts : RunOptions) (parent : Option (Cause (Error E))) (r : Runtime V E)
      {err : Option (Error E)} {r' : Runtime V E}
      → r.shutdown_once ≡ false
      → r.stop_err ≡ none
      → run_unstarted is_canceled schedule opts parent r ≡ (ok err, r')
      → (s : Runtime V E) × (runtime_start is_canceled schedule
            (all_refs r)
            (run_setup opts parent r).1
          ≡ (ok tt, s))
        × Closed s err r'
  unfolding run_unstarted run_setup
  run_unstarted-Closed opts parent r {err} {r'} once none_yet e =
      let (_, s, starts, rest) =
        bind_ok (runtime_start is_canceled schedule (all_refs r))
          (λ _. run_started is_canceled schedule) (run_setup opts parent r).1 e in
      (
        s,
        starts,
        run_started-Closed s
            (kept
              (runtime_start-Under is_canceled schedule (Tells false none)
                (record { logs = λ c v m s h. h; moves = λ i s v h. h }) (λ s v h. h)
                (record { logs = λ c v m s h. h; moves = λ i s v h. h }) (λ v h. h) (all_refs r))
              (run_setup opts parent r).1 (refl, (once, none_yet)) starts)
            rest,
      )

  -- `Run` of a Runtime that has not been shut down and has no error recorded, where it returns: after the
  -- start, the Containers that are neither set up only nor stopped are shut down, each once, the last one
  -- registered first, whether the context is done at once or the Runner's tasks have ended before. The
  -- result is the error that the Runner's `Wait` returns, or else the first error that a stopping hook or a
  -- stop hook has returned in these shutdowns, so that no such error is lost when `Run` returns nil.
  pub runtime_run-Closed :
      (has_ctx : Bool) (opts : List RunOptions) (parent : Option (Cause (Error E)))
      (r : Runtime V E) {err : Option (Error E)} {r' : Runtime V E}
      → r.shutdown_once ≡ false
      → r.stop_err ≡ none
      → runtime_run is_canceled schedule has_ctx opts parent r ≡ (ok err, r')
      → (s : Runtime V E) × (runtime_start is_canceled schedule
            (all_refs r)
            (run_setup (run_options opts) parent r).1
          ≡ (ok tt, s))
        × Closed s err r'
  unfolding runtime_run
  runtime_run-Closed has_ctx opts parent r {err} {r'} once none_yet e =
      let (_, a, guard, e1) = bind_ok (panic_if (not has_ctx)) (λ _. after_ctx) r e in
      let (_, b, guard', e2) = bind_ok (panic_if (ltb 1 (length opts))) (λ _. after_opts) a e1 in
      let (_, c, guard'', e3) =
        bind_ok (panic_if (not (is_runtime_setup b.state)))
          (λ _. run_unstarted is_canceled schedule (run_options opts) parent) b e2 in
      run_unstarted-Closed (run_options opts) parent r once none_yet (
        subst (λ x. run_unstarted is_canceled schedule (run_options opts) parent x ≡ (ok err, r'))
          (sym (ap (λ p. p.1) guard ∙ ap (λ p. p.1) guard' ∙ ap (λ p. p.1) guard'')) e3)
    where
      after_opts : Action V E (Option (Error E))
      after_opts = do
        state ← gets (λ r. r.state)
        panic_if (not (is_runtime_setup state))
        run_unstarted is_canceled schedule (run_options opts) parent

      after_ctx : Action V E (Option (Error E))
      after_ctx = do panic_if (ltb 1 (length opts)); after_opts
