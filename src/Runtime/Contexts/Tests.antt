-- ===== src/Runtime/Contexts/Tests.antt =====
-- A Run with default options that is interrupted, and one whose parent is past its deadline.
use gx.Base.{◌≡◌, refl, true, ◌&&◌, ◌||◌, none, some, List, [], ◌∷◌, if◌then◌else◌}
use gx.Runtime.Run.{run_options}
use gx.Runtime.Contexts.{
  canceled, deadline_exceeded, Contexts, is_due, is_done, is_canceled, new_contexts, ContextEvent,
  passes, signalled, parent_ends, deadline_fires, parent_callback, runner_callback, notified, next,
  run_events, cancel_tasks, run_parent_callback,
}
use gx.Runtime.Contexts.Mirror.{◌implies◌, is_exceeded, settled, run_events-Mirrors}

abbrev interrupted : List ContextEvent
interrupted = passes 3 ∷ signalled 2 ∷ parent_callback ∷ []

abbrev late : List ContextEvent
late = passes 9 ∷ parent_ends deadline_exceeded ∷ parent_callback ∷ deadline_fires ∷ []

abbrev started : Contexts
started = new_contexts (run_options []) 0 (some 5) none

-- A signal that is not listened to does nothing; a deadline of the parent is not turned into a
-- cancellation.
errors :
    ((run_events started interrupted).ctx ≡ some canceled)
    × ((run_events started (signalled 9 ∷ parent_callback ∷ [])).ctx ≡ none)
    × ((run_events started late).ctx ≡ some deadline_exceeded)
unfolding new_contexts run_options notified run_events next cancel_tasks run_parent_callback
errors = (refl, refl, refl)

run_events-Mirrors_example :
    let c = run_events (new_contexts (run_options []) 0 (some 5) none) interrupted in
    ((is_canceled c.ctx implies (is_canceled c.parent || c.given_up)) ≡ true)
    × ((is_exceeded c.ctx implies is_due c.deadline c.now) ≡ true)
    × (((settled c && (is_done c.parent || c.runner_done)) implies is_done c.ctx) ≡ true)
    × ((run_events c (runner_callback ∷ [])).ctx
        ≡ (if is_done c.ctx then c.ctx else (run_events c (runner_callback ∷ [])).ctx))
run_events-Mirrors_example =
    run_events-Mirrors (run_options []) 0 (some 5) none interrupted (runner_callback ∷ []) refl
