-- ===== src/Runner/Tests.antt =====
-- A Runner of two tasks, both of which fail.
use gx.Base.{ℕ, ◌≡◌, refl, none, some, List, [], ◌∷◌}
use gx.Sync.Context.{to_cause, cancel_cause}
use gx.Runner.{Runner, new_runner, Event, starts, finishes, run, step, start, finish, wait}
use gx.Runner.FirstError.{first_error, first_cause, or_first, wait-first_error}

abbrev events : List (Event ℕ)
events = starts ∷ starts ∷ finishes (some 3) ∷ finishes (some 4) ∷ []

wait-first_error_example :
    (r : Runner ℕ) × (wait (run (new_runner none) events) ≡ some (first_error events, r))
    × (r.cause ≡ or_first (first_cause events) (some (to_cause (first_error events))))
unfolding run step start finish new_runner cancel_cause
wait-first_error_example = wait-first_error events refl
