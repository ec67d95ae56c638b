-- ===== src/Runtime/Watch.antt =====
-- runtime.go: the watch over a shutdown, which logs the tasks that keep it from its end. A time is a
-- number of nanoseconds.
use gx.Base.{ℕ, ◌-◌, ◌%◌, ◌==◌, List, [], ◌∷◌, ◌++◌, map, if◌then◌else◌}
use gx.Base.Int.{pos_part}
use gx.Runtime.Types.{Runtime}
use gx.Runtime.Tasks.{RuntimeTask, log_shutdown_timeout}

-- What the logger gets of a task that is running.
pub record Overdue : Type 0 where
  pub timeout : ℕ
  pub elapsed : ℕ
  pub task : RuntimeTask

-- `Truncate`: the multiple of the second next below the first.
abbrev pub truncate : ℕ → ℕ → ℕ
truncate d m = if m == 0 then d else d - d % m

-- What a `select` of the loop finds: the shutdown is over, or the timer or the ticker has fired, so long
-- after the start and in that state.
pub data Watched {ℓ} (V E : Type ℓ) : Type ℓ where
  over : Watched V E
  fires : ℕ → Runtime V E → Watched V E

module _ {ℓ} {V E : Type ℓ} where
  abbrev pub overdue : Runtime V E → ℕ → RuntimeTask → Overdue
  overdue r elapsed task = record {
    timeout = pos_part r.shutdown_timeout;
    elapsed = truncate elapsed (pos_part r.shutdown_timeout);
    task = task;
  }

  -- `watchShutdown`, which ends when no task is running: what it logs.
  unfoldable pub watch_shutdown : List (Watched V E) → List Overdue
  unfolding log_shutdown_timeout
  watch_shutdown [] = []
  watch_shutdown (over ∷ found) = []
  watch_shutdown (fires elapsed r ∷ found) =
      let (active, tasks) = log_shutdown_timeout r in
      let rest = map (overdue r elapsed) tasks ++ watch_shutdown found in
      if active then rest else []
