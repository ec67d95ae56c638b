-- ===== src/Runtime/Tasks.antt =====
-- runtime.go: the tasks that are running, and what is logged of them while the shutdown takes long.
use gx.Base.{Bool, true, false, List, [], ◌∷◌, ◌++◌}
use gx.Runtime.Types.{Name, Container, Runtime}

-- `runtimeTask`
pub record RuntimeTask : Type 0 where
  pub container : Name
  pub name : Name

abbrev pub container_tasks : Name → List Name → List RuntimeTask
container_tasks c [] = []
container_tasks c (name ∷ names) = record { container = c; name = name } ∷ container_tasks c names

abbrev is_some_task : List RuntimeTask → Bool
is_some_task [] = false
is_some_task (t ∷ ts) = true

module _ {ℓ} {V E : Type ℓ} where
  -- The loop of `Runtime.runningTasks`, over the names that `Container.runningTasks` returns.
  abbrev pub all_tasks : List (Container V E) → List RuntimeTask
  all_tasks [] = []
  all_tasks (c ∷ cs) = container_tasks c.name c.running ++ all_tasks cs

  unfoldable pub running_tasks : Runtime V E → List RuntimeTask
  running_tasks r = all_tasks r.containers

  -- `logShutdownTimeout`: whether a task is running, and the tasks that it logs as an error each, which
  -- are none where it returns at once.
  unfoldable pub log_shutdown_timeout : Runtime V E → Bool × List RuntimeTask
  log_shutdown_timeout r = let tasks = running_tasks r in (is_some_task tasks, tasks)
