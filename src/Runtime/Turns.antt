-- ===== src/Runtime/Turns.antt =====
-- runtime.go: what the goroutines of tasks and of contexts do while `Run` is at work, and hooks that run
-- between their turns. The schedule says what they do at each turn.
use gx.Base.{
  ℕ, suc, ◌-◌, Bool, true, false, ◌&&◌, ◌||◌, Option, none, some, List, [], ◌∷◌, ◌++◌, take, drop,
  get_elem?, if◌then◌else◌,
}
use gx.Base.Exec.{pure, gets, modify, ◌>>=◌, ◌>>◌}
use gx.Dict.{◌=?◌, list_eq}
use gx.Runner
use gx.Runtime.Types.{
  Name, Ref, Error, failed, Program, returns, calls, Event, exits, reports, parent_ends, ctx_ends,
  task_calls,
}
use gx.Runtime.Calls.{Action, container, update, call}

-- `slices.Delete` at the first place that has the name.
abbrev pub delete_first : Name → List Name → List Name
delete_first name [] = []
delete_first name (n ∷ ns) = let rest = delete_first name ns in if n =? name then ns else n ∷ rest

abbrev pub is_listed : Name → List Name → Bool
is_listed name [] = false
is_listed name (n ∷ ns) = (n =? name) || is_listed name ns

module _ {ℓ} {V E : Type ℓ} where
  unfoldable pub stop_task : Ref → Name → Action V E (Unit {0})
  stop_task i name = update i (λ c. record c { running = delete_first name c.running })

  -- A goroutine that has a result is done with the Runner.
  abbrev pub report : Option (Option (Error E)) → ℕ → Action V E (Unit {0})
  report none k = pure tt
  report (some result) k = modify (λ r. record r {
    reporting = take k r.reporting ++ drop (suc k) r.reporting;
    runner = Runner.finish r.runner result;
  })

module _ {ℓ} {E : Type ℓ} (is_canceled : E → Bool) where
  -- What the function of a goroutine returns for the error of its task.
  unfoldable pub task_result : Name → Name → Bool → Option E → Option (Error E)
  task_result c name ctx_done none = none
  task_result c name ctx_done (some err) =
      if ctx_done && is_canceled err then none else some (failed c name err)

module _ {ℓ} {V E : Type ℓ} (is_canceled : E → Bool) where
  -- A task has returned: the rest of the goroutine up to `wg.Done`.
  unfoldable pub task_exits : Ref → Name → Option E → Action V E (Unit {0})
  task_exits i name err = do
    c ← container i
    ctx_done ← gets (λ r. r.ctx_done)
    if is_listed name c.running
        then (do
          stop_task i name
          update i (λ c. record c { wg = c.wg - 1 })
          modify (λ r. record r {
            reporting = r.reporting ++ task_result is_canceled c.name name ctx_done err ∷ [];
          }))
        else pure tt

  unfoldable pub happen : Event V E → Action V E (Unit {0})
  happen (exits i name err) = task_exits i name err
  happen (reports k) = do reporting ← gets (λ r. r.reporting); report (get_elem? reporting k) k
  happen (parent_ends c) =
      modify (λ r. record r { runner = Runner.step r.runner (Runner.parent_done c) })
  happen ctx_ends = modify (λ r. record r { ctx_done = true })
  happen (task_calls c) = do reply ← call c; pure tt

  unfoldable pub happen_all : List (Event V E) → Action V E (Unit {0})
  happen_all [] = pure tt
  happen_all (e ∷ es) = do happen e; happen_all es

module _ {ℓ} {V E : Type ℓ} (is_canceled : E → Bool) (schedule : ℕ → List (Event V E)) where
  -- The other goroutines have their turn.
  unfoldable pub turn : Action V E (Unit {0})
  turn = do
    clock ← gets (λ r. r.clock)
    modify (λ r. record r { clock = suc r.clock })
    happen_all is_canceled (schedule clock)

  -- `r.ctx.Err() != nil`
  unfoldable pub ctx_err : Action V E Bool
  ctx_err = do turn; gets (λ r. r.ctx_done)

  -- A hook runs.
  unfoldable pub exec : Program V E → Action V E (Option E)
  exec (returns err) = pure err
  exec (calls c k) = do turn; reply ← call c; exec (k reply)
