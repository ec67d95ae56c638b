-- ===== src/Runner.antt =====
-- runner.go: tasks in goroutines of their own, the first error of which cancels their context. The
-- fields written under `errOnce` are written in one step; `none` is a panic.
pub mod FirstError
mod Tests
use gx.Base.{ℕ, ◌+◌, ◌-◌, Bool, true, false, Option, none, some, List, [], ◌∷◌, ◌==◌, if◌then◌else◌}
use gx.Sync.Context.{Cause, cancel_cause}

-- `cause` is the state of the context that the runner cancels, `pending` the count of `wg`.
-- `cancellable` is `r.cancel != nil`, which does not hold of the zero Runner.
pub record Runner {ℓ} (E : Type ℓ) : Type ℓ where
  pub cancellable : Bool
  pub cause : Option (Cause E)
  pub err : Option E
  pub once : Bool
  pub pending : ℕ

module _ {ℓ} {E : Type ℓ} where
  -- `NewRunner`, where `parent` is what had cancelled the parent context.
  unfoldable pub new_runner : Option (Cause E) → Runner E
  new_runner parent = record {
    cancellable = true;
    cause = parent;
    err = none;
    once = false;
    pending = 0;
  }

  -- `r.errOnce.Do`
  unfoldable pub record_error : Runner E → E → Runner E
  record_error r e = if r.once then r else record r {
    once = true;
    err = some e;
    cause = (if r.cancellable then cancel_cause r.cause (some e) else r.cause);
  }

  -- `Cancel` panics on nil, and on the zero Runner when it records the error.
  unfoldable pub cancel : Runner E → Option E → Option (Runner E)
  unfolding record_error
  cancel r none = none
  cancel r (some e) =
      if r.once then some r else if r.cancellable then some (record_error r e) else none

  -- `Run` starts a goroutine.
  unfoldable pub start : Runner E → Runner E
  start r = record r { pending = r.pending + 1 }

  -- The function of one of them has returned.
  unfoldable pub finish : Runner E → Option E → Runner E
  unfolding record_error
  finish r result =
      let r' : Runner E = elim result [ none ↦ r | some e ↦ record_error r e ] in
      record r' { pending = r'.pending - 1 }

  -- `Wait`; `none` while it blocks.
  unfoldable pub wait : Runner E → Option (Option E × Runner E)
  wait r =
      if r.pending == 0
      then some (
        r.err,
        record r { cause = (if r.cancellable then cancel_cause r.cause r.err else r.cause) },
      )
      else none

-- What happens to a runner before `Wait` returns: a task is started, one returns, `Cancel` is called,
-- or the parent context is cancelled.
pub data Event {ℓ} (E : Type ℓ) : Type ℓ where
  starts : Event E
  finishes : Option E → Event E
  cancels : E → Event E
  parent_done : Cause E → Event E

module _ {ℓ} {E : Type ℓ} where
  unfoldable pub step : Runner E → Event E → Runner E
  unfolding record_error cancel
  step r starts = start r
  step r (finishes result) = finish r result
  step r (cancels e) = elim (cancel r (some e)) [ none ↦ r | some r' ↦ r' ]
  step r (parent_done c) = record r { cause = (elim r.cause [ none ↦ some c | some d ↦ some d ]) }

  pub run : Runner E → List (Event E) → Runner E
  run r [] = r
  run r (e ∷ es) = run (step r e) es
