-- ===== src/Queue.antt =====
-- queue.go: a queue whose items a pool of workers processes. A section under one lock is one function
-- on the state. `Close` and `PushWait` let other goroutines in between their sections, and so do the
-- workers: Queue/Steps puts the sections together. Items are of type `T`, a worker's errors of type
-- `X`.
pub mod Steps
pub mod Choices
pub mod Invariant
pub mod Progress
pub mod Complete
mod Tests
use gx.Base.{
  ℕ, suc, ◌*◌, Bool, true, false, not, Option, none, some, List, [], ◌∷◌, ◌++◌, if◌then◌else◌,
}
use gx.Base.Int.{ℤ, pos, pos_part, leb_ℤ}
use gx.Sync.Chan
use gx.Sync.Chan.{Chan, Comm, blocked, panicked, ready}
use gx.Sync.Context.{Cause, canceled, failed, cancel_cause}

pub data Error {ℓ} (X : Type ℓ) : Type ℓ where
  already_running queue_closed queue_full worker_required deadline_exceeded : Error X
  context_canceled : Error X
  worker_failed : X → Error X

pub record Options : Type 0 where
  pub fail_on_full : Bool
  pub size : ℤ
  pub has_worker : Bool  -- `Worker` is not nil
  pub workers : ℤ

-- `cancel` is whether `q.cancel` is set; `cause` is the state of the context that it cancels, which
-- the workers watch. `done_open` is whether `q.done` is a channel not yet closed.
pub record Queue {ℓ κ} (T : Type ℓ) (X : Type κ) : Type (ℓ ⊔ κ) where
  pub cancel : Bool
  pub cause : Option (Cause (Error X))
  pub closed : Bool
  pub done_open : Bool
  pub fail_on_full : Bool
  pub failure : Option (Error X)
  pub has_worker : Bool
  pub push_wait_done : Bool  -- closed
  pub queue : Chan T
  pub running : Bool
  pub workers : ℕ

abbrev pub worker_count : ℤ → ℕ
worker_count n = if leb_ℤ n (pos 0) then 1 else pos_part n

abbrev pub queue_size : ℤ → ℤ → ℕ
queue_size size workers = if leb_ℤ size (pos 0) then worker_count workers * 4 else pos_part size

module _ {ℓ κ} {T : Type ℓ} {X : Type κ} where
  unfoldable pub new_queue : Options → Queue T X
  new_queue opts = record {
    cancel = false;
    cause = none;
    closed = false;
    done_open = false;
    fail_on_full = opts.fail_on_full;
    failure = none;
    has_worker = opts.has_worker;
    push_wait_done = false;
    queue = Chan.make (queue_size opts.size opts.workers);
    running = false;
    workers = worker_count opts.workers;
  }

  -- `fail`, for an error that may be nil.
  unfoldable pub fail : Queue T X → Option (Error X) → Queue T X
  fail q none = q
  fail q (some err) = elim q.failure [
    | some old ↦ q
    | none ↦ record q {
      failure = some err;
      cause = (if q.cancel then cancel_cause q.cause (some err) else q.cause);
    }
  ]

-- What a `select` of `PushWait` may do: it returns an error, none for nil, or it panics.
pub data Selected {ℓ κ} (T : Type ℓ) (X : Type κ) : Type (ℓ ⊔ κ) where
  panics : Selected T X
  returns : Option (Error X) → Queue T X → Selected T X

-- What a `select` of a worker may do.
pub data Worked {ℓ κ} (T : Type ℓ) (X : Type κ) : Type (ℓ ⊔ κ) where
  stops : Worked T X
  takes : T → Queue T X → Worked T X

-- What the locked part of `Push` comes to.
pub data Pushed : Type 0 where
  accepted rejected full : Pushed

module _ {ℓ κ} {T : Type ℓ} {X : Type κ} where
  -- The part of `Push` under the read lock; `none` is the panic of a send on a closed channel.
  unfoldable pub push_locked : Queue T X → T → Option (Pushed × Queue T X)
  push_locked q item = if q.closed then some (rejected, q) else elim (Chan.send q.queue item) [
    | ready c ↦ some (accepted, record q { queue = c })
    | blocked ↦ some (full, q)
    | panicked ↦ none
  ]

  -- What `Push` does when it finds the queue full.
  unfoldable pub push_full : Queue T X → Queue T X
  unfolding fail
  push_full q = if q.fail_on_full then fail q (some queue_full) else q

  -- `Push` with no other goroutine in between.
  unfoldable pub push : Queue T X → T → Option (Bool × Queue T X)
  unfolding push_locked push_full
  push q item = elim (push_locked q item) [
    | none ↦ none
    | some (accepted, q') ↦ some (true, q')
    | some (rejected, q') ↦ some (false, q')
    | some (full, q') ↦ some (false, push_full q')
  ]

  -- The three sections of `Close`, which runs once. `none` is the panic of a channel closed twice.
  unfoldable pub close_mark : Queue T X → Queue T X
  close_mark q = record q { closed = true }

  unfoldable pub close_wake : Queue T X → Option (Queue T X)
  close_wake q = if q.push_wait_done then none else some (record q { push_wait_done = true })

  unfoldable pub close_seal : Queue T X → Option (Queue T X)
  close_seal q =
      if q.queue.closed then none else some (record q { queue = record q.queue { closed = true } })

  abbrev pub sending : Queue T X → Comm (Chan T) → List (Selected T X)
  sending q blocked = []
  sending q panicked = panics ∷ []
  sending q (ready c) = returns none (record q { queue = c }) ∷ []

  abbrev pub ctx_done : Queue T X → Option (Error X) → List (Selected T X)
  ctx_done q none = []
  ctx_done q (some err) = returns (some err) q ∷ []

  abbrev pub woken_select : Queue T X → List (Selected T X)
  woken_select q = if q.push_wait_done then returns (some queue_closed) q ∷ [] else []

  -- The `select` of `PushWait`: what it may do now. `ctx` is the error of its context, none while it is
  -- not done.
  unfoldable pub push_wait_select : Queue T X → T → Option (Error X) → List (Selected T X)
  push_wait_select q item ctx =
      sending q (Chan.send q.queue item) ++ ctx_done q ctx ++ woken_select q

  -- `Closed`
  pub is_closed : Queue T X → Bool
  is_closed q = q.closed

  abbrev drain_done : Queue T X → Bool → List (Option (Error X) × Queue T X)
  drain_done q ended = if ended then (none, q) ∷ [] else []

  abbrev drain_cancels : Queue T X → Bool → Option (Error X) → List (Option (Error X) × Queue T X)
  drain_cancels q ended none = []
  drain_cancels q ended (some err) =
      (some err, if ended then q else record q { cause = cancel_cause q.cause none }) ∷ []

  -- What `Drain` may come to after `Close`, when it found the queue running or not; `ended` is whether
  -- the run that it found has ended since, in which case the cancellation has no effect.
  pub drain_select :
      Queue T X → Bool → Bool → Option (Error X) → List (Option (Error X) × Queue T X)
  drain_select q running ended ctx =
      if running then drain_done q ended ++ drain_cancels q ended ctx else (none, q) ∷ []

  -- What `run` does under the lock before it starts the workers; `parent` is what had cancelled its
  -- context.
  unfoldable pub run_begin : Queue T X → Option (Cause (Error X)) → Option (Error X) × Queue T X
  run_begin q parent =
      if not q.has_worker
      then (some worker_required, q)
      else if q.running
      then (some already_running, q)
      else elim q.failure [
        | some err ↦ (some err, record q { running = false })
        | none ↦
            (none, record q { running = true; cancel = true; done_open = true; cause = parent })
      ]

  abbrev pub stopped : Option (Cause (Error X)) → List (Worked T X)
  stopped none = []
  stopped (some c) = stops ∷ []

  abbrev pub receiving : Queue T X → Comm (Option T × Chan T) → List (Worked T X)
  receiving q (ready (some item, c)) = takes item (record q { queue = c }) ∷ []
  receiving q (ready (none, c)) = stops ∷ []
  receiving q _ = []

  -- The `select` of a worker.
  unfoldable pub work_select : Queue T X → List (Worked T X)
  work_select q = stopped q.cause ++ receiving q (Chan.receive q.queue)

  -- A worker function returned an error: `cancel(err)`.
  unfoldable pub work_failed : Queue T X → X → Queue T X
  work_failed q err = record q { cause = cancel_cause q.cause (some (worker_failed err)) }

  -- The deferred function of `run`.
  unfoldable pub run_end : Queue T X → Queue T X
  run_end q = record q {
    cancel = false;
    running = false;
    done_open = false;
    cause = cancel_cause q.cause none;
  }

module _ {κ} {X : Type κ} where
  -- What `run` returns: `parent_canceled` is whether the parent context's error is
  -- `context.Canceled`, `is_canceled` whether an error is.
  unfoldable pub run_result : (Error X → Bool) → Bool → Option (Cause (Error X)) → Option (Error X)
  run_result is_canceled parent_canceled cause = if parent_canceled then none else elim cause [
    | none ↦ none
    | some canceled ↦ none
    | some (failed err) ↦ if is_canceled err then none else some err
  ]
