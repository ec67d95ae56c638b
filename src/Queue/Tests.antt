-- ===== src/Queue/Tests.antt =====
-- Runs of a Queue of numbers.
use gx.Base.{
  ℕ, ◌≡◌, ◌≢◌, refl, true, false, Bool, Option, none, some, List, [], ◌∷◌, ◌++◌, ◌⊎◌, ◌&&◌, not,
  get_elem?, if◌then◌else◌,
}
use gx.Base.Int.{pos}
use gx.Sync.Chan.{send, receive}
use gx.Sync.Context.{Cause, cancel_cause}
use gx.Queue.{
  Queue, Error, Options, new_queue, push_locked, close_mark, close_wake, close_seal, panics,
  push_wait_select, run_begin, work_select, run_result, work_failed, drain_select,
}
use gx.Queue.Steps.{unclosed, marked, woken, sealed, System, Step, Reach, start, later}
use gx.Queue.Complete.{finished_run_complete}
use gx.Queue.Progress.{
  push_never_panics, push_wait_never_panics, close_never_panics, close_section,
  sent_items_are_handed, stopped_worker_drained, first_failure_returned, drain_outcomes,
}

abbrev options : Options
options = record { fail_on_full = true; size = pos 1; has_worker = true; workers = pos 1 }

abbrev queue : Bool → List ℕ → Bool → Bool → Bool → Queue ℕ ℕ
queue running items is_marked is_woken is_sealed = record {
  cancel = running;
  cause = none;
  closed = is_marked;
  done_open = running;
  fail_on_full = true;
  failure = none;
  has_worker = true;
  push_wait_done = is_woken;
  queue = record { cap = 1; buf = items; closed = is_sealed };
  running = running;
  workers = 1;
}

abbrev begun : System ℕ ℕ
begun = record {
  q = queue true [] false false false;
  closing = unclosed;
  checking = [];
  selecting = [];
  idle = 1;
  busy = [];
  sent = [];
  handed = [];
}

abbrev pushed : System ℕ ℕ
pushed = record begun { q = queue true (4 ∷ []) false false false; sent = 4 ∷ [] }

-- A PushWait that finds the queue open waits in its select when the queue is closed.
abbrev waiting : System ℕ ℕ
waiting = record pushed {
  q = queue true (4 ∷ []) true true false;
  closing = woken;
  selecting = 5 ∷ [];
}

abbrev begun-Reach : Reach options begun
unfolding new_queue run_begin
begun-Reach = later start (Step.begin none (queue true [] false false false) refl refl)

abbrev pushed-Reach : Reach options pushed
unfolding push_locked send
pushed-Reach =
    later begun-Reach (Step.push_accepted 4 (queue true (4 ∷ []) false false false) refl refl)

abbrev waiting-Reach : Reach options waiting
unfolding close_mark close_wake
waiting-Reach =
    later
      {s = record pushed {
        q = queue true (4 ∷ []) true false false;
        closing = marked;
        selecting = 5 ∷ [];
      }}
      (later {s = record pushed { selecting = 5 ∷ [] }}
        (later {s = record pushed { checking = 5 ∷ [] }} (later pushed-Reach (Step.enter 5 refl))
          (Step.check_open 5 [] [] refl refl refl))
        (Step.mark refl refl))
      (Step.wake (queue true (4 ∷ []) true true false) refl refl refl)

-- The worker has processed the item and the channel is closed.
abbrev drained : System ℕ ℕ
drained = record begun {
  q = queue true [] true true true;
  closing = sealed;
  sent = 4 ∷ [];
  handed = 4 ∷ [];
}

abbrev drained-Reach : Reach options drained
unfolding push_wait_select close_seal work_select send receive
drained-Reach =
    later
      {s = record begun {
        q = queue true [] true true true;
        closing = sealed;
        idle = 0;
        busy = 4 ∷ [];
        sent = 4 ∷ [];
        handed = 4 ∷ [];
      }}
      (later {s = record pushed { q = queue true (4 ∷ []) true true true; closing = sealed }}
        (later {s = record waiting { selecting = [] }}
          (later waiting-Reach (
            Step.select_gave_up 5 [] [] none 0 Error.queue_closed
              (queue true (4 ∷ []) true true false) refl refl refl))
          (Step.seal (queue true (4 ∷ []) true true true) refl refl refl refl refl))
        (Step.take 0 0 4 (queue true [] true true true) refl refl refl))
      (Step.worked 4 [] [] refl refl)

push_never_panics_example : push_locked (queue true (4 ∷ []) true true false) 6 ≢ none
push_never_panics_example = push_never_panics waiting-Reach 6

push_wait_never_panics_example :
    get_elem? (push_wait_select (queue true (4 ∷ []) true true false) 5 none) 0 ≢ some panics
push_wait_never_panics_example = push_wait_never_panics waiting-Reach 5 [] [] refl none 0

close_never_panics_example : close_section woken (queue true (4 ∷ []) true true false) ≢ none
close_never_panics_example = close_never_panics waiting-Reach

sent_items_are_handed_example : waiting.sent ≡ waiting.handed ++ waiting.q.queue.buf
sent_items_are_handed_example = sent_items_are_handed waiting-Reach

stopped_worker_drained_example :
    (drained.sent ≡ drained.handed) × ((record drained { idle = 0 }).sent ≡ drained.sent)
unfolding work_select receive
stopped_worker_drained_example =
    stopped_worker_drained {s' = record drained { idle = 0 }} drained-Reach 0 refl refl
      (Step.stop 0 0 refl refl refl)

first_of_two :
    run_result (λ _. false) false (work_failed (work_failed begun.q 8) 9).cause
    ≡ (if false then none else if false then none else some (Error.worker_failed 8))
first_of_two = first_failure_returned begun.q 8 9 (λ _. false) false refl

-- The context of `Drain` is done while the worker runs.
abbrev given_up : Queue ℕ ℕ
given_up = record begun.q { cause = some Cause.canceled }

abbrev expired : Option (Error ℕ)
expired = some Error.deadline_exceeded

drain_gives_up :
    ((expired ≡ none) × (given_up ≡ begun.q) × ((true && not false) ≡ false))
    ⊎ ((expired ≢ none) × (expired ≡ expired))
unfolding drain_select cancel_cause
drain_gives_up = drain_outcomes begun.q true false expired 0 expired given_up refl

-- The worker has stopped.
abbrev finished : System ℕ ℕ
finished = record drained { idle = 0 }

abbrev finished-Reach : Reach options finished
unfolding work_select receive
finished-Reach = later drained-Reach (Step.stop 0 0 refl refl refl)

finished_run_complete_example : (finished.sent ≡ finished.handed) × (finished.q.closed ≡ true)
finished_run_complete_example = finished_run_complete finished-Reach refl refl refl refl
