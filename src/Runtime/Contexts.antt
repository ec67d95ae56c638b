-- ===== src/Runtime/Contexts.antt =====
-- runtime.go: the contexts of `Run`. The parent is the context that `signalContext` returns, `ctx` is
-- `r.ctx`, which `newRuntimeTaskContext` makes of it. What package context documents of deadlines and of
-- `AfterFunc` is in `next`; a time is a number of nanoseconds.
pub mod Mirror
mod Tests
use gx.Base.{
  ℕ, ◌+◌, Bool, true, false, not, ◌&&◌, ◌||◌, Option, none, some, List, [], ◌∷◌, ◌==◌, leb,
  if◌then◌else◌,
}
use gx.Runtime.Run.{RunOptions}

-- What `Err` returns of a context that is done.
pub data CtxErr : Type 0 where
  canceled deadline_exceeded : CtxErr

-- The number of a signal; os.Interrupt is 2 and SIGTERM is 15.
abbrev pub Signal : Type 0
Signal = ℕ

abbrev pub or_default : List Signal → List Signal
or_default [] = 2 ∷ 15 ∷ []
or_default (s ∷ signals) = s ∷ signals

-- The signals that cancel the context of `signalContext`.
unfoldable pub notified : RunOptions → List Signal
notified opts = if opts.no_signals then [] else or_default opts.signals

abbrev pub is_notified : Signal → List Signal → Bool
is_notified s [] = false
is_notified s (t ∷ signals) = (s == t) || is_notified s signals

-- `watched` is whether the function that `AfterFunc` takes for the parent waits for it to be done, and
-- `called` whether that function has begun in a goroutine of its own; so too for the Runner's context.
-- `given_up` is whether `cancelTasks` has been called.
pub record Contexts : Type 0 where
  pub now : ℕ
  pub signals : List Signal
  pub deadline : Option ℕ
  pub parent : Option CtxErr
  pub watched : Bool
  pub called : Bool
  pub runner_done : Bool
  pub runner_watched : Bool
  pub runner_called : Bool
  pub ctx : Option CtxErr
  pub given_up : Bool

abbrev pub is_due : Option ℕ → ℕ → Bool
is_due none now = false
is_due (some d) now = leb d now

abbrev pub is_done : Option CtxErr → Bool
is_done none = false
is_done (some e) = true

abbrev pub is_canceled : Option CtxErr → Bool
is_canceled (some canceled) = true
is_canceled (some deadline_exceeded) = false
is_canceled none = false

-- A context ends once.
abbrev pub ends_with : Option CtxErr → CtxErr → Option CtxErr
ends_with none e = some e
ends_with (some e') e = some e'

-- `newRuntimeTaskContext` of a parent with a deadline, which may be past, and the two `AfterFunc` of
-- `Run`; where the parent is done already, its function is called at once, and the Runner's.
unfoldable pub new_contexts : RunOptions → ℕ → Option ℕ → Option CtxErr → Contexts
new_contexts opts now deadline parent = record {
  now = now;
  signals = notified opts;
  deadline = deadline;
  parent = parent;
  watched = not (is_done parent);
  called = is_done parent;
  runner_done = is_done parent;
  runner_watched = not (is_done parent);
  runner_called = is_done parent;
  ctx = (if is_due deadline now then some deadline_exceeded else none);
  given_up = false;
}

pub data ContextEvent : Type 0 where
  passes : ℕ → ContextEvent
  signalled : Signal → ContextEvent
  parent_ends : CtxErr → ContextEvent
  runner_ends : ContextEvent
  deadline_fires : ContextEvent
  parent_callback runner_callback : ContextEvent
  cancels : ContextEvent

-- The Runner's context is done.
abbrev pub end_runner : Contexts → Contexts
end_runner c = if c.runner_done then c else record c {
  runner_done = true;
  runner_watched = false;
  runner_called = c.runner_watched || c.runner_called;
}

-- The parent is done, and so the Runner's context, which comes from it.
abbrev pub end_parent : Contexts → CtxErr → Contexts
end_parent c e =
    if is_done c.parent
    then c
    else end_runner (record c { parent = some e; watched = false; called = c.watched || c.called })

-- `cancelTasks`
unfoldable pub cancel_tasks : Contexts → Contexts
cancel_tasks c = record c { watched = false; ctx = ends_with c.ctx canceled; given_up = true }

-- A parent is past its deadline only when that is due.
abbrev pub may_end : Contexts → CtxErr → Bool
may_end c canceled = true
may_end c deadline_exceeded = is_due c.deadline c.now

-- The function that the parent's `AfterFunc` takes.
unfoldable pub run_parent_callback : Contexts → Contexts
run_parent_callback c = record c {
  called = false;
  ctx = (if is_canceled c.parent then ends_with c.ctx canceled else c.ctx);
}

unfoldable pub next : Contexts → ContextEvent → Contexts
next c (passes n) = record c { now = c.now + n }
next c (signalled s) = if is_notified s c.signals then end_parent c canceled else c
next c (parent_ends e) = if may_end c e then end_parent c e else c
next c runner_ends = end_runner c
next c deadline_fires =
    if is_due c.deadline c.now then record c { ctx = ends_with c.ctx deadline_exceeded } else c
next c parent_callback = if c.called then run_parent_callback c else c
next c runner_callback =
    if c.runner_called then record (cancel_tasks c) { runner_called = false } else c
next c cancels = cancel_tasks c

unfoldable pub run_events : Contexts → List ContextEvent → Contexts
unfolding next
run_events c [] = c
run_events c (e ∷ es) = run_events (next c e) es
