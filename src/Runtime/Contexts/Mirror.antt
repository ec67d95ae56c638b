-- ===== src/Runtime/Contexts/Mirror.antt =====
-- runtime.go: when the context of the tasks ends, and with what.
use gx.Base.{
  ℕ, ◌+◌, ◌≡◌, refl, sym, ◌∙◌, Bool, true, false, not, ◌&&◌, ◌||◌, Option, none, some, List, [],
  ◌∷◌, if◌then◌else◌, arith, if_both, by_cases, ap,
}
use gx.Runtime.Run.{RunOptions}
use gx.Runtime.Contexts.{
  CtxErr, canceled, deadline_exceeded, is_notified, Contexts, is_due, is_done, is_canceled,
  new_contexts, ContextEvent, passes, signalled, parent_ends, runner_ends, deadline_fires,
  parent_callback, runner_callback, cancels, end_runner, end_parent, cancel_tasks, may_end,
  run_parent_callback, next, run_events,
}

abbrev pub is_exceeded : Option CtxErr → Bool
is_exceeded (some deadline_exceeded) = true
is_exceeded (some canceled) = false
is_exceeded none = false

infixr 29 ◌implies◌
abbrev pub ◌implies◌ : Bool → Bool → Bool
a implies b = not a || b

record Inv (c : Contexts) : Type 0 where
  caused : (is_canceled c.ctx implies (is_canceled c.parent || c.given_up)) ≡ true
  due : (is_exceeded c.ctx implies is_due c.deadline c.now) ≡ true
  parent_due : (is_exceeded c.parent implies is_due c.deadline c.now) ≡ true
  gave_up : (c.given_up implies is_done c.ctx) ≡ true
  watching : (is_done c.parent || c.given_up || c.watched) ≡ true
  called : (is_canceled c.parent implies (c.called || is_done c.ctx)) ≡ true
  runner_watching : (c.runner_done || c.runner_watched) ≡ true
  runner_called : (c.runner_done implies (c.runner_called || c.given_up)) ≡ true

is_due_later : (d : Option ℕ) (now n : ℕ) → is_due d now ≡ true → is_due d (now + n) ≡ true
is_due_later none now n h = h
is_due_later (some d) now n h = ground arith

passes-Inv : (c : Contexts) (n : ℕ) → Inv c → Inv (next c (passes n))
unfolding next
passes-Inv c n h = ground (arith, is_due_later c.deadline c.now n)

end_runner-Inv : (c : Contexts) → Inv c → Inv (end_runner c)
end_runner-Inv c h = ground arith

end_parent-Inv : (c : Contexts) (e : CtxErr) → may_end c e ≡ true → Inv c → Inv (end_parent c e)
end_parent-Inv c canceled m h = ground arith
end_parent-Inv c deadline_exceeded m h = ground arith

cancel_tasks-Inv : (c : Contexts) → Inv c → Inv (cancel_tasks c)
unfolding cancel_tasks
cancel_tasks-Inv c h = ground arith

next-Inv : (c : Contexts) (e : ContextEvent) → Inv c → Inv (next c e)
unfolding next cancel_tasks run_parent_callback
next-Inv c (passes n) h = passes-Inv c n h
next-Inv c (signalled s) h =
    if_both Inv (is_notified s c.signals) (end_parent c canceled) c
      (end_parent-Inv c canceled refl h) h
next-Inv c (parent_ends e) h =
    by_cases (λ b. Inv (if b then end_parent c e else c)) (may_end c e)
      (λ m. end_parent-Inv c e m h) (λ _. h)
next-Inv c runner_ends h = end_runner-Inv c h
next-Inv c deadline_fires h = ground arith
next-Inv c parent_callback h = ground arith
next-Inv c runner_callback h = ground arith
next-Inv c cancels h = cancel_tasks-Inv c h

run_events-Inv : (c : Contexts) (es : List ContextEvent) → Inv c → Inv (run_events c es)
unfolding run_events
run_events-Inv c [] h = h
run_events-Inv c (e ∷ es) h = run_events-Inv (next c e) es (next-Inv c e h)

new_contexts-Inv :
    (opts : RunOptions) (now : ℕ) (deadline : Option ℕ) (parent : Option CtxErr)
    → (is_exceeded parent implies is_due deadline now) ≡ true
    → Inv (new_contexts opts now deadline parent)
unfolding new_contexts
new_contexts-Inv opts now deadline parent h = ground arith

next-keeps_end : (c : Contexts) (e : ContextEvent) → is_done c.ctx ≡ true → (next c e).ctx ≡ c.ctx
unfolding next cancel_tasks run_parent_callback
next-keeps_end c (passes n) h = refl
next-keeps_end c (signalled s) h = ground arith
next-keeps_end c (parent_ends e) h = ground arith
next-keeps_end c runner_ends h = ground arith
next-keeps_end c deadline_fires h = ground arith
next-keeps_end c parent_callback h = ground arith
next-keeps_end c runner_callback h = ground arith
next-keeps_end c cancels h = ground arith

run_events-keeps_end :
    (c : Contexts) (es : List ContextEvent) → is_done c.ctx ≡ true → (run_events c es).ctx ≡ c.ctx
unfolding run_events
run_events-keeps_end c [] h = refl
run_events-keeps_end c (e ∷ es) h =
    let p = next-keeps_end c e h in run_events-keeps_end (next c e) es (ap is_done p ∙ h) ∙ p

-- No function of an `AfterFunc` is still to run, nor a deadline to fire.
abbrev pub settled : Contexts → Bool
settled c = not c.called && not c.runner_called && (is_due c.deadline c.now implies is_done c.ctx)

settled_lem :
    (c : Contexts)
    → Inv c
    → ((settled c && (is_done c.parent || c.runner_done)) implies is_done c.ctx) ≡ true
settled_lem c h = ground arith

-- Whatever happens, and in whatever order, from a parent that is past its deadline only if that is due:
-- the context of the tasks is canceled only if the parent is, or `cancelTasks` was called; it is past
-- its deadline only if the parent's is due; it is done where the parent or the Runner's context is and
-- the functions that wait for these have run and a deadline that is due has fired; and once it is done
-- it keeps its error.
pub run_events-Mirrors :
    (opts : RunOptions) (now : ℕ) (deadline : Option ℕ) (parent : Option CtxErr)
    (es more : List ContextEvent)
    → (is_exceeded parent implies is_due deadline now) ≡ true
    → let c = run_events (new_contexts opts now deadline parent) es in
      ((is_canceled c.ctx implies (is_canceled c.parent || c.given_up)) ≡ true)
      × ((is_exceeded c.ctx implies is_due c.deadline c.now) ≡ true)
      × (((settled c && (is_done c.parent || c.runner_done)) implies is_done c.ctx) ≡ true)
      × ((run_events c more).ctx ≡ (if is_done c.ctx then c.ctx else (run_events c more).ctx))
run_events-Mirrors opts now deadline parent es more h =
    let c = run_events (new_contexts opts now deadline parent) es in
    let i =
      run_events-Inv (new_contexts opts now deadline parent) es
        (new_contexts-Inv opts now deadline parent h) in
    (i.caused, i.due, settled_lem c i, kept c more)
  where
    kept :
        (c : Contexts) (more : List ContextEvent)
        → (run_events c more).ctx ≡ (if is_done c.ctx then c.ctx else (run_events c more).ctx)
    kept c more =
        by_cases
          (λ b.
            (b ≡ is_done c.ctx)
            → (run_events c more).ctx ≡ (if b then c.ctx else (run_events c more).ctx))
          (is_done c.ctx) (λ _ e. run_events-keeps_end c more (sym e)) (λ _ e. refl) refl
