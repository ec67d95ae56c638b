-- ===== src/Stack/Tests.antt =====
-- Runs of a Stack of numbers.
use gx.Base.{ℕ, ◌≤◌, arith, ◌≡◌, refl, true, false, Option, none, some, List, [], ◌∷◌, set?, sub?}
use gx.Base.Int.{pos}
use gx.Stack.{Stack, new_stack, run, call, push, grow_locked, try_pop, pop_locked, pop, close}
use gx.Stack.Spec.{
  push_op, try_pop_op, pop_op, len_op, close_op, Reply, done, sleeps, pushed, value, size, Op,
}
use gx.Stack.Spec
use gx.Stack.Slots.{IsValid, view, lifo}
use gx.Stack.Refine.{new_stack-run}
use gx.Stack.Wakeup.{Reach, start, later, pushes, pops, no_sleeper_forgotten}
use gx.Sync.{signal, wait}

replies : Option (List (Reply ℕ) × Stack ℕ) → List (Reply ℕ)
replies none = []
replies (some (r, s)) = r

abbrev calls_made : List (Op ℕ)
calls_made =
    push_op 1
    ∷ push_op 2
    ∷ push_op 3
    ∷ pop_op
    ∷ try_pop_op
    ∷ len_op
    ∷ close_op
    ∷ push_op 4
    ∷ pop_op
    ∷ pop_op
    ∷ []

grows_and_drains :
    replies (run 0 (new_stack 0 (pos 1)) calls_made)
    ≡ pushed true
      ∷ pushed true
      ∷ pushed true
      ∷ value 3 true
      ∷ value 2 true
      ∷ size 1
      ∷ done
      ∷ pushed false
      ∷ value 1 true
      ∷ value 0 false
      ∷ []
unfolding replies run call new_stack push grow_locked try_pop pop_locked pop close set? sub?
grows_and_drains = refl

new_stack-run_example :
    (s : Stack ℕ) × (run 0 (new_stack 0 (pos 1)) calls_made
      ≡ some ((Spec.run 0 (lifo false []) calls_made).0, s))
    × IsValid s
    × (view s ≡ (Spec.run 0 (lifo false []) calls_made).1)
new_stack-run_example = new_stack-run 0 (pos 1) calls_made

abbrev waiters : ℕ → ℕ → List ℕ → Stack ℕ
waiters asleep woken items = record {
  closed = false;
  cond = record { waiting = asleep; notified = woken };
  items = items;
  len = woken;
}

-- Two goroutines sleep, and one is woken by a push.
abbrev one_of_two_woken : Reach 0 (pos 1) (waiters 1 1 (7 ∷ []))
unfolding new_stack pop push grow_locked signal wait set?
one_of_two_woken =
    later {s = waiters 2 0 (0 ∷ [])}
      (later {s = waiters 1 0 (0 ∷ [])} (later {s = waiters 0 0 (0 ∷ [])} start (pops none refl))
        (pops none refl))
      (pushes 7 true refl)

no_sleeper_forgotten_example : (1 ≤ 1) × (false ≡ false)
no_sleeper_forgotten_example = no_sleeper_forgotten 0 one_of_two_woken (omega arith)
