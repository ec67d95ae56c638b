-- ===== src/Buffer/Tests.antt =====
-- Runs of a Buffer of numbers.
use gx.Base.{
  ℕ, ◌≡◌, ◌≤◌, refl, arith, true, false, Option, none, some, List, [], ◌∷◌, set?, sub?, mod?,
  slice?,
}
use gx.Base.Int.{negsuc}
use gx.Sync.{signal, wait}
use gx.Buffer.{Buffer, new_buffer, run, call, push, grow_locked, try_next, next_locked, next, close}
use gx.Buffer.Spec.{
  push_op, try_next_op, next_op, len_op, close_op, Reply, done, sleeps, pushed, value, size, Op,
}
use gx.Buffer.Spec
use gx.Buffer.Refine.{IsValid}
use gx.Buffer.Fifo.{view, fifo, new_buffer-run}
use gx.Buffer.Wakeup.{Reach, start, later, pushes, calls, no_lost_wakeup}

replies : Option (List (Reply ℕ) × Buffer ℕ) → List (Reply ℕ)
replies none = []
replies (some (r, b)) = r

abbrev calls_made : List (Op ℕ)
calls_made =
    push_op 1
    ∷ push_op 2
    ∷ try_next_op
    ∷ push_op 3
    ∷ push_op 4
    ∷ len_op
    ∷ next_op
    ∷ next_op
    ∷ next_op
    ∷ next_op
    ∷ close_op
    ∷ push_op 5
    ∷ next_op
    ∷ []

-- The ring wraps round and grows from one slot to four.
wraps_and_grows :
    replies (run 0 (new_buffer 0 (negsuc 4)) calls_made)
    ≡ pushed true
      ∷ pushed true
      ∷ value 1 true
      ∷ pushed true
      ∷ pushed true
      ∷ size 3
      ∷ value 2 true
      ∷ value 3 true
      ∷ value 4 true
      ∷ sleeps
      ∷ done
      ∷ pushed false
      ∷ value 0 false
      ∷ []
unfolding replies run call new_buffer push grow_locked try_next next_locked next close set? sub?
    mod? slice?
wraps_and_grows = refl

new_buffer-run_example :
    (b : Buffer ℕ) × (run 0 (new_buffer 0 (negsuc 4)) calls_made
      ≡ some ((Spec.run 0 (fifo false []) calls_made).0, b))
    × IsValid b
    × (view b ≡ (Spec.run 0 (fifo false []) calls_made).1)
new_buffer-run_example = new_buffer-run 0 (negsuc 4) calls_made

abbrev waiters : ℕ → ℕ → List ℕ → Buffer ℕ
waiters asleep woken items = record {
  closed = false;
  cond = record { waiting = asleep; notified = woken };
  head = 0;
  items = items;
  len = woken;
}

-- Two goroutines sleep, and one is woken by a push.
abbrev one_of_two_woken : Reach 0 (negsuc 4) (waiters 1 1 (7 ∷ []))
unfolding new_buffer next push grow_locked signal wait set? mod?
one_of_two_woken =
    later {b = waiters 2 0 (0 ∷ [])}
      (later {b = waiters 1 0 (0 ∷ [])} (later {b = waiters 0 0 (0 ∷ [])} start (calls none refl))
        (calls none refl))
      (pushes 7 true refl)

no_lost_wakeup_example : (1 ≤ 1) × (false ≡ false)
no_lost_wakeup_example = no_lost_wakeup 0 one_of_two_woken (omega arith)
