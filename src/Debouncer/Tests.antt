-- ===== src/Debouncer/Tests.antt =====
-- A Debouncer of numbered functions.
use gx.Base.{ℕ, ◌≡◌, refl, none, List, [], ◌∷◌}
use gx.Base.Int.{pos}
use gx.Debouncer.{
  Event, does, cancels, passes, new_debouncer, run, step, stop, waiting, fired, debounce, cancel,
  pass,
}
use gx.Debouncer.Pending.{debounced, new_debouncer-run}

abbrev events : List (Event ℕ)
events =
    does 0 1
    ∷ passes 4
    ∷ does 4 2
    ∷ passes 6
    ∷ passes 9
    ∷ passes 20
    ∷ does 20 3
    ∷ cancels
    ∷ passes 30
    ∷ []

only_the_second_ran : (run (new_debouncer (pos 5)) events).ran ≡ (9, 2) ∷ []
unfolding new_debouncer run step debounce cancel pass stop waiting fired
only_the_second_ran = refl

new_debouncer-run_example :
    (run (new_debouncer (pos 5)) events).ran
    ≡ debounced (new_debouncer {F = ℕ} (pos 5)).delay none events
new_debouncer-run_example = new_debouncer-run (pos 5) events
