-- ===== src/Accumulator/Tests.antt =====
-- Runs of an Accumulator.
use gx.Base.{◌≡◌, refl, true, false, List, [], ◌∷◌}
use gx.Base.Int.{pos, add_int}
use gx.Accumulator.{
  Accumulator, new_accumulator, Event, adds, closes, ticks, finishes, run, step, add, tick, close,
  finish, flush_locked,
}
use gx.Accumulator.Invariant.{Inv, run-new_accumulator}
use gx.Accumulator.Conserved.{taken_in, sum_int, accepted, run-conserves}

abbrev started : Accumulator
started = record {
  armed = true;
  cancelled = false;
  closed = false;
  flushed = [];
  max = pos 10;
  running = true;
  total = pos 0;
}

abbrev events : List Event
events =
    adds (pos 4)
    ∷ ticks
    ∷ adds (pos 7)
    ∷ adds (pos 5)
    ∷ adds (pos 1)
    ∷ closes
    ∷ adds (pos 3)
    ∷ ticks
    ∷ finishes
    ∷ []

totals_flushed : (run started events).flushed ≡ pos 4 ∷ pos 12 ∷ pos 1 ∷ []
unfolding run step add tick close finish flush_locked add_int
totals_flushed = refl

run-new_accumulator_example : Inv (run started events)
unfolding new_accumulator
run-new_accumulator_example =
    run-new_accumulator (record { delay = pos 5; max = pos 10; has_flush = true }) events refl

run-conserves_example :
    taken_in (run started events) ≡ add_int (taken_in started) (sum_int (accepted started events))
run-conserves_example = run-conserves started events
