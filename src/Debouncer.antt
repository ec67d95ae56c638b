-- ===== src/Debouncer.antt =====
-- debouncer.go, with the timers that `time.AfterFunc` keeps: each has a number, the time at which it is
-- due and its function. A time is in nanoseconds.
pub mod Pending
mod Tests
use gx.Base.{ℕ, suc, ◌+◌, Bool, Option, none, some, List, [], ◌∷◌, ◌++◌, leb, ◌==◌, if◌then◌else◌}
use gx.Base.Int.{ℤ, pos, pos_part, leb_ℤ}

pub record Timer {ℓ} (F : Type ℓ) : Type ℓ where
  pub number : ℕ
  pub due : ℕ
  pub fn : F

-- `timer` is the number of the timer that the field points at, none for nil. `armed` and `next` are the
-- timers that have neither fired nor been stopped and the number of the next one; `ran` has the
-- functions that ran and when.
pub record Debouncer {ℓ} (F : Type ℓ) : Type ℓ where
  pub delay : ℕ
  pub timer : Option ℕ
  pub armed : List (Timer F)
  pub next : ℕ
  pub ran : List (ℕ × F)

-- What may happen: `Do` and `Cancel` are called, and time passes, at which the timers due fire.
pub data Event {ℓ} (F : Type ℓ) : Type ℓ where
  does : ℕ → F → Event F
  cancels : Event F
  passes : ℕ → Event F

module _ {ℓ} {F : Type ℓ} where
  pub new_debouncer : ℤ → Debouncer F
  new_debouncer delay = record {
    delay = (if leb_ℤ delay (pos 0) then 10000000 else pos_part delay);
    timer = none;
    armed = [];
    next = 0;
    ran = [];
  }

  -- `t.Stop()`
  unfoldable pub stop : ℕ → List (Timer F) → List (Timer F)
  stop n [] = []
  stop n (t ∷ ts) = let rest = stop n ts in if t.number == n then rest else t ∷ rest

  -- The timers that are not due, and the functions of those that are.
  unfoldable pub waiting : ℕ → List (Timer F) → List (Timer F)
  waiting now [] = []
  waiting now (t ∷ ts) = let rest = waiting now ts in if leb t.due now then rest else t ∷ rest

  unfoldable pub fired : ℕ → List (Timer F) → List (ℕ × F)
  fired now [] = []
  fired now (t ∷ ts) = let rest = fired now ts in if leb t.due now then (now, t.fn) ∷ rest else rest

  abbrev pub stopped : Option ℕ → List (Timer F) → List (Timer F)
  stopped none ts = ts
  stopped (some n) ts = stop n ts

  pub cancel : Debouncer F → Debouncer F
  cancel d = record d { timer = none; armed = stopped d.timer d.armed }

  -- `Do`, at a time.
  pub debounce : Debouncer F → ℕ → F → Debouncer F
  debounce d now fn = record d {
    timer = some d.next;
    armed =
        stopped d.timer d.armed ++ record { number = d.next; due = now + d.delay; fn = fn } ∷ [];
    next = suc d.next;
  }

  pub pass : Debouncer F → ℕ → Debouncer F
  pass d now = record d { armed = waiting now d.armed; ran = d.ran ++ fired now d.armed }

  pub step : Debouncer F → Event F → Debouncer F
  unfolding debounce cancel pass
  step d (does now fn) = debounce d now fn
  step d cancels = cancel d
  step d (passes now) = pass d now

  pub run : Debouncer F → List (Event F) → Debouncer F
  unfolding step
  run d [] = d
  run d (e ∷ es) = run (step d e) es
