-- ===== src/Accumulator.antt =====
-- accumulator.go. Each method, and each pass of the `run` goroutine through its loop, holds the lock,
-- so it is one function on the state. `flushed` is what the callback was called with, in order; the
-- callback does not call back into the accumulator (it would deadlock).
pub mod Invariant
pub mod Conserved
mod Tests
use gx.Base.{Bool, true, false, not, ◌&&◌, ◌||◌, List, [], ◌∷◌, ◌++◌, ◌⊎◌, inl, inr, if◌then◌else◌}
use gx.Base.Int.{ℤ, pos, ltb_ℤ, leb_ℤ, add_int}

pub record Options : Type 0 where
  pub delay : ℤ
  pub max : ℤ
  pub has_flush : Bool  -- `Flush` is not nil

pub data Error : Type 0 where
  bad_delay bad_max no_flush : Error

-- `cancelled` is the state of the context that `run` waits on, `running` whether `run` is still in its
-- loop, `armed` whether the timer will fire again.
pub record Accumulator : Type 0 where
  pub armed : Bool
  pub cancelled : Bool
  pub closed : Bool
  pub flushed : List ℤ
  pub max : ℤ
  pub running : Bool
  pub total : ℤ

pub new_accumulator : Options → Error ⊎ Accumulator
new_accumulator opts =
    if leb_ℤ opts.delay (pos 0)
    then inl bad_delay
    else if ltb_ℤ opts.max (pos 0)
    then inl bad_max
    else if not opts.has_flush
    then inl no_flush
    else inr (record {
      armed = true;
      cancelled = false;
      closed = false;
      flushed = [];
      max = opts.max;
      running = true;
      total = pos 0;
    })

abbrev is_zero : ℤ → Bool
is_zero z = leb_ℤ z (pos 0) && leb_ℤ (pos 0) z

pub flush_locked : Accumulator → Accumulator
flush_locked a =
    if is_zero a.total then a else record a { total = pos 0; flushed = a.flushed ++ a.total ∷ [] }

pub add : Accumulator → ℤ → Accumulator
unfolding flush_locked
add a n =
    if a.closed
    then a
    else (let a' = record a { total = add_int a.total n } in
        if ltb_ℤ (pos 0) a'.max && leb_ℤ a'.max a'.total then flush_locked a' else a')

pub close : Accumulator → Accumulator
close a =
    if a.closed
    then a
    else (let a' = record a { closed = true; cancelled = true; armed = false } in
        if ltb_ℤ (pos 0) a.total
        then record a' { total = pos 0; flushed = a.flushed ++ a.total ∷ [] }
        else a')

-- `run` receives from the timer.
pub tick : Accumulator → Accumulator
unfolding flush_locked
tick a = let a' = if ltb_ℤ (pos 0) a.total then flush_locked a else a in record a' { armed = true }

-- `run` sees the context done.
pub finish : Accumulator → Accumulator
finish a = record a { running = false; armed = false }

-- What may happen to an accumulator. The timer may have fired just before `Close` stopped it, so a tick
-- is possible whenever `run` is in its loop.
pub data Event : Type 0 where
  adds : ℤ → Event
  closes ticks cancels finishes : Event

pub step : Accumulator → Event → Accumulator
step a (adds n) = add a n
step a closes = close a
step a ticks = if a.running then tick a else a
step a cancels = record a { cancelled = true }
step a finishes = if a.running && a.cancelled then finish a else a

pub run : Accumulator → List Event → Accumulator
run a [] = a
run a (e ∷ es) = run (step a e) es
