-- ===== src/Accumulator/Invariant.antt =====
-- What holds of an accumulator between two events.
use gx.Base.{◌≡◌, true, List, [], ◌∷◌, ◌++◌, inr, arith}
use gx.Base.Int.{ℤ, pos, ◌<ℤ◌, ◌≤ℤ◌, add_int}
use gx.Accumulator.{
  Options, Accumulator, new_accumulator, add, close, tick, finish, Event, adds, closes, ticks,
  cancels, finishes, step, run,
}

abbrev pub AllPositive : List ℤ → Type 0
AllPositive [] = Unit
AllPositive (z ∷ zs) = (pos 0 <ℤ z) × AllPositive zs

AllPositive-snoc : (zs : List ℤ) (z : ℤ) → AllPositive zs → pos 0 <ℤ z → AllPositive (zs ++ z ∷ [])
AllPositive-snoc [] z h p = (p, tt)
AllPositive-snoc (y ∷ zs) z h p = (h.0, AllPositive-snoc zs z h.1 p)

-- Below the threshold, if there is one; nothing to flush once closed; every flush was of a positive
-- total; the threshold is not negative.
pub record Inv (a : Accumulator) : Type 0 where
  pub below : pos 0 <ℤ a.max → a.total <ℤ a.max
  pub settled : a.closed ≡ true → a.total ≤ℤ pos 0
  pub positive : AllPositive a.flushed

pub new_accumulator-Inv : (opts : Options) {a : Accumulator} → new_accumulator opts ≡ inr a → Inv a
unfolding new_accumulator
new_accumulator-Inv opts e = ground arith

add-Inv : (a : Accumulator) (n : ℤ) → Inv a → Inv (add a n)
unfolding add
add-Inv a n v =
    ground (arith, AllPositive-snoc a.flushed (add_int a.total n), v.below, v.settled, v.positive)

close-Inv : (a : Accumulator) → Inv a → Inv (close a)
unfolding close
close-Inv a v = ground (arith, AllPositive-snoc a.flushed a.total, v.below, v.settled, v.positive)

tick-Inv : (a : Accumulator) → Inv a → Inv (tick a)
unfolding tick
tick-Inv a v = ground (arith, AllPositive-snoc a.flushed a.total, v.below, v.settled, v.positive)

-- Every event keeps the invariant.
pub step-Inv : (a : Accumulator) (e : Event) → Inv a → Inv (step a e)
unfolding step finish
step-Inv a (adds n) v = add-Inv a n v
step-Inv a closes v = close-Inv a v
step-Inv a ticks v = ground (arith, tick-Inv a v)
step-Inv a cancels v = record { below = v.below; settled = v.settled; positive = v.positive }
step-Inv a finishes v = ground (arith, v.below, v.settled, v.positive)

run-Inv : (a : Accumulator) (es : List Event) → Inv a → Inv (run a es)
unfolding run
run-Inv a [] v = v
run-Inv a (e ∷ es) v = run-Inv (step a e) es (step-Inv a e v)

-- After any events from a new accumulator every flushed total was positive, the total held is below the
-- threshold, if there is one, and a closed accumulator holds nothing to flush.
pub run-new_accumulator :
    (opts : Options) (es : List Event) {a : Accumulator}
    → new_accumulator opts ≡ inr a
    → Inv (run a es)
run-new_accumulator opts es {a} e = run-Inv a es (new_accumulator-Inv opts e)
