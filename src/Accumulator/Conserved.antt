-- ===== src/Accumulator/Conserved.antt =====
-- Where the values added go.
use gx.Base.{◌≡◌, ap, ◌∙◌, sym, true, ◌&&◌, List, [], ◌∷◌, ◌++◌, arith, if◌then◌else◌}
use gx.Base.Int.{ℤ, pos, add_int, add_int_comm, add_int_assoc, add_int-zero}
use gx.Accumulator.{
  Accumulator, add, close, tick, finish, Event, adds, closes, ticks, cancels, finishes, step, run,
}

-- The sum on `int`, which wraps.
abbrev pub sum_int : List ℤ → ℤ
sum_int [] = pos 0
sum_int (z ∷ zs) = add_int z (sum_int zs)

-- The values of the calls of `Add` that come while the accumulator is open.
pub accepted : Accumulator → List Event → List ℤ
accepted a [] = []
accepted a (adds n ∷ es) =
    let rest = accepted (step a (adds n)) es in if a.closed then rest else n ∷ rest
accepted a (e ∷ es) = accepted (step a e) es

sum-snoc : (zs : List ℤ) (z : ℤ) → sum_int (zs ++ z ∷ []) ≡ add_int (sum_int zs) (add_int z (pos 0))
sum-snoc [] z = sym (add_int_comm (pos 0) (add_int z (pos 0)) ∙ add_int-zero z (pos 0))
sum-snoc (y ∷ zs) z =
    ap (add_int y) (sum-snoc zs z) ∙ sym (add_int_assoc y (sum_int zs) (add_int z (pos 0)))

-- All that has gone in: what was flushed and what is held.
abbrev pub taken_in : Accumulator → ℤ
taken_in a = add_int (sum_int a.flushed) a.total

flushed-taken_in :
    (zs : List ℤ) (z : ℤ) → add_int (sum_int (zs ++ z ∷ [])) (pos 0) ≡ add_int (sum_int zs) z
flushed-taken_in zs z =
    ap (λ s. add_int s (pos 0)) (sum-snoc zs z)
    ∙ add_int-zero (sum_int zs) (add_int z (pos 0))
    ∙ sym (add_int_assoc (sum_int zs) z (pos 0))
    ∙ add_int-zero (sum_int zs) z

add-taken_in :
    (a : Accumulator) (n : ℤ)
    → taken_in (add a n) ≡ (if a.closed then taken_in a else add_int (taken_in a) n)
unfolding add
add-taken_in a n = ground (
  arith,
  flushed-taken_in a.flushed (add_int a.total n),
  add_int_assoc (sum_int a.flushed) a.total n,
)

-- No other event takes anything in or loses anything.
other-taken_in :
    (a : Accumulator) → (taken_in (close a) ≡ taken_in a) × (taken_in (tick a) ≡ taken_in a)
unfolding close tick
other-taken_in a = (
  ground (arith, flushed-taken_in a.flushed a.total),
  ground (arith, flushed-taken_in a.flushed a.total),
)

kept : {x y : ℤ} (s : ℤ) → x ≡ y → add_int x s ≡ add_int y s
kept s e = ap (λ t. add_int t s) e

-- Nothing is lost and nothing is counted twice: over any events, what has been flushed and what is
-- still held add up, on `int`, to what they were at the start and the values of the calls of `Add` that
-- came while the accumulator was open.
pub run-conserves :
    (a : Accumulator) (es : List Event)
    → taken_in (run a es) ≡ add_int (taken_in a) (sum_int (accepted a es))
unfolding run accepted step finish
run-conserves a [] = sym (add_int-zero (sum_int a.flushed) a.total)
run-conserves a (adds n ∷ es) =
    run-conserves (add a n) es
    ∙ ground
        (arith, add-taken_in a n, add_int_assoc (taken_in a) n (sum_int (accepted (add a n) es)))
run-conserves a (closes ∷ es) = run-conserves (close a) es ∙ kept _ (other-taken_in a).0
run-conserves a (ticks ∷ es) = run-conserves (step a ticks) es ∙ kept _ (ticked a)
  where
    ticked : (a : Accumulator) → taken_in (if a.running then tick a else a) ≡ taken_in a
    ticked a = ground (arith, other-taken_in a)
run-conserves a (cancels ∷ es) = run-conserves (record a { cancelled = true }) es
run-conserves a (finishes ∷ es) = run-conserves (step a finishes) es ∙ kept _ (finished a)
  where
    finished :
        (a : Accumulator) → taken_in (if a.running && a.cancelled then finish a else a) ≡ taken_in a
    finished a = ground arith
