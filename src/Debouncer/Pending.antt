-- ===== src/Debouncer/Pending.antt =====
-- debouncer.go: what runs, and when.
use gx.Base.{
  ℕ, ◌+◌, ◌≡◌, refl, sym, ap, ap₂, ◌∙◌, true, Bool-cases, Option, none, some, List, [], ◌∷◌, ◌++◌,
  append_assoc, append-nil, inl, inr, arith, leb, ◌==◌, if◌then◌else◌,
}
use gx.Base.Int.{ℤ}
use gx.Debouncer.{
  Timer, Debouncer, Event, does, cancels, passes, new_debouncer, stop, waiting, fired, stopped,
  cancel, debounce, pass, step, run,
}

==_same : (n : ℕ) → (n == n) ≡ true
==_same n = ground arith

module _ {ℓ} {F : Type ℓ} where
  abbrev armed_timer : ℕ → ℕ → F → Timer F
  armed_timer n due fn = record { number = n; due = due; fn = fn }

  -- A call that waits to run has the time of its `Do`. The function of a call that is `delay` old runs.
  abbrev pub pending_after : ℕ → Option (ℕ × F) → ℕ → Option (ℕ × F)
  pending_after delay none now = none
  pending_after delay (some (t, fn)) now = if leb (t + delay) now then none else some (t, fn)

  abbrev pub runs : ℕ → Option (ℕ × F) → ℕ → List (ℕ × F)
  runs delay none now = []
  runs delay (some (t, fn)) now = if leb (t + delay) now then (now, fn) ∷ [] else []

  -- What runs of a sequence of events, when one call waits: the last one, until it runs or is cancelled.
  abbrev pub debounced : ℕ → Option (ℕ × F) → List (Event F) → List (ℕ × F)
  debounced delay p [] = []
  debounced delay p (does now fn ∷ es) = debounced delay (some (now, fn)) es
  debounced delay p (cancels ∷ es) = debounced delay none es
  debounced delay p (passes now ∷ es) =
      runs delay p now ++ debounced delay (pending_after delay p now) es

  -- A Debouncer has no timer armed but that of its field, which is due when the call that waits is.
  abbrev Shows : Debouncer F → Option (ℕ × F) → Type ℓ
  Shows d none = d.armed ≡ []
  Shows d (some (t, fn)) =
      (n : ℕ) × (d.timer ≡ some n) × (d.armed ≡ armed_timer n (t + d.delay) fn ∷ [])

  stop_one : (n : ℕ) (t : Timer F) → t.number ≡ n → stop n (t ∷ []) ≡ []
  unfolding stop
  stop_one n t e = rw (e, ==_same n) refl

  stop_none : (o : Option ℕ) → stopped {F = F} o [] ≡ []
  unfolding stop
  stop_none none = refl
  stop_none (some n) = refl

  stopped-Shows : (d : Debouncer F) (p : Option (ℕ × F)) → Shows d p → stopped d.timer d.armed ≡ []
  stopped-Shows d none h = ap (stopped d.timer) h ∙ stop_none d.timer
  stopped-Shows d (some (t, fn)) (n, e, h) =
      ap₂ stopped e h ∙ stop_one n (armed_timer n (t + d.delay) fn) refl

  cancel-Shows : (d : Debouncer F) (p : Option (ℕ × F)) → Shows d p → Shows (cancel d) none
  unfolding cancel
  cancel-Shows d p h = stopped-Shows d p h

  debounce-Shows :
      (d : Debouncer F) (p : Option (ℕ × F)) (now : ℕ) (fn : F)
      → Shows d p
      → Shows (debounce d now fn) (some (now, fn))
  unfolding debounce
  debounce-Shows d p now fn h = (
    d.next,
    refl,
    ap (λ ts. ts ++ armed_timer d.next (now + d.delay) fn ∷ []) (stopped-Shows d p h),
  )

  pass-Shows :
      (d : Debouncer F) (p : Option (ℕ × F)) (now : ℕ)
      → Shows d p
      → Shows (pass d now) (pending_after d.delay p now)
  unfolding pass waiting
  pass-Shows d none now h = ap (waiting now) h
  pass-Shows d (some (t, fn)) now (n, e, h) = elim (Bool-cases (leb (t + d.delay) now)) [
    | inl l ↦
        rw l
          (ap (waiting now) h ∙ ap (λ b. if b then [] else armed_timer n (t + d.delay) fn ∷ []) l)
    | inr l ↦ rw l (
      n,
      e,
      ap (waiting now) h ∙ ap (λ b. if b then [] else armed_timer n (t + d.delay) fn ∷ []) l,
    )
  ]

  pass-runs :
      (d : Debouncer F) (p : Option (ℕ × F)) (now : ℕ)
      → Shows d p
      → (pass d now).ran ≡ d.ran ++ runs d.delay p now
  unfolding pass fired
  pass-runs d none now h = ap (λ ts. d.ran ++ fired now ts) h
  pass-runs d (some (t, fn)) now (n, e, h) = ap (λ ts. d.ran ++ fired now ts) h

  run-debounced :
      (d : Debouncer F) (p : Option (ℕ × F)) (es : List (Event F))
      → Shows d p
      → (run d es).ran ≡ d.ran ++ debounced d.delay p es
  unfolding run step cancel debounce pass
  run-debounced d p [] h = sym (append-nil d.ran)
  run-debounced d p (does now fn ∷ es) h =
      run-debounced (debounce d now fn) (some (now, fn)) es (debounce-Shows d p now fn h)
  run-debounced d p (cancels ∷ es) h = run-debounced (cancel d) none es (cancel-Shows d p h)
  run-debounced d p (passes now ∷ es) h =
      run-debounced (pass d now) (pending_after d.delay p now) es (pass-Shows d p now h)
      ∙ ap (λ l. l ++ debounced d.delay (pending_after d.delay p now) es) (pass-runs d p now h)
      ∙ append_assoc d.ran (runs d.delay p now) _

  -- Over any calls of `Do` and `Cancel` and any passing of time, what a new Debouncer runs is what one
  -- pending call runs: each `Do` takes the place of the call that waits, `Cancel` drops it, and it runs
  -- once, when the time is at least the delay after its `Do`.
  pub new_debouncer-run :
      (delay : ℤ) (es : List (Event F))
      → (run (new_debouncer delay) es).ran ≡ debounced (new_debouncer {F = F} delay).delay none es
  unfolding new_debouncer
  new_debouncer-run delay es = run-debounced (new_debouncer delay) none es refl
