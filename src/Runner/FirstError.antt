-- ===== src/Runner/FirstError.antt =====
-- `Wait` returns the first error of all, and the context has its first cause.
use gx.Base.{
  ◌≡◌, refl, ap, ◌∙◌, Bool, true, false, Option, none, some, List, [], ◌∷◌, arith, if◌then◌else◌,
}
use gx.Sync.Context.{Cause, failed, to_cause, cancel_cause}
use gx.Runner.{
  Runner, new_runner, start, finish, wait, Event, starts, finishes, cancels, parent_done, step, run,
}

abbrev pub or_first {κ} : {A : Type κ} → Option A → Option A → Option A
or_first none o = o
or_first (some a) o = some a

abbrev is_set {κ} : {A : Type κ} → Option A → Bool
is_set none = false
is_set (some a) = true

or_first-none {κ} : {A : Type κ} (o : Option A) → o ≡ or_first o none
or_first-none none = refl
or_first-none (some a) = refl

or_first_assoc {κ} :
    {A : Type κ} (a b c : Option A) → or_first (or_first a b) c ≡ or_first a (or_first b c)
or_first_assoc none b c = refl
or_first_assoc (some x) b c = refl

module _ {ℓ} {E : Type ℓ} where
  -- The error that an event brings.
  abbrev pub error_of : Event E → Option E
  error_of starts = none
  error_of (finishes result) = result
  error_of (cancels e) = some e
  error_of (parent_done c) = none

  pub first_error : List (Event E) → Option E
  first_error [] = none
  first_error (e ∷ es) = or_first (error_of e) (first_error es)

  -- What cancels the context.
  abbrev pub cause_of : Event E → Option (Cause E)
  cause_of starts = none
  cause_of (finishes none) = none
  cause_of (finishes (some e)) = some (failed e)
  cause_of (cancels e) = some (failed e)
  cause_of (parent_done c) = some c

  pub first_cause : List (Event E) → Option (Cause E)
  first_cause [] = none
  first_cause (e ∷ es) = or_first (cause_of e) (first_cause es)

  -- The error is recorded once, and then the context is cancelled.
  record Inv (r : Runner E) : Type ℓ where
    recorded : r.once ≡ is_set r.err
    live : r.cancellable ≡ true
    caused : r.cause ≡ none → r.err ≡ none

  step-Inv :
      (r : Runner E) (e : Event E)
      → Inv r
      → Inv (step r e)
        × ((step r e).err ≡ or_first r.err (error_of e))
        × ((step r e).cause ≡ or_first r.cause (cause_of e))
  unfolding step start finish cancel_cause
  step-Inv r starts v = ground (arith, v.caused)
  step-Inv r (finishes none) v = ground (arith, v.caused)
  step-Inv r (finishes (some e)) v = ground (arith, v.caused)
  step-Inv r (cancels e) v = ground (arith, v.caused)
  step-Inv r (parent_done c) v = ground (arith, v.caused)

  run-Inv :
      (r : Runner E) (es : List (Event E))
      → Inv r
      → Inv (run r es)
        × ((run r es).err ≡ or_first r.err (first_error es))
        × ((run r es).cause ≡ or_first r.cause (first_cause es))
  unfolding run first_error first_cause
  run-Inv r [] v = (v, or_first-none r.err, or_first-none r.cause)
  run-Inv r (e ∷ es) v =
      let (v', err, cause) = step-Inv r e v in
      let (v'', err', cause') = run-Inv (step r e) es v' in
      (
        v'',
        err'
            ∙ ap (λ o. or_first o (first_error es)) err
            ∙ or_first_assoc r.err (error_of e) (first_error es),
        cause'
            ∙ ap (λ o. or_first o (first_cause es)) cause
            ∙ or_first_assoc r.cause (cause_of e) (first_cause es),
      )

  -- When `Wait` returns, whatever happened before, it returns the first error that a task returned or
  -- `Cancel` was given, or nil if there was none; and the context is cancelled, by the first of those
  -- errors and of the causes that came through the parent, or by the return of `Wait` itself.
  wait_lem :
      (es : List (Event E)) (result : Option E) (r : Runner E)
      → wait (run (new_runner none) es) ≡ some (result, r)
      → (result ≡ first_error es)
        × (r.cause ≡ or_first (first_cause es) (some (to_cause (first_error es))))
  unfolding wait new_runner cancel_cause
  wait_lem es result r e =
      let start-Inv : Inv (new_runner none) = record {
        recorded = refl;
        live = refl;
        caused = λ _. refl;
      } in
      let (v, err, cause) = run-Inv (new_runner none) es start-Inv in ground (arith, v.live)

  wait-idle : (r : Runner E) → r.pending ≡ 0 → (s : Runner E) × (wait r ≡ some (r.err, s))
  unfolding wait
  wait-idle r p =
      (record r { cause = (if r.cancellable then cancel_cause r.cause r.err else r.cause) }, simp p)

  -- `Wait` of a new Runner on a live context returns when no task is left running, whatever tasks have
  -- been started and have returned and whatever was cancelled before. It returns the first error that a
  -- task returned or that `Cancel` was called with, nil if there is none, and the context is then
  -- cancelled, by what was first to cancel it.
  pub wait-first_error :
      (es : List (Event E))
      → (run (new_runner none) es).pending ≡ 0
      → (r : Runner E) × (wait (run (new_runner none) es) ≡ some (first_error es, r))
        × (r.cause ≡ or_first (first_cause es) (some (to_cause (first_error es))))
  wait-first_error es p =
      let (r, e) = wait-idle (run (new_runner none) es) p in
      let (err, cause) = wait_lem es _ r e in (r, e ∙ ap (λ x. some (x, r)) err, cause)
