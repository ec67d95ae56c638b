-- ===== src/Retry.antt =====
-- retry.go: a function called until it succeeds. What floating-point arithmetic computes is a parameter:
-- `F` is `float64`. `Do` is a loop without a bound of its own, so it runs on fuel, one for each call.
pub mod Passes
pub mod Attempts
pub mod Delays
mod Tests
use gx.Base.{
  ℕ, zero, suc, ◌+◌, Bool, ◌&&◌, ◌||◌, Option, none, some, List, [], ◌∷◌, ◌⊎◌, inl, inr, ltb, ◌==◌,
  if◌then◌else◌,
}
use gx.Base.Int.{ℤ, pos, pos_part, ltb_ℤ, leb_ℤ}

-- What the code uses of `float64`: the tests `x < 0`, `x > 1` and `x == 0`, the number 1,
-- `time.Duration(float64(d) * x)` as `scale d x`, and `jittered d x u`, the sum that `jitterDelay`
-- returns for the fraction `x` and the random number `u`.
pub record Float {ℓ} (F : Type ℓ) : Type ℓ where
  pub below_zero : F → Bool
  pub above_one : F → Bool
  pub is_zero : F → Bool
  pub one : F
  pub scale : ℤ → F → ℤ
  pub jittered : ℤ → F → F → ℤ

pub record Options {ℓ} (F : Type ℓ) : Type ℓ where
  pub attempts : ℤ
  pub backoff : F
  pub delay : ℤ
  pub jitter : F
  pub max_delay : ℤ
  pub max_duration : ℤ

-- `attempts` is not negative, since `NewRetry` makes it.
pub record Retry {ℓ} (F : Type ℓ) : Type ℓ where
  pub attempts : ℕ
  pub backoff : F
  pub delay : ℤ
  pub jitter : F
  pub max_delay : ℤ
  pub max_duration : ℤ

pub data Error : Type 0 where
  bad_attempts bad_delay bad_backoff bad_jitter bad_max_delay bad_max_duration no_delay : Error

-- What happens in one pass through the loop: the error that the function returns, that of the context
-- then, that of the context if it ends the wait before the timer does, and the random number drawn.
pub record Attempt {ℓ κ} (F : Type ℓ) (E : Type κ) : Type (ℓ ⊔ κ) where
  pub result : Option E
  pub ctx_err : Option E
  pub interrupted : Option E
  pub random : F

-- What `Do` comes to: the error that it returns, the number of calls, the delays that `jitterDelay` was
-- given and the waits that it made of them.
pub record Outcome {κ} (E : Type κ) : Type κ where
  pub err : Option E
  pub calls : ℕ
  pub delays : List ℤ
  pub waits : List ℤ

-- `Do` returns in the pass with this number.
abbrev pub stop {κ} : {E : Type κ} → ℕ → Option E → Option (Outcome E)
stop attempt err = some (record { err = err; calls = suc attempt; delays = []; waits = [] })

-- A pass that waited, before the rest of the loop.
abbrev pub waited {κ} : {E : Type κ} → ℤ → ℤ → Option (Outcome E) → Option (Outcome E)
waited delay wait none = none
waited delay wait (some o) = some (record o { delays = delay ∷ o.delays; waits = wait ∷ o.waits })

module _ {ℓ} {F : Type ℓ} (float : Float F) where
  pub new_retry : Options F → Error ⊎ Retry F
  new_retry opts =
      if ltb_ℤ opts.attempts (pos 0)
      then inl bad_attempts
      else if ltb_ℤ opts.delay (pos 0)
      then inl bad_delay
      else if float.below_zero opts.backoff
      then inl bad_backoff
      else if float.below_zero opts.jitter || float.above_one opts.jitter
      then inl bad_jitter
      else if ltb_ℤ opts.max_delay (pos 0)
      then inl bad_max_delay
      else if ltb_ℤ opts.max_duration (pos 0)
      then inl bad_max_duration
      else if leb_ℤ opts.attempts (pos 0)
          && leb_ℤ opts.max_duration (pos 0)
          && leb_ℤ opts.delay (pos 0)
      then inl no_delay
      else inr (record {
        attempts = pos_part opts.attempts;
        backoff = (if float.is_zero opts.backoff then float.one else opts.backoff);
        delay = opts.delay;
        jitter = opts.jitter;
        max_delay = opts.max_delay;
        max_duration = opts.max_duration;
      })

  pub jitter_delay : Retry F → F → ℤ → ℤ
  jitter_delay r random delay =
      if (leb_ℤ delay (pos 0) && leb_ℤ (pos 0) delay) || float.is_zero r.jitter
      then delay
      else float.jittered delay r.jitter random

  -- The delay of the next pass.
  pub next_delay : Retry F → ℤ → ℤ
  next_delay r delay =
      let scaled = float.scale delay r.backoff in
      if ltb_ℤ (pos 0) r.max_delay && ltb_ℤ r.max_delay scaled then r.max_delay else scaled

  -- A pass through the loop, where `rest` is what the passes after it come to.
  pub pass {κ} :
      {E : Type κ} → Retry F → Attempt F E → ℕ → ℤ → Option (Outcome E) → Option (Outcome E)
  unfolding jitter_delay
  pass r a attempt delay rest = elim a.result [
    | none ↦ stop attempt none
    | some err ↦
        if ltb 0 r.attempts && (suc attempt == r.attempts)
        then stop attempt (some err)
        else elim a.ctx_err [
          | some e ↦ stop attempt (some e)
          | none ↦
              if ltb_ℤ (pos 0) delay
              then waited delay (jitter_delay r a.random delay)
                  (elim a.interrupted [ some e ↦ stop attempt (some e) | none ↦ rest ])
              else rest
        ]
  ]

  -- The loop, from an attempt and its delay on; `none` is a loop that has used up its fuel.
  pub loop {κ} : {E : Type κ} → Retry F → (ℕ → Attempt F E) → ℕ → ℕ → ℤ → Option (Outcome E)
  unfolding pass next_delay
  loop r script zero attempt delay = none
  loop r script (suc fuel) attempt delay =
      pass r (script attempt) attempt delay (loop r script fuel (suc attempt) (next_delay r delay))

  -- `Do`. The script has what the context does, whose timeout is `max_duration` if that is positive.
  pub retry {κ} : {E : Type κ} → Retry F → (ℕ → Attempt F E) → ℕ → Option (Outcome E)
  unfolding loop
  retry r script fuel = loop r script fuel 0 r.delay
