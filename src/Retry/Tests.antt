-- ===== src/Retry/Tests.antt =====
-- Runs of a Retry whose backoff doubles the delay; floating-point numbers are natural numbers.
use gx.Base.{ℕ, ◌*◌, ◌≡◌, refl, false, none, some, [], ◌∷◌, ◌==◌, arith, ltb, inr, if◌then◌else◌}
use gx.Base.Int.{pos, pos_part}
use gx.Retry.{
  Float, Retry, Attempt, Outcome, new_retry, retry, loop, pass, next_delay, jitter_delay,
}
use gx.Retry.Attempts.{Returns, Calm, expected, retry-Returns, retry-expected}
use gx.Retry.Delays.{FirstOrAtMost, retry-delays}

abbrev float : Float ℕ
float = record {
  below_zero = λ x. false;
  above_one = λ x. ltb 1 x;
  is_zero = λ x. x == 0;
  one = 1;
  scale = λ d x. pos (pos_part d * x);
  jittered = λ d x u. d;
}

-- `MaxDelay` is below `Delay`.
abbrev doubling : Retry ℕ
doubling = record {
  attempts = 4;
  backoff = 2;
  delay = pos 9;
  jitter = 0;
  max_delay = pos 5;
  max_duration = pos 0;
}

doubling_made :
    new_retry float (record {
      attempts = pos 4;
      backoff = 2;
      delay = pos 9;
      jitter = 0;
      max_delay = pos 5;
      max_duration = pos 0;
    })
    ≡ inr doubling
unfolding new_retry
doubling_made = refl

-- The function fails twice.
abbrev fails_twice : ℕ → Attempt ℕ ℕ
fails_twice i = record {
  result = (if ltb i 2 then some i else none);
  ctx_err = none;
  interrupted = none;
  random = 0;
}

abbrev fails_twice-Calm : Calm fails_twice
fails_twice-Calm = record { live = λ i. refl; undisturbed = λ i. refl }

abbrev third_call : Outcome ℕ
third_call = record {
  err = none;
  calls = 3;
  delays = pos 9 ∷ pos 5 ∷ [];
  waits = pos 9 ∷ pos 5 ∷ [];
}

abbrev third_call_lem : retry float doubling fails_twice 4 ≡ some third_call
unfolding retry loop pass next_delay jitter_delay
third_call_lem = refl

retry-Returns_example :
    (o : Outcome ℕ) × (retry float doubling fails_twice 4 ≡ some o)
    × Returns doubling fails_twice 0 o
retry-Returns_example = retry-Returns float doubling fails_twice (omega arith)

retry-expected_example :
    (o : Outcome ℕ) × (retry float doubling fails_twice 4 ≡ some o)
    × ((o.err, o.calls) ≡ expected fails_twice 0 3)
retry-expected_example = retry-expected float doubling fails_twice fails_twice-Calm (omega arith)

retry-delays_example : FirstOrAtMost (pos 9) (pos 5) (pos 9 ∷ pos 5 ∷ [])
retry-delays_example =
    retry-delays float doubling fails_twice 4 third_call (omega arith) third_call_lem
