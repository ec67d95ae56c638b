-- ===== src/TestAssert.antt =====
-- test/assert.go: assertions for tests, which call `Fatal` of a TestingT where they fail and do nothing
-- after that, so that it makes no difference whether it returns. What package reflect, fmt and errors find
-- out about values is in `Reflect`; the frames of the stack are an argument.
pub mod Values
pub mod Same
pub mod Agree
mod Tests
use gx.Base.{Bool, true, false, not, ◌||◌, Option, none, some, List, [], ◌∷◌, ◌++◌, if◌then◌else◌}
use gx.Base.Text.{Text, codes}
use gx.Assert
use gx.Assert.{Frame, Ordered, is_empty}

-- What an assertion comes to: nothing, a call of `Fatal` with a text, or a panic.
pub data Outcome : Type 0 where
  passes : Outcome
  fatal panics : Text → Outcome

-- One text after the other.
abbrev pub texts : List Text → Text
texts [] = []
texts (t ∷ []) = t
texts (t ∷ u ∷ ts) = t ++ texts (u ∷ ts)

-- The frames outside this package, the runtime and package testing, a line for each.
unfoldable pub trace : List Frame → Text
unfolding Assert.contains
trace [] = []
trace (f ∷ frames) =
    let rest = trace frames in
    if Assert.contains f.name (codes "/test.")
      || Assert.contains f.name (codes "runtime.")
      || Assert.contains f.name (codes "testing.")
    then rest
    else texts (f.place ∷ codes " - " ∷ f.name ∷ (10 ∷ rest) ∷ [])

module _ (frames : List Frame) where
  abbrev report : Text → Text → Outcome
  report msg more = fatal (
      codes "assertion failed: "
      ++ (msg ++ (more ++ (10 ∷ 10 ∷ (codes "stack trace:" ++ (10 ∷ trace frames))))))

  unfoldable pub fail : Text → List Text → Outcome
  unfolding trace
  fail msg [] = report msg []
  fail msg (m ∷ []) = report msg (codes ": " ++ m)
  fail msg (m ∷ n ∷ message) = panics (codes "assertion accepts at most one message")

  -- The body of an assertion that tests one condition: it fails where that holds.
  abbrev pub fail_if : Bool → Text → List Text → Outcome
  fail_if b msg message = if b then fail msg message else passes

  unfoldable pub empty : Text → List Text → Outcome
  empty s message = fail_if (not (is_empty s)) (codes "string is not empty") message

  unfoldable pub not_empty : Text → List Text → Outcome
  not_empty s message = fail_if (is_empty s) (codes "string is empty") message

  unfoldable pub is_false : Bool → List Text → Outcome
  is_false condition message = fail_if condition (codes "expected false, got true") message

  unfoldable pub is_true : Bool → List Text → Outcome
  is_true condition message = fail_if (not condition) (codes "expected true, got false") message

  -- `recovered` is whether `recover` returns a value after the function.
  unfoldable pub panics_in : Bool → List Text → Outcome
  panics_in recovered message =
      fail_if (not recovered) (codes "expected panic, but function did not panic") message

module _ {ℓ} {A : Type ℓ} (frames : List Frame) (ord : Ordered A) where
  unfoldable pub greater : A → A → List Text → Outcome
  greater actual minimum message =
      fail_if frames (not (ord.lt minimum actual))
        (texts (
          codes "expected '"
          ∷ ord.show actual
          ∷ codes "' to be greater than '"
          ∷ ord.show minimum
          ∷ codes "'"
          ∷ []))
        message

  unfoldable pub greater_or_equal : A → A → List Text → Outcome
  greater_or_equal actual minimum message =
      fail_if frames (not (ord.le minimum actual))
        (texts (
          codes "expected '"
          ∷ ord.show actual
          ∷ codes "' to be greater than or equal to '"
          ∷ ord.show minimum
          ∷ codes "'"
          ∷ []))
        message

  unfoldable pub less : A → A → List Text → Outcome
  less actual maximum message =
      fail_if frames (not (ord.lt actual maximum))
        (texts (
          codes "expected '"
          ∷ ord.show actual
          ∷ codes "' to be less than '"
          ∷ ord.show maximum
          ∷ codes "'"
          ∷ []))
        message

  unfoldable pub less_or_equal : A → A → List Text → Outcome
  less_or_equal actual maximum message =
      fail_if frames (not (ord.le actual maximum))
        (texts (
          codes "expected '"
          ∷ ord.show actual
          ∷ codes "' to be less than or equal to '"
          ∷ ord.show maximum
          ∷ codes "'"
          ∷ []))
        message

-- `matches` is `errors.Is`, with the error to look in first, `show` is %v, `error_text` the method `Error`,
-- `quote` is %q and `same_text` the equality of strings.
module _ {ℓ} {E : Type ℓ} (frames : List Frame) (matches : E → E → Bool)
    (show : Option E → Text) where
  abbrev one_nil : Option E → Option E → List Text → Outcome
  one_nil err target message =
      fail frames
        (texts (
          codes "one error is nil: expected '"
          ∷ show target
          ∷ codes "', got '"
          ∷ show err
          ∷ codes "'"
          ∷ []))
        message

  unfoldable pub error_is : Option E → Option E → List Text → Outcome
  error_is none none message = passes
  error_is none (some target) message = one_nil none (some target) message
  error_is (some err) none message = one_nil (some err) none message
  error_is (some err) (some target) message =
      fail_if frames (not (matches err target))
        (texts (
          codes "expected error '"
          ∷ show (some target)
          ∷ codes "', got '"
          ∷ show (some err)
          ∷ codes "'"
          ∷ []))
        message

  unfoldable pub no_error : Option E → List Text → Outcome
  no_error none message = passes
  no_error (some err) message =
      fail frames (texts (codes "unexpected error: '" ∷ show (some err) ∷ codes "'" ∷ [])) message

module _ {ℓ} {E : Type ℓ} (frames : List Frame) (error_text : E → Text) (quote : Text → Text) where
  unfoldable pub error_message : Option E → Text → List Text → Outcome
  error_message none expected message =
      fail frames
        (texts (codes "expected error message " ∷ quote expected ∷ codes ", got nil" ∷ [])) message
  error_message (some err) expected message =
      fail_if frames (not (Assert.same_text (error_text err) expected))
        (texts (
          codes "expected error message "
          ∷ quote expected
          ∷ codes ", got "
          ∷ quote (error_text err)
          ∷ []))
        message
