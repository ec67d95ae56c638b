-- ===== src/TestAssert/Agree.antt =====
-- test/assert.go and assert/assert.go: the assertions that both packages have.
use gx.Base.{Bool, true, false, not, ◌&&◌, Option, none, some, List, if◌then◌else◌}
use gx.Base.Int.{ℤ, leb_ℤ}
use gx.Base.Text.{Text}
use gx.Assert
use gx.Assert.{
  Kind, array, chan, func, map, pointer, slice, string, unsafe_pointer, any_other, Reflect, Frame,
  Ordered,
}
use gx.TestAssert.{
  Outcome, passes, fail, fail_if, empty, not_empty, is_false, is_true, greater, greater_or_equal,
  less, less_or_equal, error_is, no_error,
}
use gx.TestAssert.Values.{
  equal, not_equal, length, has_len, nil, not_nil, not_nil_of, has_type, format_equal_failure,
}

-- Both pass, or both are what `fail` of their package makes of the same text and messages.
pub data Agree (frames : List Frame) : Assert.Outcome → Outcome → Type 0 where
  both_pass : Agree frames Assert.passes passes
  both_fail :
      (msg : Text) (message : List Text)
      → Agree frames (Assert.fail frames msg message) (fail frames msg message)

module _ (frames : List Frame) where
  Agree-if :
      (b : Bool) (msg : Text) (message : List Text)
      → Agree frames
          (if b then Assert.fail frames msg message else Assert.passes)
          (fail_if frames b msg message)
  Agree-if true msg message = both_fail msg message
  Agree-if false msg message = both_pass

  Agree-unless :
      (b : Bool) (msg : Text) (message : List Text)
      → Agree frames
          (if b then Assert.passes else Assert.fail frames msg message)
          (if b then passes else fail frames msg message)
  Agree-unless true msg message = both_pass
  Agree-unless false msg message = both_fail msg message

  Agree-else :
      (b c : Bool) (msg msg' : Text) (message : List Text)
      → Agree frames
          (if b
            then Assert.fail frames msg message
            else if c
            then Assert.fail frames msg' message
            else Assert.passes)
          (if b then fail frames msg message else fail_if frames c msg' message)
  Agree-else true c msg msg' message = both_fail msg message
  Agree-else false c msg msg' message = Agree-if c msg' message

module _ {ℓ} {E : Type ℓ} (frames : List Frame) (matches : E → E → Bool) (show : Option E → Text)
    (message : List Text) where
  error_is-Agree :
      (err target : Option E)
      → Agree frames
          (Assert.error frames matches show target err message)
          (error_is frames matches show err target message)
  unfolding Assert.error error_is
  error_is-Agree none none = both_pass
  error_is-Agree none (some target) = both_fail _ message
  error_is-Agree (some err) none = both_fail _ message
  error_is-Agree (some err) (some target) = Agree-if frames _ _ message

  no_error-Agree :
      (err : Option E)
      → Agree frames
          (Assert.no_error frames matches show err message)
          (no_error frames matches show err message)
  unfolding Assert.no_error no_error
  no_error-Agree none = both_pass
  no_error-Agree (some err) = both_fail _ message

module _ {ℓ} {Any : Type ℓ} (frames : List Frame) (lib : Reflect Any) (message : List Text) where
  equal-Agree :
      (e a : Option Any)
      → Agree frames (Assert.Values.equal frames lib e a message) (equal frames lib e a message)
  unfolding Assert.Values.equal equal Assert.Values.format_equal_failure format_equal_failure
  equal-Agree e a = Agree-if frames _ _ message

  length-Agree :
      (n : ℤ) (object : Option Any)
      → Agree frames
          (Assert.Values.length frames lib n object message)
          (length frames lib n object message)
  unfolding Assert.Values.length length
  length-Agree n none = both_fail _ message
  length-Agree n (some v) =
      Agree-else frames (not (has_len frames lib (lib.kind v) (lib.elem_kind v)))
        (not (leb_ℤ (lib.len v) n && leb_ℤ n (lib.len v))) _ _ message

  nil-Agree :
      (v : Option Any)
      → Agree frames (Assert.Values.nil frames lib v message) (nil frames lib v message)
  unfolding Assert.Values.nil nil
  nil-Agree none = both_pass
  nil-Agree (some v) = Agree-unless frames _ _ message

  not_nil-Agree :
      (v : Option Any)
      → Agree frames (Assert.Values.not_nil frames lib v message) (not_nil frames lib v message)
  unfolding Assert.Values.not_nil not_nil
  not_nil-Agree none = both_fail _ message
  not_nil-Agree (some v) = at (lib.kind v)
    where
      at :
          (k : Kind)
          → Agree frames
              (Assert.Values.not_nil_of frames lib k v message)
              (not_nil_of frames lib k v message)
      at chan = Agree-if frames _ _ message
      at func = Agree-if frames _ _ message
      at map = Agree-if frames _ _ message
      at pointer = Agree-if frames _ _ message
      at slice = Agree-if frames _ _ message
      at unsafe_pointer = Agree-if frames _ _ message
      at array = both_pass
      at string = both_pass
      at any_other = both_pass

-- Whatever the values and the messages, Empty, NotEmpty, True, False, Greater, GreaterOrEqual, Less,
-- LessOrEqual, Error as ErrorIs, NoError, Equal, NotEqual, Len, Nil, NotNil and Type of the two packages
-- agree: both pass, or both are what `fail` of their package makes of the same text and messages.
pub same_verdicts {ℓ κ ε} :
    {Any : Type ℓ} {A : Type κ} {E : Type ε} (frames : List Frame) (lib : Reflect Any)
    (ord : Ordered A) (matches : E → E → Bool) (show : Option E → Text) (text : Text)
    (condition : Bool) (a b : A) (err target : Option E) (n : ℤ) (v w : Option Any)
    (message : List Text)
    → Agree frames (Assert.empty frames text message) (empty frames text message)
      × Agree frames (Assert.not_empty frames text message) (not_empty frames text message)
      × Agree frames (Assert.is_true frames condition message) (is_true frames condition message)
      × Agree frames (Assert.is_false frames condition message) (is_false frames condition message)
      × Agree frames (Assert.greater frames ord a b message) (greater frames ord a b message)
      × Agree frames
          (Assert.greater_or_equal frames ord a b message)
          (greater_or_equal frames ord a b message)
      × Agree frames (Assert.less frames ord a b message) (less frames ord a b message)
      × Agree frames
          (Assert.less_or_equal frames ord a b message)
          (less_or_equal frames ord a b message)
      × Agree frames
          (Assert.error frames matches show target err message)
          (error_is frames matches show err target message)
      × Agree frames
          (Assert.no_error frames matches show err message)
          (no_error frames matches show err message)
      × Agree frames (Assert.Values.equal frames lib v w message) (equal frames lib v w message)
      × Agree frames
          (Assert.Values.not_equal frames lib v w message)
          (not_equal frames lib v w message)
      × Agree frames (Assert.Values.length frames lib n v message) (length frames lib n v message)
      × Agree frames (Assert.Values.nil frames lib v message) (nil frames lib v message)
      × Agree frames (Assert.Values.not_nil frames lib v message) (not_nil frames lib v message)
      × Agree frames
          (Assert.Values.has_type frames lib v w message)
          (has_type frames lib v w message)
unfolding Assert.empty empty Assert.not_empty not_empty Assert.is_true is_true Assert.is_false
    is_false Assert.greater greater Assert.greater_or_equal greater_or_equal Assert.less less
    Assert.less_or_equal less_or_equal Assert.Values.not_equal not_equal Assert.Values.has_type
    has_type
same_verdicts frames lib ord matches show text condition a b err target n v w message = (
  Agree-if frames _ _ message,
  Agree-if frames _ _ message,
  Agree-if frames _ _ message,
  Agree-if frames _ _ message,
  Agree-if frames _ _ message,
  Agree-if frames _ _ message,
  Agree-if frames _ _ message,
  Agree-if frames _ _ message,
  error_is-Agree frames matches show message err target,
  no_error-Agree frames matches show message err,
  equal-Agree frames lib message v w,
  Agree-if frames _ _ message,
  length-Agree frames lib message n v,
  nil-Agree frames lib message v,
  not_nil-Agree frames lib message v,
  Agree-if frames _ _ message,
)
