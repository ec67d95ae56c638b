-- ===== src/Assert/Pairs.antt =====
-- assert/assert.go: when an assertion passes.
use gx.Base.{
  ◌≡◌, refl, ◌∙◌, sym, ap, Bool, true, false, not, Option, none, some, List, [], ◌∷◌, if◌then◌else◌,
}
use gx.Base.Text.{Text}
use gx.Assert.{
  Reflect, Frame, Outcome, passes, panics, Ordered, Kind, fail, empty, not_empty, is_false, is_true,
  greater, greater_or_equal, less, less_or_equal, is_empty, chan, func, map, pointer, slice,
  unsafe_pointer, array, string, any_other,
}
use gx.Assert.Values.{equal, not_equal, nil, not_nil, return_nil, not_nil_of}

abbrev pub passed : Outcome → Bool
passed passes = true
passed (panics text) = false

module _ (frames : List Frame) where
  passed-fail : (msg : Text) (message : List Text) → passed (fail frames msg message) ≡ false
  unfolding fail
  passed-fail msg [] = refl
  passed-fail msg (m ∷ []) = refl
  passed-fail msg (m ∷ n ∷ message) = refl

  -- An assertion that fails where a test holds, and one that passes there.
  passed-unless :
      (b : Bool) (msg : Text) (message : List Text)
      → passed (if b then fail frames msg message else passes) ≡ not b
  passed-unless true msg message = passed-fail msg message
  passed-unless false msg message = refl

  passed-where :
      (b : Bool) (msg : Text) (message : List Text)
      → passed (if b then passes else fail frames msg message) ≡ b
  passed-where true msg message = refl
  passed-where false msg message = passed-fail msg message

not_involutive : (b : Bool) → not (not b) ≡ b
not_involutive true = refl
not_involutive false = refl

unless_not :
    (frames : List Frame) (b : Bool) (msg msg' : Text) (n m : List Text)
    → passed (if b then fail frames msg n else passes)
      ≡ not (passed (if not b then fail frames msg' m else passes))
unless_not frames b msg msg' n m =
    passed-unless frames b msg n
    ∙ ap not (sym (passed-unless frames (not b) msg' m ∙ not_involutive b))

module _ {ℓ} {Any : Type ℓ} (frames : List Frame) (lib : Reflect Any) where
  not_nil-nil :
      (v : Option Any) (m n : List Text)
      → passed (not_nil frames lib v n) ≡ not (passed (nil frames lib v m))
  unfolding nil not_nil
  not_nil-nil none m n = passed-fail frames _ n
  not_nil-nil (some v) m n =
      passed-not_nil_of (lib.kind v) v n ∙ ap not (sym (passed-where frames _ _ m))
    where
      passed-not_nil_of :
          (k : Kind) (v : Any) (n : List Text)
          → passed (not_nil_of frames lib k v n) ≡ not (return_nil frames lib k v)
      passed-not_nil_of chan v n = passed-unless frames _ _ n
      passed-not_nil_of func v n = passed-unless frames _ _ n
      passed-not_nil_of map v n = passed-unless frames _ _ n
      passed-not_nil_of pointer v n = passed-unless frames _ _ n
      passed-not_nil_of slice v n = passed-unless frames _ _ n
      passed-not_nil_of unsafe_pointer v n = passed-unless frames _ _ n
      passed-not_nil_of array v n = refl
      passed-not_nil_of string v n = refl
      passed-not_nil_of any_other v n = refl

  equal-not_equal :
      (e a : Option Any) (m n : List Text)
      → passed (not_equal frames lib e a n) ≡ not (passed (equal frames lib e a m))
  unfolding equal not_equal
  equal-not_equal e a m n =
      passed-unless frames _ _ n ∙ ap not (sym (passed-unless frames _ _ m ∙ not_involutive _))

-- Of any two values, with any messages: exactly one of Equal and NotEqual passes, one of Nil and NotNil,
-- one of Empty and NotEmpty, one of True and False; and where `<=` is the negation of `>`, one of Greater
-- and LessOrEqual and one of Less and GreaterOrEqual. The other panics.
pub one_passes {ℓ κ} :
    {Any : Type ℓ} {A : Type κ} (frames : List Frame) (lib : Reflect Any) (ord : Ordered A)
    (e v : Option Any) (text : Text) (condition : Bool) (a b : A) (m n : List Text)
    → ((x y : A) → ord.le x y ≡ not (ord.lt y x))
    → (passed (not_equal frames lib e v n) ≡ not (passed (equal frames lib e v m)))
      × (passed (not_nil frames lib v n) ≡ not (passed (nil frames lib v m)))
      × (passed (not_empty frames text n) ≡ not (passed (empty frames text m)))
      × (passed (is_false frames condition n) ≡ not (passed (is_true frames condition m)))
      × (passed (less_or_equal frames ord a b n) ≡ not (passed (greater frames ord a b m)))
      × (passed (greater_or_equal frames ord a b n) ≡ not (passed (less frames ord a b m)))
unfolding empty not_empty is_false is_true greater greater_or_equal less less_or_equal
one_passes frames lib ord e v text condition a b m n total = (
  equal-not_equal frames lib e v m n,
  not_nil-nil frames lib v m n,
  unless_not frames (is_empty text) _ _ n m,
  unless_not frames condition _ _ n m,
  passed-unless frames _ _ n
      ∙ not_involutive _
      ∙ total a b
      ∙ ap not (sym (passed-unless frames _ _ m ∙ not_involutive _)),
  passed-unless frames _ _ n
      ∙ not_involutive _
      ∙ total b a
      ∙ ap not (sym (passed-unless frames _ _ m ∙ not_involutive _)),
)
