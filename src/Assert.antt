-- ===== src/Assert.antt =====
-- assert/assert.go: assertions, which panic where they fail. What package reflect, fmt and errors find out
-- about values is in `Reflect`; the frames of the stack are an argument. `Any` is the type of the values
-- that are not nil.
pub mod Values
pub mod Pairs
mod Tests
use gx.Base.{
  ℕ, Bool, true, false, not, ◌&&◌, ◌||◌, Option, none, some, List, [], ◌∷◌, ◌++◌, ◌==◌,
  if◌then◌else◌,
}
use gx.Base.Int.{ℤ, leb_ℤ}
use gx.Base.Text.{Text, codes}

-- The kinds that the assertions tell apart.
pub data Kind : Type 0 where
  array chan func map pointer slice string unsafe_pointer any_other : Kind

-- `show`, `show_go` and `show_type` are the verbs %v, %#v and %T, `type_of` is none for nil, and
-- `elem_kind` is the kind of what a pointer points to.
pub record Reflect {ℓ} (Any : Type ℓ) : Type ℓ where
  pub deep_equal : Option Any → Option Any → Bool
  pub kind : Any → Kind
  pub elem_kind : Any → Kind
  pub is_nil : Any → Bool
  pub pointer_value : Any → ℕ
  pub len : Any → ℤ
  pub type_of : Option Any → Option ℕ
  pub type_text : Option ℕ → Text
  pub show : Option Any → Text
  pub show_go : Option Any → Text
  pub show_type : Option Any → Text
  pub decimal : ℤ → Text

-- A frame of the stack, with its file and line as they are printed.
pub record Frame : Type 0 where
  pub name : Text
  pub place : Text

pub data Outcome : Type 0 where
  passes : Outcome
  panics : Text → Outcome

abbrev pub is_prefix : Text → Text → Bool
is_prefix [] text = true
is_prefix (c ∷ prefix) [] = false
is_prefix (c ∷ prefix) (d ∷ text) =
    let rest = is_prefix prefix text in if c == d then rest else false

-- `strings.Contains`
unfoldable pub contains : Text → Text → Bool
contains [] part = is_prefix part []
contains (c ∷ text) part = is_prefix part (c ∷ text) || contains text part

abbrev pub same_text : Text → Text → Bool
same_text [] [] = true
same_text [] (d ∷ t) = false
same_text (c ∷ s) [] = false
same_text (c ∷ s) (d ∷ t) = let rest = same_text s t in if c == d then rest else false

abbrev pub same_type : Option ℕ → Option ℕ → Bool
same_type none none = true
same_type (some a) (some b) = a == b
same_type none (some b) = false
same_type (some a) none = false

-- The frames outside this package and the runtime, a line for each.
unfoldable pub trace : List Frame → Text
unfolding contains
trace [] = []
trace (f ∷ frames) =
    let rest = trace frames in
    if contains f.name (codes "/assert.") || contains f.name (codes "runtime.")
    then rest
    else codes "at " ++ (f.place ++ (10 ∷ rest))

abbrev pub is_empty : Text → Bool
is_empty [] = true
is_empty (c ∷ text) = false

module _ (frames : List Frame) where
  abbrev report : Text → Text → Outcome
  report msg more = panics (
      codes "assertion failed: "
      ++ (msg ++ (more ++ (10 ∷ 10 ∷ (codes "stack trace:" ++ (10 ∷ trace frames))))))

  unfoldable pub fail : Text → List Text → Outcome
  unfolding trace
  fail msg [] = report msg []
  fail msg (m ∷ []) = report msg (codes ": " ++ m)
  fail msg (m ∷ n ∷ message) = panics (codes "assertion accepts at most one message")

  unfoldable pub empty : Text → List Text → Outcome
  empty s message = if not (is_empty s) then fail (codes "string is not empty") message else passes

  unfoldable pub not_empty : Text → List Text → Outcome
  not_empty s message = if is_empty s then fail (codes "string is empty") message else passes

  unfoldable pub is_false : Bool → List Text → Outcome
  is_false condition message =
      if condition then fail (codes "expected false, got true") message else passes

  unfoldable pub is_true : Bool → List Text → Outcome
  is_true condition message =
      if not condition then fail (codes "expected true, got false") message else passes

-- An ordered type: `<` and `<=`, which both fail on a value that is not a number.
pub record Ordered {ℓ} (A : Type ℓ) : Type ℓ where
  pub lt : A → A → Bool
  pub le : A → A → Bool
  pub show : A → Text

-- "expected 'a' … 'b'"
abbrev pub expected : Text → Text → Text → Text
expected a how b =
    codes "expected '" ++ (a ++ (codes "' " ++ (how ++ (codes " '" ++ (b ++ codes "'")))))

module _ {ℓ} {A : Type ℓ} (frames : List Frame) (ord : Ordered A) where
  unfoldable pub greater : A → A → List Text → Outcome
  greater actual minimum message =
      if not (ord.lt minimum actual)
      then fail frames (expected (ord.show actual) (codes "to be greater than") (ord.show minimum))
          message
      else passes

  unfoldable pub greater_or_equal : A → A → List Text → Outcome
  greater_or_equal actual minimum message =
      if not (ord.le minimum actual)
      then fail frames
          (expected (ord.show actual) (codes "to be greater than or equal to") (ord.show minimum))
          message
      else passes

  unfoldable pub less : A → A → List Text → Outcome
  less actual maximum message =
      if not (ord.lt actual maximum)
      then fail frames (expected (ord.show actual) (codes "to be less than") (ord.show maximum))
          message
      else passes

  unfoldable pub less_or_equal : A → A → List Text → Outcome
  less_or_equal actual maximum message =
      if not (ord.le actual maximum)
      then fail frames
          (expected (ord.show actual) (codes "to be less than or equal to") (ord.show maximum))
          message
      else passes

-- `matches` is `errors.Is`, with the error to look in first, and `show` is %v.
module _ {ℓ} {E : Type ℓ} (frames : List Frame) (matches : E → E → Bool)
    (show : Option E → Text) where
  abbrev one_nil : Option E → Option E → List Text → Outcome
  one_nil e a message =
      fail frames
        (codes "one error is nil: expected '"
          ++ (show e ++ (codes "', got '" ++ (show a ++ codes "'"))))
        message

  unfoldable pub error : Option E → Option E → List Text → Outcome
  error none none message = passes
  error none (some a) message = one_nil none (some a) message
  error (some e) none message = one_nil (some e) none message
  error (some e) (some a) message =
      if not (matches a e)
      then fail frames
          (codes "expected error '"
            ++ (show (some e) ++ (codes "', got '" ++ (show (some a) ++ codes "'"))))
          message
      else passes

  unfoldable pub no_error : Option E → List Text → Outcome
  no_error none message = passes
  no_error (some e) message =
      fail frames (codes "unexpected error: '" ++ (show (some e) ++ codes "'")) message
