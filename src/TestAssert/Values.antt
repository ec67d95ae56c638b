-- ===== src/TestAssert/Values.antt =====
-- test/assert.go: the assertions that look into values.
use gx.Base.{
  Bool, true, false, not, ◌&&◌, ◌||◌, Option, none, some, List, [], ◌∷◌, ◌==◌, if◌then◌else◌,
}
use gx.Base.Int.{ℤ, leb_ℤ}
use gx.Base.Text.{Text, codes}
use gx.Assert
use gx.Assert.{
  Kind, array, chan, func, map, pointer, slice, string, unsafe_pointer, any_other, Reflect, Frame,
  same_text, same_type,
}
use gx.TestAssert.{Outcome, passes, texts, fail, fail_if}

-- `text` is the string of a value of that kind, `as_string` the string of a value of type string,
-- `show_string` the verb %s; `elements` and `keys` are those of a slice or an array and of a map.
pub record Contents {ℓ} (Any : Type ℓ) : Type ℓ where
  pub text : Any → Text
  pub as_string : Option Any → Option Text
  pub show_string : Any → Text
  pub elements : Any → List (Option Any)
  pub keys : Any → List (Option Any)

module _ {ℓ} {Any : Type ℓ} (frames : List Frame) (lib : Reflect Any) where
  -- What `formatEqualFailure` returns for the texts that it has come to.
  abbrev pub equal_texts : Option Any → Option Any → Text → Text → Text
  equal_texts e a e_text a_text =
      if same_type (lib.type_of e) (lib.type_of a)
      then texts (codes "expected: '" ∷ e_text ∷ codes "', got: '" ∷ a_text ∷ codes "'" ∷ [])
      else texts (
          codes "expected: '"
          ∷ e_text
          ∷ codes "' ("
          ∷ lib.show_type e
          ∷ codes "), got: '"
          ∷ a_text
          ∷ codes "' ("
          ∷ lib.show_type a
          ∷ codes ")"
          ∷ [])

  unfoldable pub format_equal_failure : Option Any → Option Any → Text
  format_equal_failure e a =
      if same_text (lib.show e) (lib.show a)
      then equal_texts e a (lib.show_go e) (lib.show_go a)
      else equal_texts e a (lib.show e) (lib.show a)

  unfoldable pub equal : Option Any → Option Any → List Text → Outcome
  equal e a message = fail_if frames (not (lib.deep_equal e a)) (format_equal_failure e a) message

  unfoldable pub not_equal : Option Any → Option Any → List Text → Outcome
  not_equal e a message =
      fail_if frames (lib.deep_equal e a)
        (texts (codes "expected values to differ, but both were '" ∷ lib.show a ∷ codes "'" ∷ []))
        message

  -- The `switch` of `Len`.
  abbrev pub has_len : Kind → Kind → Bool
  has_len array elem = true
  has_len slice elem = true
  has_len map elem = true
  has_len string elem = true
  has_len chan elem = true
  has_len pointer array = true
  has_len _ _ = false

  abbrev pub no_len : Option Any → List Text → Outcome
  no_len object message =
      fail frames
        (texts (
          codes "invalid type "
          ∷ lib.show_type object
          ∷ codes " (must be array, pointer to array, slice, map, string, or channel)"
          ∷ []))
        message

  unfoldable pub length : ℤ → Option Any → List Text → Outcome
  length n none message = no_len none message
  length n (some v) message =
      if not (has_len (lib.kind v) (lib.elem_kind v))
      then no_len (some v) message
      else fail_if frames (not (leb_ℤ (lib.len v) n && leb_ℤ n (lib.len v)))
          (texts (
            codes "expected length '"
            ∷ lib.decimal n
            ∷ codes "' but got '"
            ∷ lib.decimal (lib.len v)
            ∷ codes "'"
            ∷ []))
          message

  -- The `switch` of `Nil`, where it returns.
  abbrev pub return_nil : Kind → Any → Bool
  return_nil chan v = lib.is_nil v
  return_nil func v = lib.is_nil v
  return_nil map v = lib.is_nil v
  return_nil pointer v = lib.is_nil v
  return_nil slice v = lib.is_nil v
  return_nil unsafe_pointer v = lib.pointer_value v == 0
  return_nil array v = false
  return_nil string v = false
  return_nil any_other v = false

  unfoldable pub nil : Option Any → List Text → Outcome
  nil none message = passes
  nil (some v) message =
      if return_nil (lib.kind v) v then passes else fail frames (codes "value is not nil") message

  -- The `switch` of `NotNil`.
  abbrev pub not_nil_of : Kind → Any → List Text → Outcome
  not_nil_of chan v message = fail_if frames (lib.is_nil v) (codes "value is nil") message
  not_nil_of func v message = fail_if frames (lib.is_nil v) (codes "value is nil") message
  not_nil_of map v message = fail_if frames (lib.is_nil v) (codes "value is nil") message
  not_nil_of pointer v message = fail_if frames (lib.is_nil v) (codes "value is nil") message
  not_nil_of slice v message = fail_if frames (lib.is_nil v) (codes "value is nil") message
  not_nil_of unsafe_pointer v message =
      fail_if frames (lib.pointer_value v == 0) (codes "value is nil") message
  not_nil_of array v message = passes
  not_nil_of string v message = passes
  not_nil_of any_other v message = passes

  unfoldable pub not_nil : Option Any → List Text → Outcome
  not_nil none message = fail frames (codes "value is nil") message
  not_nil (some v) message = not_nil_of (lib.kind v) v message

  unfoldable pub has_type : Option Any → Option Any → List Text → Outcome
  has_type e a message =
      fail_if frames (not (same_type (lib.type_of e) (lib.type_of a)))
        (texts (
          codes "expected type "
          ∷ lib.type_text (lib.type_of e)
          ∷ codes " but got "
          ∷ lib.type_text (lib.type_of a)
          ∷ []))
        message

  module _ (parts : Contents Any) where
    abbrev is_among : Option Any → List (Option Any) → Bool
    is_among needle [] = false
    is_among needle (v ∷ vs) = lib.deep_equal v needle || is_among needle vs

    abbrev contains_text : Any → Option Any → Option Text → List Text → Outcome
    contains_text v needle none message =
        fail frames
          (texts (codes "string haystack requires string needle, got " ∷ lib.show_type needle ∷ []))
          message
    contains_text v needle (some t) message =
        fail_if frames (not (Assert.contains (parts.text v) t))
          (texts (
            codes "expected '" ∷ parts.show_string v ∷ codes "' to contain '" ∷ t ∷ codes "'" ∷ []))
          message

    abbrev contains_element : Any → Option Any → List Text → Outcome
    contains_element v needle message =
        fail_if frames (not (is_among needle (parts.elements v)))
          (texts (
            codes "expected '"
            ∷ lib.show (some v)
            ∷ codes "' to contain '"
            ∷ lib.show needle
            ∷ codes "'"
            ∷ []))
          message

    abbrev unsupported : Option Any → List Text → Outcome
    unsupported haystack message =
        fail frames
          (texts (codes "unsupported type " ∷ lib.show_type haystack ∷ codes " in Contains" ∷ []))
          message

    abbrev contains_of : Kind → Any → Option Any → List Text → Outcome
    contains_of string v needle message = contains_text v needle (parts.as_string needle) message
    contains_of slice v needle message = contains_element v needle message
    contains_of array v needle message = contains_element v needle message
    contains_of map v needle message =
        fail_if frames (not (is_among needle (parts.keys v)))
          (texts (codes "expected map to contain key '" ∷ lib.show needle ∷ codes "'" ∷ [])) message
    contains_of _ v needle message = unsupported (some v) message

    unfoldable pub contains : Option Any → Option Any → List Text → Outcome
    contains none needle message = unsupported none message
    contains (some v) needle message = contains_of (lib.kind v) v needle message
