-- ===== src/Assert/Values.antt =====
-- assert/assert.go: the assertions that look into values.
use gx.Base.{Bool, true, false, not, ◌&&◌, Option, none, some, List, ◌++◌, ◌==◌, if◌then◌else◌}
use gx.Base.Int.{ℤ, leb_ℤ}
use gx.Base.Text.{Text, codes}
use gx.Assert.{
  Kind, array, chan, func, map, pointer, slice, string, unsafe_pointer, any_other, Reflect, Frame,
  Outcome, passes, same_text, same_type, fail,
}

module _ {ℓ} {Any : Type ℓ} (frames : List Frame) (lib : Reflect Any) where
  abbrev equal_texts : Option Any → Option Any → Text → Text → Text
  equal_texts e a e_text a_text =
      if same_type (lib.type_of e) (lib.type_of a)
      then codes "expected: '" ++ (e_text ++ (codes "', got: '" ++ (a_text ++ codes "'")))
      else codes "expected: '"
        ++ (e_text
            ++ (codes "' ("
                ++ (lib.show_type e
                    ++ (codes "), got: '"
                        ++ (a_text ++ (codes "' (" ++ (lib.show_type a ++ codes ")")))))))

  unfoldable pub format_equal_failure : Option Any → Option Any → Text
  format_equal_failure e a =
      if same_text (lib.show e) (lib.show a)
      then equal_texts e a (lib.show_go e) (lib.show_go a)
      else equal_texts e a (lib.show e) (lib.show a)

  unfoldable pub equal : Option Any → Option Any → List Text → Outcome
  equal e a message =
      if not (lib.deep_equal e a) then fail frames (format_equal_failure e a) message else passes

  unfoldable pub not_equal : Option Any → Option Any → List Text → Outcome
  not_equal e a message =
      if lib.deep_equal e a
      then fail frames
          (codes "expected values to differ, but both were '" ++ (lib.show a ++ codes "'")) message
      else passes

  -- The `switch` of `Len`.
  abbrev has_len : Kind → Kind → Bool
  has_len array elem = true
  has_len slice elem = true
  has_len map elem = true
  has_len string elem = true
  has_len chan elem = true
  has_len pointer array = true
  has_len _ _ = false

  abbrev no_len : Option Any → List Text → Outcome
  no_len object message =
      fail frames
        (codes "invalid type "
          ++ (lib.show_type object
              ++ codes " (must be array, pointer to array, slice, map, string, or channel)"))
        message

  unfoldable pub length : ℤ → Option Any → List Text → Outcome
  length n none message = no_len none message
  length n (some v) message =
      if not (has_len (lib.kind v) (lib.elem_kind v))
      then no_len (some v) message
      else if not (leb_ℤ (lib.len v) n && leb_ℤ n (lib.len v))
      then fail frames
          (codes "expected length '"
            ++ (lib.decimal n ++ (codes "' but got '" ++ (lib.decimal (lib.len v) ++ codes "'"))))
          message
      else passes

  abbrev pub return_nil : Kind → Any → Bool
  return_nil chan v = lib.is_nil v
  return_nil func v = lib.is_nil v
  return_nil map v = lib.is_nil v
  return_nil pointer v = lib.is_nil v
  return_nil slice v = lib.is_nil v
  return_nil unsafe_pointer v = lib.pointer_value v == 0
  return_nil array v = false
  return_nil string v = false
  return_nil any_other v = false

  unfoldable pub nil : Option Any → List Text → Outcome
  nil none message = passes
  nil (some v) message =
      if return_nil (lib.kind v) v then passes else fail frames (codes "value is not nil") message

  abbrev pub fail_nil : Bool → List Text → Outcome
  fail_nil is_nil message = if is_nil then fail frames (codes "value is nil") message else passes

  abbrev pub not_nil_of : Kind → Any → List Text → Outcome
  not_nil_of chan v message = fail_nil (lib.is_nil v) message
  not_nil_of func v message = fail_nil (lib.is_nil v) message
  not_nil_of map v message = fail_nil (lib.is_nil v) message
  not_nil_of pointer v message = fail_nil (lib.is_nil v) message
  not_nil_of slice v message = fail_nil (lib.is_nil v) message
  not_nil_of unsafe_pointer v message = fail_nil (lib.pointer_value v == 0) message
  not_nil_of array v message = passes
  not_nil_of string v message = passes
  not_nil_of any_other v message = passes

  unfoldable pub not_nil : Option Any → List Text → Outcome
  not_nil none message = fail frames (codes "value is nil") message
  not_nil (some v) message = not_nil_of (lib.kind v) v message

  unfoldable pub has_type : Option Any → Option Any → List Text → Outcome
  has_type e a message =
      if not (same_type (lib.type_of e) (lib.type_of a))
      then fail frames
          (codes "expected type "
            ++ (lib.type_text (lib.type_of e)
                ++ (codes " but got " ++ lib.type_text (lib.type_of a))))
          message
      else passes
