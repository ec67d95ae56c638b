-- ===== src/TestAssert/Same.antt =====
-- test/assert.go: Same, which tells objects apart by where they are.
use gx.Base.{
  ℕ, Bool, false, not, ◌&&◌, ◌||◌, Option, none, some, List, [], ◌∷◌, ◌==◌, if◌then◌else◌,
}
use gx.Base.Int.{ℤ, pos, leb_ℤ}
use gx.Base.Text.{Text, codes}
use gx.Assert.{Kind, chan, func, map, pointer, slice, Reflect, Frame, same_type}
use gx.TestAssert.{Outcome, passes, texts, fail, fail_if}

-- `elem_size` is the size of the type of the elements, `hex` the verb %#x.
pub record Identity {ℓ} (Any : Type ℓ) : Type ℓ where
  pub elem_size : Any → ℕ
  pub cap : Any → ℤ
  pub hex : ℕ → Text

abbrev pub same_int : ℤ → ℤ → Bool
same_int a b = leb_ℤ a b && leb_ℤ b a

module _ {ℓ} {Any : Type ℓ} (frames : List Frame) (lib : Reflect Any) (ids : Identity Any) where
  abbrev pub both_nil : Kind → Any → Any → Bool
  both_nil pointer e a = lib.is_nil e && lib.is_nil a
  both_nil map e a = lib.is_nil e && lib.is_nil a
  both_nil slice e a = lib.is_nil e && lib.is_nil a
  both_nil func e a = lib.is_nil e && lib.is_nil a
  both_nil chan e a = lib.is_nil e && lib.is_nil a
  both_nil _ e a = false

  abbrev pub same_pointer : Any → Any → List Text → Outcome
  same_pointer e a message =
      fail_if frames (not (lib.pointer_value e == lib.pointer_value a))
        (texts (
          codes "expected same object, got '"
          ∷ ids.hex (lib.pointer_value e)
          ∷ codes "' and '"
          ∷ ids.hex (lib.pointer_value a)
          ∷ codes "'"
          ∷ []))
        message

  abbrev pub other_view : Any → Any → Bool
  other_view e a =
      not (lib.pointer_value e == lib.pointer_value a)
      || not (same_int (lib.len e) (lib.len a))
      || not (same_int (ids.cap e) (ids.cap a))

  -- The second `switch`.
  abbrev pub same_of : Kind → Any → Any → List Text → Outcome
  same_of pointer e a message =
      if ids.elem_size e == 0
      then fail frames (codes "Same cannot determine identity for zero-size values") message
      else same_pointer e a message
  same_of slice e a message =
      if same_int (lib.len e) (pos 0) || (ids.elem_size e == 0)
      then fail frames (codes "Same cannot determine identity for zero-length or zero-size slices")
          message
      else fail_if frames (other_view e a) (codes "expected same slice view") message
  same_of map e a message = same_pointer e a message
  same_of func e a message = same_pointer e a message
  same_of chan e a message = same_pointer e a message
  same_of _ e a message =
      fail frames
        (texts (
          codes "Same only supports pointer-like types, got '"
          ∷ lib.show_type (some e)
          ∷ codes "'"
          ∷ []))
        message

  abbrev pub nil_beside : Option Any → Option Any → List Text → Outcome
  nil_beside e a message =
      fail frames
        (texts (
          codes "expected same object, got expected '"
          ∷ lib.show e
          ∷ codes "', got '"
          ∷ lib.show a
          ∷ codes "'"
          ∷ []))
        message

  unfoldable pub same : Option Any → Option Any → List Text → Outcome
  same none none message = passes
  same none (some a) message = nil_beside none (some a) message
  same (some e) none message = nil_beside (some e) none message
  same (some e) (some a) message =
      if not (same_type (lib.type_of (some e)) (lib.type_of (some a)))
      then fail frames
          (texts (
            codes "expected same type '"
            ∷ lib.type_text (lib.type_of (some e))
            ∷ codes "', got '"
            ∷ lib.type_text (lib.type_of (some a))
            ∷ codes "'"
            ∷ []))
          message
      else if both_nil (lib.kind e) e a
      then passes
      else same_of (lib.kind e) e a message
