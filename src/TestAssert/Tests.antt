-- ===== src/TestAssert/Tests.antt =====
-- Assertions of tests about numbers.
use gx.Base.{
  ℕ, ◌≡◌, refl, Bool, true, false, Option, none, some, List, [], ◌∷◌, ◌++◌, ◌==◌, ltb, leb,
}
use gx.Base.Int.{pos}
use gx.Base.Text.{Text, codes}
use gx.Assert
use gx.Assert.{Kind, map, slice, any_other, Reflect, Frame, Ordered}
use gx.TestAssert.{
  passes, fatal, panics, trace, fail, empty, not_empty, is_true, is_false, greater,
  greater_or_equal, less, less_or_equal, error_is, no_error,
}
use gx.TestAssert.Values.{Contents, equal, not_equal, length, nil, not_nil, has_type, contains}
use gx.TestAssert.Same.{Identity, same}
use gx.TestAssert.Agree.{Agree, same_verdicts}

abbrev same_number : Option ℕ → Option ℕ → Bool
same_number none none = true
same_number (some a) (some b) = a == b
same_number none (some b) = false
same_number (some a) none = false

-- 7 is a slice of the numbers 1 and 2, at its own place.
abbrev kind_of : ℕ → Kind
kind_of n = elim (n == 7) [ true ↦ slice | false ↦ any_other ]

abbrev numbers : Reflect ℕ
numbers = record {
  deep_equal = same_number;
  kind = kind_of;
  elem_kind = λ v. any_other;
  is_nil = λ v. false;
  pointer_value = λ v. v;
  len = λ v. pos 2;
  type_of = λ v. some 0;
  type_text = λ t. codes "int";
  show = λ v. codes "n";
  show_go = λ v. codes "n";
  show_type = λ v. codes "int";
  decimal = λ z. codes "n";
}

abbrev contents : Contents ℕ
contents = record {
  text = λ v. [];
  as_string = λ v. none;
  show_string = λ v. [];
  elements = λ v. some 1 ∷ some 2 ∷ [];
  keys = λ v. [];
}

abbrev places : Identity ℕ
places = record { elem_size = λ v. 8; cap = λ v. pos 2; hex = λ n. codes "0x" }

abbrev ordered : Ordered ℕ
ordered = record { lt = ltb; le = leb; show = λ n. codes "n" }

abbrev same_error : ℕ → ℕ → Bool
same_error a b = a == b

abbrev shows : Option ℕ → Text
shows e = codes "e"

abbrev frames : List Frame
frames =
    record { name = codes "gx/test.fail"; place = codes "assert.go:21" }
    ∷ record { name = codes "gx.TestBus"; place = codes "bus_test.go:7" }
    ∷ record { name = codes "testing.tRunner"; place = codes "testing.go:1" }
    ∷ []

-- The trace names the test alone, by its place and its name.
fails_with :
    is_true frames false (codes "here" ∷ [])
    ≡ fatal (
        codes "assertion failed: expected true, got false: here"
        ++ (10
            ∷ 10
            ∷ (codes "stack trace:" ++ (10 ∷ (codes "bus_test.go:7 - gx.TestBus" ++ (10 ∷ []))))))
unfolding is_true fail trace Assert.contains
fails_with = refl

contains_two :
    (contains frames numbers contents (some 7) (some 2) [] ≡ passes)
    × (contains frames numbers contents (some 5) (some 2) (codes "a" ∷ codes "b" ∷ [])
        ≡ panics (codes "assertion accepts at most one message"))
unfolding contains fail
contains_two = (refl, refl)

same_slice :
    (same frames numbers places (some 7) (some 7) [] ≡ passes)
    × (same frames numbers places none none [] ≡ passes)
unfolding same
same_slice = (refl, refl)

same_verdicts_example :
    Agree frames (Assert.empty frames (codes "x") []) (empty frames (codes "x") [])
    × Agree frames (Assert.not_empty frames (codes "x") []) (not_empty frames (codes "x") [])
    × Agree frames (Assert.is_true frames true []) (is_true frames true [])
    × Agree frames (Assert.is_false frames true []) (is_false frames true [])
    × Agree frames (Assert.greater frames ordered 3 4 []) (greater frames ordered 3 4 [])
    × Agree frames
        (Assert.greater_or_equal frames ordered 3 4 [])
        (greater_or_equal frames ordered 3 4 [])
    × Agree frames (Assert.less frames ordered 3 4 []) (less frames ordered 3 4 [])
    × Agree frames
        (Assert.less_or_equal frames ordered 3 4 [])
        (less_or_equal frames ordered 3 4 [])
    × Agree frames
        (Assert.error frames same_error shows (some 1) (some 2) [])
        (error_is frames same_error shows (some 2) (some 1) [])
    × Agree frames
        (Assert.no_error frames same_error shows (some 2) [])
        (no_error frames same_error shows (some 2) [])
    × Agree frames
        (Assert.Values.equal frames numbers (some 7) (some 8) [])
        (equal frames numbers (some 7) (some 8) [])
    × Agree frames
        (Assert.Values.not_equal frames numbers (some 7) (some 8) [])
        (not_equal frames numbers (some 7) (some 8) [])
    × Agree frames
        (Assert.Values.length frames numbers (pos 3) (some 7) [])
        (length frames numbers (pos 3) (some 7) [])
    × Agree frames (Assert.Values.nil frames numbers (some 7) []) (nil frames numbers (some 7) [])
    × Agree frames
        (Assert.Values.not_nil frames numbers (some 7) [])
        (not_nil frames numbers (some 7) [])
    × Agree frames
        (Assert.Values.has_type frames numbers (some 7) (some 8) [])
        (has_type frames numbers (some 7) (some 8) [])
same_verdicts_example =
    same_verdicts frames numbers ordered same_error shows (codes "x") true 3 4 (some 2) (some 1)
      (pos 3) (some 7) (some 8) []
