-- ===== src/Assert/Tests.antt =====
-- Assertions about numbers.
use gx.Base.{
  ℕ, ◌≡◌, refl, Bool, true, false, not, Option, none, some, List, [], ◌∷◌, ◌++◌, ◌==◌, arith, ltb,
  leb,
}
use gx.Base.Int.{pos}
use gx.Base.Text.{codes}
use gx.Assert.{
  Reflect, Frame, panics, Ordered, any_other, contains, trace, fail, empty, not_empty, is_false,
  is_true, greater, greater_or_equal, less, less_or_equal,
}
use gx.Assert.Values.{equal, not_equal, nil, not_nil}
use gx.Assert.Pairs.{passed, one_passes}

abbrev same : Option ℕ → Option ℕ → Bool
same none none = true
same (some a) (some b) = a == b
same none (some b) = false
same (some a) none = false

abbrev numbers : Reflect ℕ
numbers = record {
  deep_equal = same;
  kind = λ v. any_other;
  elem_kind = λ v. any_other;
  is_nil = λ v. false;
  pointer_value = λ v. v;
  len = λ v. pos v;
  type_of = λ v. some 0;
  type_text = λ t. codes "int";
  show = λ v. codes "n";
  show_go = λ v. codes "n";
  show_type = λ v. codes "int";
  decimal = λ z. codes "n";
}

abbrev ordered : Ordered ℕ
ordered = record { lt = ltb; le = leb; show = λ n. codes "n" }

abbrev frames : List Frame
frames =
    record { name = codes "gx/assert.fail"; place = codes "assert.go:12" }
    ∷ record { name = codes "main.main"; place = codes "main.go:7" }
    ∷ record { name = codes "runtime.main"; place = codes "proc.go:1" }
    ∷ []

-- The trace names the caller alone.
fails_with :
    is_true frames false (codes "here" ∷ [])
    ≡ panics (
        codes "assertion failed: expected true, got false: here"
        ++ (10 ∷ 10 ∷ (codes "stack trace:" ++ (10 ∷ (codes "at main.go:7" ++ (10 ∷ []))))))
unfolding is_true fail trace contains
fails_with = refl

total : (x y : ℕ) → leb x y ≡ not (ltb y x)
total x y = ground arith

numbers_pass_once :
    (passed (not_equal frames numbers (some 3) (some 4) [])
      ≡ not (passed (equal frames numbers (some 3) (some 4) [])))
    × (passed (not_nil frames numbers (some 4) []) ≡ not (passed (nil frames numbers (some 4) [])))
    × (passed (not_empty frames (codes "x") []) ≡ not (passed (empty frames (codes "x") [])))
    × (passed (is_false frames true []) ≡ not (passed (is_true frames true [])))
    × (passed (less_or_equal frames ordered 3 4 []) ≡ not (passed (greater frames ordered 3 4 [])))
    × (passed (greater_or_equal frames ordered 3 4 []) ≡ not (passed (less frames ordered 3 4 [])))
numbers_pass_once =
    one_passes frames numbers ordered (some 3) (some 4) (codes "x") true 3 4 [] [] total
