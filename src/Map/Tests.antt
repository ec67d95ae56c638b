-- ===== src/Map/Tests.antt =====
-- Runs of a Map from numbers to numbers.
use mathlib.Core.List.{Mem, Nodup, Perm}
use mathlib.Core.List.Perm
use gx.Base.{ℕ, ◌≡◌, ◌↔◌, refl, true, false, none, List, [], ◌∷◌, map}
use gx.Dict.{nat_eq, lookup, insert, erase}
use gx.Dict.Laws.{Distinct}
use gx.Map.{
  Map, new_map, run, call, get, get_and_remove, has, remove, set, get_or_set, clear, keys, values,
}
use gx.Map.Spec
use gx.Map.Spec.{
  set_op, get_op, get_or_set_op, get_and_remove_op, remove_op, Reply, done, flag, value, Op,
}
use gx.Map.Refine.{view, new_map-run}
use gx.Map.Keys.{keys_lem}

abbrev calls : List (Op ℕ ℕ)
calls =
    set_op 1 10
    ∷ set_op 2 20
    ∷ set_op 1 11
    ∷ get_op 1
    ∷ get_or_set_op 2 7
    ∷ get_and_remove_op 1
    ∷ remove_op 1
    ∷ get_op 1
    ∷ []

replies_of_calls :
    (run 0 new_map calls).0
    ≡ flag true
      ∷ flag true
      ∷ flag false
      ∷ value 11 true
      ∷ value 20 true
      ∷ value 11 true
      ∷ flag false
      ∷ value 0 false
      ∷ []
unfolding run call get get_and_remove has remove set get_or_set clear lookup insert erase
replies_of_calls = refl

new_map-run_example :
    ((run 0 new_map calls).0 ≡ (Spec.run 0 (λ j. none) calls).0)
    × (view (run 0 new_map calls).1 ≡ (Spec.run 0 (λ j. none) calls).1)
    × Distinct (run 0 new_map calls).1.m
new_map-run_example = new_map-run 0 calls

abbrev two_entries : Map ℕ ℕ
two_entries = record { m = (1, 10) ∷ (2, 20) ∷ [] }

abbrev swapped : List (ℕ × ℕ) → List (ℕ × ℕ)
swapped (a ∷ b ∷ rest) = b ∷ a ∷ rest
swapped l = l

lists_both :
    Nodup (keys swapped two_entries)
    × (Mem 2 (keys swapped two_entries) ↔ (has two_entries 2 ≡ true))
    × Perm (values swapped two_entries) (map (λ b. b.1) two_entries.m)
unfolding lookup
lists_both = keys_lem swapped two_entries 2 (Perm.swap (1, 10) (2, 20) []) (refl, (refl, tt))
