-- ===== src/Set/Tests.antt =====
-- Runs of a Set of numbers.
use gx.Base.{
  true, false, ℕ, ◌+◌, ◌-◌, ◌≡◌, refl, not, ◌&&◌, ◌||◌, ◌==◌, List, [], ◌∷◌, if◌then◌else◌,
}
use gx.Dict.{nat_eq, lookup, insert, erase}
use gx.Dict.Laws.{Distinct}
use gx.Set.{Set, new_set, add, has, remove, clear, len, insert_all}
use gx.Set.Refine.{member, new_set_lem, change_lem}
use gx.Set.Spec
use gx.Set.Spec.{
  Op, add_op, has_op, remove_op, clear_op, len_op, Reply, done, flag, number, empty_set, with_all,
}
use gx.Set.Sequence.{call, run, view, new_set-run}

abbrev primes : Set ℕ
primes = record { m = (2, tt) ∷ (3, tt) ∷ (5, tt) ∷ [] }

abbrev primes-Distinct : Distinct primes.m
unfolding lookup
primes-Distinct = (refl, (refl, (refl, tt)))

abbrev added : List ℕ
added = 2 ∷ 3 ∷ 2 ∷ []

added_values : (has (new_set added) 3 ≡ member 3 added) × Distinct (new_set added).m
added_values = new_set_lem added 3

change_of_primes :
    (((add primes 7).0 ≡ not (has primes 7))
      × (has (add primes 7).1 3 ≡ ((7 == 3) || has primes 3))
      × (len (add primes 7).1 ≡ (if (add primes 7).0 then len primes + 1 else len primes))
      × Distinct (add primes 7).1.m)
    × (((remove primes 7).0 ≡ has primes 7)
        × (has (remove primes 7).1 3 ≡ (not (7 == 3) && has primes 3))
        × (len (remove primes 7).1 ≡ (if (remove primes 7).0 then len primes - 1 else len primes))
        × Distinct (remove primes 7).1.m)
change_of_primes = change_lem primes 7 3 primes-Distinct

abbrev calls : List (Op ℕ)
calls = add_op 5 ∷ add_op 3 ∷ len_op ∷ remove_op 2 ∷ has_op 2 ∷ len_op ∷ clear_op ∷ has_op 5 ∷ []

replies_of_calls :
    (run (new_set added) calls).0
    ≡ flag true ∷ flag false ∷ number 3 ∷ flag true ∷ flag false ∷ number 2 ∷ done ∷ flag false ∷ []
unfolding run call new_set insert_all add has remove clear len lookup insert erase
replies_of_calls = refl

new_set-run_example :
    ((run (new_set added) calls).0 ≡ (Spec.run (with_all empty_set added) calls).0)
    × (view (run (new_set added) calls).1 ≡ (Spec.run (with_all empty_set added) calls).1)
    × Distinct (run (new_set added) calls).1.m
new_set-run_example = new_set-run added calls
