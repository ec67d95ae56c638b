-- ===== src/Set.antt =====
-- set.go: a set under a lock, as the keys of a map. A method is one function on the state; `iterate`
-- is the order in which `range` meets the entries, which Go leaves open.
pub mod Refine
pub mod Spec
pub mod Sequence
mod Tests
use gx.Base.{ℕ, Bool, true, false, List, [], ◌∷◌, ◌++◌, length, if◌then◌else◌}
use gx.Dict.{Eq, Dict, lookup, insert, erase, found}

pub record Set {ℓ} (T : Type ℓ) : Type ℓ where
  pub m : Dict T (Unit {0})

module _ {ℓ} {T : Type ℓ} where
  pub clear : Set T → Set T
  clear s = record { m = [] }

  pub clone : Set T → Set T
  clone s = record { m = s.m }

  pub len : Set T → ℕ
  len s = length s.m

  append_values : List T → List (T × Unit {0}) → List T
  append_values values [] = values
  append_values values ((v, u) ∷ rest) = append_values (values ++ v ∷ []) rest

  pub values : (List (T × Unit {0}) → List (T × Unit {0})) → Set T → List T
  unfolding append_values
  values iterate s = append_values [] (iterate s.m)

module _ {ℓ} {T : Type ℓ} ⦃e : Eq T⦄ where
  insert_all : Dict T (Unit {0}) → List T → Dict T (Unit {0})
  insert_all m [] = m
  insert_all m (v ∷ vs) = insert_all (insert v tt m) vs

  pub new_set : List T → Set T
  unfolding insert_all
  new_set vs = record { m = insert_all [] vs }

  pub add : Set T → T → Bool × Set T
  add s v = if found (lookup v s.m) then (false, s) else (true, record { m = insert v tt s.m })

  pub has : Set T → T → Bool
  has s v = found (lookup v s.m)

  pub remove : Set T → T → Bool × Set T
  remove s v = if found (lookup v s.m) then (true, record { m = erase v s.m }) else (false, s)
