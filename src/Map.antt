-- ===== src/Map.antt =====
-- map.go: a map under a lock. A method takes the lock for its whole body, so it is one function on
-- the state. `iterate` is the order in which `range` meets the entries, which Go leaves open.
pub mod Spec
pub mod Refine
pub mod Keys
mod Tests
use gx.Base.{
  ℕ, Bool, true, false, not, Option, none, some, List, [], ◌∷◌, ◌++◌, map, length, if◌then◌else◌,
}
use gx.Dict.{Eq, Dict, lookup, insert, erase, found}
use Spec.{
  Op, get_op, get_and_remove_op, has_op, remove_op, get_or_set_op, set_op, clear_op, Reply, done,
  flag, value,
}

pub record Map {ℓ κ} (K : Type ℓ) (V : Type κ) : Type (ℓ ⊔ κ) where
  pub m : Dict K V

module _ {ℓ κ} {K : Type ℓ} {V : Type κ} where
  abbrev pub new_map : Map K V
  new_map = record { m = [] }

  pub clear : Map K V → Map K V
  clear s = record { m = [] }

  pub clone : Map K V → Map K V
  clone s = record { m = s.m }

  pub len : Map K V → ℕ
  len s = length s.m

  append_keys : List K → List (K × V) → List K
  append_keys keys [] = keys
  append_keys keys ((k, v) ∷ rest) = append_keys (keys ++ k ∷ []) rest

  append_values : List V → List (K × V) → List V
  append_values values [] = values
  append_values values ((k, v) ∷ rest) = append_values (values ++ v ∷ []) rest

  pub keys : (List (K × V) → List (K × V)) → Map K V → List K
  unfolding append_keys
  keys iterate s = append_keys [] (iterate s.m)

  pub values : (List (K × V) → List (K × V)) → Map K V → List V
  unfolding append_values
  values iterate s = append_values [] (iterate s.m)

module _ {ℓ κ} {K : Type ℓ} {V : Type κ} ⦃e : Eq K⦄ where
  pub has : Map K V → K → Bool
  has s key = found (lookup key s.m)

  pub remove : Map K V → K → Bool × Map K V
  remove s key = if found (lookup key s.m) then (true, record { m = erase key s.m }) else (false, s)

  pub set : Map K V → K → V → Bool × Map K V
  set s key v = (not (found (lookup key s.m)), record { m = insert key v s.m })

  pub get_or_set : Map K V → K → V → (V × Bool) × Map K V
  get_or_set s key v = elim (lookup key s.m) [
    | some w ↦ ((w, true), s)
    | none ↦ ((v, false), record { m = insert key v s.m })
  ]

module _ {ℓ κ} {K : Type ℓ} {V : Type κ} ⦃e : Eq K⦄ (zero_value : V) where
  pub get : Map K V → K → V × Bool
  get s key = elim (lookup key s.m) [ none ↦ (zero_value, false) | some v ↦ (v, true) ]

  pub get_and_remove : Map K V → K → (V × Bool) × Map K V
  get_and_remove s key = elim (lookup key s.m) [
    | none ↦ ((zero_value, false), s)
    | some v ↦ ((v, true), record { m = erase key s.m })
  ]

  -- One call of a client.
  pub call : Map K V → Op K V → Reply V × Map K V
  call s (get_op k) = (value (get s k).0 (get s k).1, s)
  call s (get_and_remove_op k) = let (r, s') = get_and_remove s k in (value r.0 r.1, s')
  call s (has_op k) = (flag (has s k), s)
  call s (remove_op k) = let (r, s') = remove s k in (flag r, s')
  call s (get_or_set_op k v) = let (r, s') = get_or_set s k v in (value r.0 r.1, s')
  call s (set_op k v) = let (r, s') = set s k v in (flag r, s')
  call s clear_op = (done, clear s)

  pub run : Map K V → List (Op K V) → List (Reply V) × Map K V
  run s [] = ([], s)
  run s (o ∷ os) = let (r, s') = call s o in let (rs, s'') = run s' os in (r ∷ rs, s'')
