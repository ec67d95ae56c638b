-- ===== src/Map/Spec.antt =====
-- What a Map promises: a partial function from keys to values.
use gx.Base.{Bool, true, false, not, Option, none, some, List, [], ◌∷◌, if◌then◌else◌}
use gx.Dict.{Eq, ◌=?◌, found}

pub data Op {ℓ κ} (K : Type ℓ) (V : Type κ) : Type (ℓ ⊔ κ) where
  get_op get_and_remove_op has_op remove_op : K → Op K V
  get_or_set_op set_op : K → V → Op K V
  clear_op : Op K V

pub data Reply {κ} (V : Type κ) : Type κ where
  done : Reply V
  flag : Bool → Reply V
  value : V → Bool → Reply V

-- A missing key reads as the zero value.
abbrev pub answer {κ} : {V : Type κ} → V → Option V → Reply V
answer zero_value none = value zero_value false
answer zero_value (some v) = value v true

-- What `GetOrSet` leaves under the key, and what it returns.
abbrev pub or_else {κ} : {V : Type κ} → Option V → V → V
or_else none v = v
or_else (some w) v = w

abbrev pub update {ℓ κ} :
    {K : Type ℓ} {V : Type κ} ⦃e : Eq K⦄ → (K → Option V) → K → Option V → K → Option V
update f k o j = if k =? j then o else f j

module _ {ℓ κ} {K : Type ℓ} {V : Type κ} ⦃e : Eq K⦄ (zero_value : V) where
  unfoldable pub step : (K → Option V) → Op K V → Reply V × (K → Option V)
  step f (get_op k) = (answer zero_value (f k), f)
  step f (get_and_remove_op k) = (answer zero_value (f k), update f k none)
  step f (has_op k) = (flag (found (f k)), f)
  step f (remove_op k) = (flag (found (f k)), update f k none)
  step f (get_or_set_op k v) =
      (value (or_else (f k) v) (found (f k)), update f k (some (or_else (f k) v)))
  step f (set_op k v) = (flag (not (found (f k))), update f k (some v))
  step f clear_op = (done, λ j. none)

  unfoldable pub run : (K → Option V) → List (Op K V) → List (Reply V) × (K → Option V)
  run f [] = ([], f)
  run f (o ∷ os) = let (r, f') = step f o in let (rs, f'') = run f' os in (r ∷ rs, f'')
