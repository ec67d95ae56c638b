-- ===== src/Stack/Spec.antt =====
-- What a Stack promises: its values, the newest first, until they are drained.
use gx.Base.{ℕ, Bool, true, false, List, [], ◌∷◌, length, if◌then◌else◌, not}

pub record Lifo {ℓ} (A : Type ℓ) : Type ℓ where
  pub closed : Bool
  pub values : List A

-- The calls of a client, and what each of them returns.
pub data Op {ℓ} (A : Type ℓ) : Type ℓ where
  push_op : A → Op A
  try_pop_op pop_op len_op close_op : Op A

-- `sleeps` is the reply of a `Pop` that blocks.
pub data Reply {ℓ} (A : Type ℓ) : Type ℓ where
  done sleeps : Reply A
  pushed : Bool → Reply A
  value : A → Bool → Reply A
  size : ℕ → Reply A

module _ {ℓ} {A : Type ℓ} (zero_value : A) where
  abbrev pub take_top : Reply A → Bool → List A → Reply A × Lifo A
  take_top empty closed [] = (empty, record { closed = closed; values = [] })
  take_top empty closed (x ∷ xs) = (value x true, record { closed = closed; values = xs })

  unfoldable pub step : Lifo A → Op A → Reply A × Lifo A
  step q (push_op x) =
      (pushed (not q.closed), if q.closed then q else record q { values = x ∷ q.values })
  step q try_pop_op = take_top (value zero_value false) q.closed q.values
  step q pop_op = take_top (if q.closed then value zero_value false else sleeps) q.closed q.values
  step q len_op = (size (length q.values), q)
  step q close_op = (done, record q { closed = true })

  unfoldable pub run : Lifo A → List (Op A) → List (Reply A) × Lifo A
  run q [] = ([], q)
  run q (o ∷ os) = let (r, q') = step q o in let (rs, q'') = run q' os in (r ∷ rs, q'')
