-- ===== src/Buffer/Spec.antt =====
-- What a Buffer promises: a queue of values, oldest first, that can be closed.
use gx.Base.{ℕ, Bool, true, false, List, [], ◌∷◌, ◌++◌, length, if◌then◌else◌, not}

pub record Fifo {ℓ} (A : Type ℓ) : Type ℓ where
  pub closed : Bool
  pub values : List A

-- The calls of a client, and what each of them returns.
pub data Op {ℓ} (A : Type ℓ) : Type ℓ where
  push_op : A → Op A
  try_next_op next_op len_op close_op : Op A

-- `sleeps` is the reply of a `Next` that blocks.
pub data Reply {ℓ} (A : Type ℓ) : Type ℓ where
  done sleeps : Reply A
  pushed : Bool → Reply A
  value : A → Bool → Reply A
  size : ℕ → Reply A

module _ {ℓ} {A : Type ℓ} (zero_value : A) where
  abbrev pub take_first : (Reply A) → Bool → List A → Reply A × Fifo A
  take_first empty closed [] = (empty, record { closed = closed; values = [] })
  take_first empty closed (x ∷ xs) = (value x true, record { closed = closed; values = xs })

  unfoldable pub step : Fifo A → Op A → Reply A × Fifo A
  step q (push_op x) =
      (pushed (not q.closed), if q.closed then q else record q { values = q.values ++ x ∷ [] })
  step q try_next_op = take_first (value zero_value false) q.closed q.values
  step q next_op =
      take_first (if q.closed then value zero_value false else sleeps) q.closed q.values
  step q len_op = (size (length q.values), q)
  step q close_op = (done, record q { closed = true })

  unfoldable pub run : Fifo A → List (Op A) → List (Reply A) × Fifo A
  run q [] = ([], q)
  run q (o ∷ os) = let (r, q') = step q o in let (rs, q'') = run q' os in (r ∷ rs, q'')
