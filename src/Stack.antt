-- ===== src/Stack.antt =====
-- stack.go: a growing LIFO stack. As in Buffer, a method is one function on the state, `none` is a
-- run-time panic, and `pop` is one pass through the loop of `Pop`.
pub mod Spec
pub mod Slots
pub mod Refine
pub mod Wakeup
mod Tests
use gx.Base.{
  ℕ, ◌+◌, ◌-◌, ◌*◌, Bool, true, false, ◌&&◌, not, Option, none, some, List, [], ◌∷◌, length,
  get_elem?, replicate, copy, ltb, ◌==◌, if◌then◌else◌, ◌>>=◌, sub?, set?,
}
use gx.Base.Int.{ℤ, pos, pos_part, leb_ℤ}
use gx.Sync.{Cond, new_cond, signal, broadcast, wait, resume}
use Spec.{
  Op, push_op, try_pop_op, pop_op, len_op, close_op, Reply, done, sleeps, pushed, value, size,
}

pub record Stack {ℓ} (A : Type ℓ) : Type ℓ where
  pub closed : Bool
  pub cond : Cond
  pub items : List A
  pub len : ℕ

module _ {ℓ} {A : Type ℓ} where
  pub close : Stack A → Stack A
  close s = if s.closed then s else record s { closed = true; cond = broadcast s.cond }

module _ {ℓ} {A : Type ℓ} (zero_value : A) where
  pub new_stack : ℤ → Stack A
  new_stack initial_capacity = record {
    closed = false;
    cond = new_cond;
    items =
        replicate (if leb_ℤ initial_capacity (pos 0) then 1 else pos_part initial_capacity)
          zero_value;
    len = 0;
  }

  pub grow_locked : Stack A → Stack A
  grow_locked s =
      if ltb s.len (length s.items)
      then s
      else record s { items = copy (replicate (length s.items * 2) zero_value) s.items }

  pub pop_locked : Stack A → Option (A × Stack A)
  pop_locked s = do
    len ← sub? s.len 1
    taken ← get_elem? s.items len
    items ← set? s.items len zero_value
    some (taken, record s { items = items; len = len })

  pub push : Stack A → A → Option (Bool × Stack A)
  push s x = if s.closed then some (false, s) else (do
    let g = grow_locked s
    items ← set? g.items g.len x
    some (true, record g { items = items; len = g.len + 1; cond = signal g.cond }))

  pub try_pop : Stack A → Option ((A × Bool) × Stack A)
  try_pop s =
      if s.len == 0
      then some ((zero_value, false), s)
      else (do (taken, s') ← pop_locked s; some ((taken, true), s'))

  -- `none` inside is a goroutine that went to sleep.
  pub pop : Stack A → Option (Option (A × Bool) × Stack A)
  pop s =
      if s.len == 0 && not s.closed
      then some (none, record s { cond = wait s.cond })
      else if s.len == 0
      then some (some (zero_value, false), s)
      else (do (taken, s') ← pop_locked s; some (some (taken, true), s'))

  -- A goroutine that was woken in `Pop` goes on at the head of the loop.
  pub resumed : Stack A → Option (Option (A × Bool) × Stack A)
  unfolding pop
  resumed s = pop (record s { cond = resume s.cond })

  abbrev as_reply : Option (A × Bool) → Reply A
  as_reply none = sleeps
  as_reply (some (a, found)) = value a found

  -- One call of a client.
  pub call : Stack A → Op A → Option (Reply A × Stack A)
  call s (push_op x) = do (ok, s') ← push s x; some (pushed ok, s')
  call s try_pop_op = do (r, s') ← try_pop s; some (value r.0 r.1, s')
  call s pop_op = do (r, s') ← pop s; some (as_reply r, s')
  call s len_op = some (size s.len, s)
  call s close_op = some (done, close s)

  pub run : Stack A → List (Op A) → Option (List (Reply A) × Stack A)
  run s [] = some ([], s)
  run s (o ∷ os) = do (r, s') ← call s o; (rs, s'') ← run s' os; some (r ∷ rs, s'')
