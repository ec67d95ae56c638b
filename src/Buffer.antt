-- ===== src/Buffer.antt =====
-- buffer.go: a growing FIFO over a ring of slots. A method takes the lock for its whole body, so it
-- is one function on the state; `none` is a run-time panic. `next` is one pass through the loop of
-- `Next`: it returns, or the goroutine sleeps and passes through it again after `resumed`.
pub mod Spec
pub mod Ring
pub mod Refine
pub mod Take
pub mod Fifo
pub mod Wakeup
mod Tests
use gx.Base.{
  ℕ, ◌+◌, ◌-◌, ◌*◌, Bool, true, false, ◌&&◌, not, Option, none, some, List, [], ◌∷◌, ◌++◌, length,
  get_elem?, take, drop, replicate, copy, ltb, leb, ◌==◌, if◌then◌else◌, ◌>>=◌, mod?, sub?, set?,
  slice?, min,
}
use gx.Base.Int.{ℤ, pos, pos_part, leb_ℤ}
use gx.Sync.{Cond, new_cond, signal, broadcast, wait, resume}
use Spec.{
  Op, push_op, try_next_op, next_op, len_op, close_op, Reply, done, sleeps, pushed, value, size,
}

pub record Buffer {ℓ} (A : Type ℓ) : Type ℓ where
  pub closed : Bool
  pub cond : Cond
  pub head : ℕ
  pub items : List A
  pub len : ℕ

module _ {ℓ} {A : Type ℓ} where
  pub close : Buffer A → Buffer A
  close b = if b.closed then b else record b { closed = true; cond = broadcast b.cond }

  -- The copy of the stored values into the new slots, in order from the front.
  pub relocate : Buffer A → List A → Option (List A)
  relocate b items =
      if leb (b.head + b.len) (length b.items)
      then (do front ← slice? b.items b.head (b.head + b.len); some (copy items front))
      else (do
        front ← slice? b.items b.head (length b.items)
        let n = min (length items) (length front)
        let copied = copy items front
        k ← sub? b.len n
        back ← slice? b.items 0 k
        some (take n copied ++ copy (drop n copied) back))

module _ {ℓ} {A : Type ℓ} (zero_value : A) where
  pub new_buffer : ℤ → Buffer A
  new_buffer initial_capacity = record {
    closed = false;
    cond = new_cond;
    head = 0;
    items =
        replicate (if leb_ℤ initial_capacity (pos 0) then 1 else pos_part initial_capacity)
          zero_value;
    len = 0;
  }

  pub grow_locked : Buffer A → Option (Buffer A)
  unfolding relocate
  grow_locked b = if ltb b.len (length b.items) then some b else (do
    items ← relocate b (replicate (length b.items * 2) zero_value)
    some (record b { items = items; head = 0 }))

  pub next_locked : Buffer A → Option (A × Buffer A)
  next_locked b = do
    taken ← get_elem? b.items b.head
    items ← set? b.items b.head zero_value
    head ← mod? (b.head + 1) (length items)
    len ← sub? b.len 1
    some (taken, record b { items = items; head = (if len == 0 then 0 else head); len = len })

  pub push : Buffer A → A → Option (Bool × Buffer A)
  push b x = if b.closed then some (false, b) else (do
    g ← grow_locked b
    i ← mod? (g.head + g.len) (length g.items)
    items ← set? g.items i x
    some (true, record g { items = items; len = g.len + 1; cond = signal g.cond }))

  pub try_next : Buffer A → Option ((A × Bool) × Buffer A)
  try_next b =
      if b.len == 0
      then some ((zero_value, false), b)
      else (do (taken, b') ← next_locked b; some ((taken, true), b'))

  -- `none` inside is a goroutine that went to sleep.
  pub next : Buffer A → Option (Option (A × Bool) × Buffer A)
  next b =
      if b.len == 0 && not b.closed
      then some (none, record b { cond = wait b.cond })
      else if b.len == 0
      then some (some (zero_value, false), b)
      else (do (taken, b') ← next_locked b; some (some (taken, true), b'))

  -- A goroutine that was woken in `Next` goes on at the head of the loop.
  pub resumed : Buffer A → Option (Option (A × Bool) × Buffer A)
  unfolding next
  resumed b = next (record b { cond = resume b.cond })

  abbrev as_reply : Option (A × Bool) → Reply A
  as_reply none = sleeps
  as_reply (some (a, found)) = value a found

  -- One call of a client.
  pub call : Buffer A → Op A → Option (Reply A × Buffer A)
  call b (push_op x) = do (ok, b') ← push b x; some (pushed ok, b')
  call b try_next_op = do (r, b') ← try_next b; some (value r.0 r.1, b')
  call b next_op = do (r, b') ← next b; some (as_reply r, b')
  call b len_op = some (size b.len, b)
  call b close_op = some (done, close b)

  pub run : Buffer A → List (Op A) → Option (List (Reply A) × Buffer A)
  run b [] = some ([], b)
  run b (o ∷ os) = do (r, b') ← call b o; (rs, b'') ← run b' os; some (r ∷ rs, b'')
