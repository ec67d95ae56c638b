-- ===== src/Sync/Chan.antt =====
-- A buffered channel: its capacity, what it holds, oldest first, and whether it is closed.
use gx.Base.{ℕ, Bool, false, Option, none, some, List, [], ◌∷◌, ◌++◌, length, ltb, if◌then◌else◌}

pub record Chan {ℓ} (A : Type ℓ) : Type ℓ where
  pub cap : ℕ
  pub buf : List A
  pub closed : Bool

-- What becomes of a communication that is tried now.
pub data Comm {ℓ} (A : Type ℓ) : Type ℓ where
  blocked panicked : Comm A
  ready : A → Comm A

module _ {ℓ} {A : Type ℓ} where
  abbrev pub make : ℕ → Chan A
  make n = record { cap = n; buf = []; closed = false }

  -- `c <- x` panics on a closed channel and blocks on a full one.
  unfoldable pub send : Chan A → A → Comm (Chan A)
  send c x =
      if c.closed
      then panicked
      else if ltb (length c.buf) c.cap
      then ready (record c { buf = c.buf ++ x ∷ [] })
      else blocked

  -- `x, ok := <-c`: `none` is the receive from a closed and empty channel.
  unfoldable pub receive : Chan A → Comm (Option A × Chan A)
  receive c = elim c.buf [
    | x ∷ rest ↦ ready (some x, record c { buf = rest })
    | [] ↦ if c.closed then ready (none, c) else blocked
  ]
