-- ===== src/Sync.antt =====
-- The state of the standard library's synchronisation that the components keep: `sync.Cond`.
pub mod Chan
pub mod Context
pub mod Sleepers
use gx.Base.{ℕ, ◌+◌, ◌-◌, ◌==◌, if◌then◌else◌}

-- Goroutines asleep in `Wait`, and those that a `Signal` or `Broadcast` has taken off the list and
-- that have not yet gone on.
pub record Cond : Type 0 where
  pub waiting : ℕ
  pub notified : ℕ

abbrev pub new_cond : Cond
new_cond = record { waiting = 0; notified = 0 }

-- `Signal` wakes one sleeper, if there is one.
unfoldable pub signal : Cond → Cond
signal c =
    if c.waiting == 0 then c else record { waiting = c.waiting - 1; notified = c.notified + 1 }

-- `Broadcast` wakes all of them.
unfoldable pub broadcast : Cond → Cond
broadcast c = record { waiting = 0; notified = c.notified + c.waiting }

-- A goroutine goes to sleep.
unfoldable pub wait : Cond → Cond
wait c = record c { waiting = c.waiting + 1 }

-- A goroutine that was woken takes the lock again.
unfoldable pub resume : Cond → Cond
resume c = record c { notified = c.notified - 1 }
