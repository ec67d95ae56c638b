-- ===== src/Semaphore.antt =====
-- semaphore.go: a channel whose elements are the slots in use. A `select` has the list of its possible
-- outcomes, one for each case that is ready; with none it blocks. A context is the error that its
-- `Err` returns, none while it is not done.
pub mod Holders
mod Tests
use gx.Base.{ℕ, Bool, true, false, Option, none, some, List, [], ◌∷◌, ◌++◌, if◌then◌else◌}
use gx.Base.Int.{ℤ, pos, pos_part, leb_ℤ}
use gx.Sync.Chan
use gx.Sync.Chan.{Chan, Comm, blocked, panicked, ready}

pub record Semaphore : Type 0 where
  pub ch : Chan (Unit {0})

unfoldable pub new_semaphore : ℤ → Semaphore
new_semaphore size = record { ch = Chan.make (if leb_ℤ size (pos 0) then 1 else pos_part size) }

-- The outcomes of `case s.ch <- struct{}{}`.
abbrev slot_taken {κ} : {R : Type κ} → R → Comm (Chan (Unit {0})) → List (R × Semaphore)
slot_taken r (ready ch) = (r, record { ch = ch }) ∷ []
slot_taken r _ = []

-- The outcomes of `case <-ctx.Done()`.
abbrev context_done {κ} : {E : Type κ} → Option E → Semaphore → List (Option E × Semaphore)
context_done none s = []
context_done (some err) s = (some err, s) ∷ []

unfoldable pub acquire {κ} : {E : Type κ} → Semaphore → Option E → List (Option E × Semaphore)
acquire s ctx = slot_taken none (Chan.send s.ch tt) ++ context_done ctx s

pub try_acquire : Semaphore → Bool × Semaphore
try_acquire s = elim (Chan.send s.ch tt) [ ready ch ↦ (true, record { ch = ch }) | _ ↦ (false, s) ]

-- `none`: the receive blocks.
pub release : Semaphore → Option Semaphore
release s = elim (Chan.receive s.ch) [ ready (x, ch) ↦ some (record { ch = ch }) | _ ↦ none ]
