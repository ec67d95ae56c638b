-- ===== src/Base/Exec.antt =====
-- Code that changes a shared state, and may panic or block. The state comes back in any case.
pub mod Ensures
pub mod Keeps
use Prim.Native.Nat.{ℕ}
use mathlib.Core.Path.{◌≡◌, refl}
use mathlib.Core.Bool.{Bool, true, false}
use mathlib.Core.Option.{Option, none, some}
use gx.Base.Tests.{if◌then◌else◌}

pub data Result {α} (A : Type α) : Type α where
  ok : A → Result A
  panicked blocked : Result A

abbrev pub Exec {σ α} : Type σ → Type α → Type (σ ⊔ α)
Exec S A = S → Result A × S

-- What the rest of a computation does with the result so far.
abbrev pub resume {σ α β} :
    {S : Type σ} {A : Type α} {B : Type β} → (A → Exec S B) → Result A → Exec S B
resume f (ok a) s = f a s
resume f panicked s = (panicked, s)
resume f blocked s = (blocked, s)

infixl 5 ◌>>=◌ ◌>>◌
abbrev pub ◌>>=◌ {σ α β} :
    {S : Type σ} {A : Type α} {B : Type β} → Exec S A → (A → Exec S B) → Exec S B
◌>>=◌ m f s = let (r, s') = m s in resume f r s'

abbrev pub ◌>>◌ {σ β} : {S : Type σ} {B : Type β} → Exec S (Unit {0}) → Exec S B → Exec S B
m >> n = m >>= λ _. n

module _ {σ α} {S : Type σ} {A : Type α} where
  abbrev pub pure : A → Exec S A
  pure a s = (ok a, s)

  abbrev pub gets : (S → A) → Exec S A
  gets f s = (ok (f s), s)

  -- A value that is there, or a panic.
  abbrev pub or_panic : Option A → Exec S A
  or_panic none s = (panicked, s)
  or_panic (some a) s = (ok a, s)

module _ {σ} {S : Type σ} where
  abbrev pub modify : (S → S) → Exec S (Unit {0})
  modify f s = (ok tt, f s)

  abbrev pub panic_if : Bool → Exec S (Unit {0})
  panic_if b s = (if b then panicked else ok tt, s)

  -- The goroutine waits until something holds.
  abbrev pub block_unless : Bool → Exec S (Unit {0})
  block_unless b s = (if b then ok tt else blocked, s)
