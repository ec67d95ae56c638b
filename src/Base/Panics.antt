-- ===== src/Base/Panics.antt =====
-- Run-time panics: `none` is a panic of the Go runtime.
use Prim.Native.Nat.{ℕ, ◌-◌, ◌%◌, ◌≤◌, ◌<◌}
use mathlib.Core.Path.{◌≡◌}
use mathlib.Core.Logic.{◌≢◌}
use mathlib.Core.Bool.{◌&&◌}
use mathlib.Core.List.{List}
use mathlib.Core.Option.{Option, none, some}
use gx.Base.Tests.{ltb, leb, ◌==◌, if◌then◌else◌, le→leb, lt→ltb, ne→==_false}
use gx.Base.Lists.{length, set, take, drop}

infixl 5 ◌>>=◌
abbrev pub ◌>>=◌ {ℓ κ} : {A : Type ℓ} {B : Type κ} → Option A → (A → Option B) → Option B
none >>= f = none
some a >>= f = f a

-- `n % m`, which panics at `m == 0`.
unfoldable pub mod? : ℕ → ℕ → Option ℕ
mod? n m = if m == 0 then none else some (n % m)

-- `a - b` where the code then uses the difference as a slice bound.
unfoldable pub sub? : ℕ → ℕ → Option ℕ
sub? a b = if leb b a then some (a - b) else none

pub mod?_in : (n m : ℕ) → m ≢ 0 → mod? n m ≡ some (n % m)
unfolding mod?
mod?_in n m h = rw (ne→==_false _ _ h)

pub sub?_in : (a b : ℕ) → b ≤ a → sub? a b ≡ some (a - b)
unfolding sub?
sub?_in a b h = rw (le→leb _ _ h)

module _ {ℓ} {A : Type ℓ} where
  -- `xs[i] = v`
  unfoldable pub set? : List A → ℕ → A → Option (List A)
  set? xs i v = if ltb i (length xs) then some (set xs i v) else none

  -- `xs[lo:hi]`, for a slice whose capacity is its length.
  unfoldable pub slice? : List A → ℕ → ℕ → Option (List A)
  slice? xs lo hi =
      if leb lo hi && leb hi (length xs) then some (take (hi - lo) (drop lo xs)) else none

  pub set?_in : (xs : List A) (i : ℕ) (v : A) → i < length xs → set? xs i v ≡ some (set xs i v)
  unfolding set?
  set?_in xs i v h = rw (lt→ltb _ _ h)

  pub slice?_in :
      (xs : List A) (lo hi : ℕ)
      → lo ≤ hi
      → hi ≤ length xs
      → slice? xs lo hi ≡ some (take (hi - lo) (drop lo xs))
  unfolding slice?
  slice?_in xs lo hi h k = rw (le→leb _ _ h, le→leb _ _ k)
