-- ===== src/Sync/Context.antt =====
-- A context that `context.WithCancelCause` made, over the errors of the program: what cancelled it
-- first, if anything has.
use gx.Base.{Option, none, some}

pub data Cause {ℓ} (E : Type ℓ) : Type ℓ where
  canceled : Cause E  -- `context.Canceled`
  failed : E → Cause E

module _ {ℓ} {E : Type ℓ} where
  abbrev pub to_cause : Option E → Cause E
  to_cause none = canceled
  to_cause (some e) = failed e

  -- `cancel(err)`: only the first call has an effect.
  unfoldable pub cancel_cause : Option (Cause E) → Option E → Option (Cause E)
  cancel_cause none err = some (to_cause err)
  cancel_cause (some c) err = some c
