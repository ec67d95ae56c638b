-- ===== src/Dispatcher.antt =====
-- dispatcher.go: handlers by the type of value that they take. A `RType` is a `reflect.Type`. What the
-- map holds is of type `any`: a handler with the type that it was registered for, which the assertion
-- `h.(Handler[T])` compares; `none` is its panic. A handler acts on the program's state `S`.
pub mod Order
mod Tests
use gx.Base.{Bool, true, false, Option, none, some, List, [], ◌∷◌, ◌++◌, if◌then◌else◌, ◌>>=◌}
use gx.Dict.{Eq, ◌=?◌, Dict, lookup, insert, erase}

pub data Outcome {ℓ} (E : Type ℓ) : Type ℓ where
  ok no_handler : Outcome E
  failed : E → Outcome E

-- A handler returns its error, none for nil, and the state it leaves.
abbrev pub Handler {ℓ κ μ} : Type ℓ → Type κ → Type μ → Type (ℓ ⊔ κ ⊔ μ)
Handler Value S E = Value → S → Option E × S

pub record Dispatcher {ℓ κ} (RType : Type ℓ) (H : Type κ) : Type (ℓ ⊔ κ) where
  pub m : Dict RType (List (RType × H))

abbrev pub new_dispatcher {ℓ κ} : {RType : Type ℓ} {H : Type κ} → Dispatcher RType H
new_dispatcher = record { m = [] }

-- A missing key reads as the nil slice.
abbrev pub or_nil {ℓ} : {A : Type ℓ} → Option (List A) → List A
or_nil none = []
or_nil (some l) = l

module _ {ℓ κ} {RType : Type ℓ} {H : Type κ} ⦃e : Eq RType⦄ where
  unfoldable pub register : Dispatcher RType H → RType → H → Dispatcher RType H
  register d t h = record { m = insert t (or_nil (lookup t d.m) ++ (t, h) ∷ []) d.m }

  -- `Register` with a handler that may be nil, which panics.
  pub register? : Dispatcher RType H → RType → Option H → Option (Dispatcher RType H)
  unfolding register
  register? d t none = none
  register? d t (some h) = some (register d t h)

  unfoldable pub unregister : Dispatcher RType H → RType → Dispatcher RType H
  unregister d t = record { m = erase t d.m }

module _ {ℓ κ μ ν} {RType : Type ℓ} {Value : Type κ} {S : Type μ} {E : Type ν} ⦃e : Eq RType⦄ where
  -- The loop over the handlers.
  pub run_handlers : RType → List (RType × Handler Value S E) → Value → S → Option (Outcome E × S)
  run_handlers t [] value s = some (ok, s)
  run_handlers t ((tag, h) ∷ hs) value s =
      let (err, s') = h value s in
      let rest = run_handlers t hs value s' in
      if tag =? t then (elim err [ none ↦ rest | some x ↦ some (failed x, s') ]) else none

  pub dispatch : Dispatcher RType (Handler Value S E) → RType → Value → S → Option (Outcome E × S)
  dispatch d t value s = elim (or_nil (lookup t d.m)) [
    | [] ↦ some (no_handler, s)
    | h ∷ hs ↦ run_handlers t (h ∷ hs) value s
  ]
