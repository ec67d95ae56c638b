-- ===== src/Bus.antt =====
-- bus.go: subscribers by the type of value that they take, which a published value is handed to in a
-- goroutine of its own, while that holds a slot of a semaphore. A `RType` is a `reflect.Type`. As in a
-- Dispatcher, what the map holds has the type that it was registered for, which the assertion
-- `s.(Subscriber[T])` compares; `none` is its panic. A subscriber acts on the program's state `S`.
pub mod Publish
mod Tests
use gx.Base.{Option, none, some, List, [], ◌∷◌, ◌++◌, map, if◌then◌else◌}
use gx.Base.Int.{ℤ}
use gx.Dict.{Eq, ◌=?◌, Dict, lookup, insert, erase}
use gx.Dispatcher.{or_nil}
use gx.Semaphore.{Semaphore, new_semaphore, acquire, release}

abbrev pub Subscriber {ℓ κ} : Type ℓ → Type κ → Type (ℓ ⊔ κ)
Subscriber Value S = Value → S → S

pub record Bus {ℓ κ} (RType : Type ℓ) (H : Type κ) : Type (ℓ ⊔ κ) where
  pub m : Dict RType (List (RType × H))
  pub sem : Semaphore

-- What `Publish` may come to: the panic for want of a subscriber, the return with nothing done, or a
-- goroutine for the subscribers it found.
pub data Published {ℓ κ} (RType : Type ℓ) (H : Type κ) : Type (ℓ ⊔ κ) where
  no_subscribers gave_up : Published RType H
  spawned : List (RType × H) → Published RType H

module _ {ℓ κ} {RType : Type ℓ} {H : Type κ} where
  pub new_bus : ℤ → Bus RType H
  new_bus max_concurrency = record { m = []; sem = new_semaphore max_concurrency }

  -- What follows an outcome of `Acquire`.
  abbrev pub acquired {ε} :
      {E : Type ε}
      → Bus RType H
      → List (RType × H)
      → Option E × Semaphore
      → Published RType H × Bus RType H
  acquired b subscribers (none, sem) = (spawned subscribers, record b { sem = sem })
  acquired b subscribers (some err, sem) = (gave_up, record b { sem = sem })

module _ {ℓ κ} {RType : Type ℓ} {H : Type κ} ⦃e : Eq RType⦄ where
  -- The possible outcomes; `Publish` blocks while there is none.
  pub publish {ε} :
      {E : Type ε} → Bus RType H → RType → Option E → List (Published RType H × Bus RType H)
  publish b t ctx = elim (or_nil (lookup t b.m)) [
    | [] ↦ (no_subscribers, b) ∷ []
    | s ∷ ss ↦ map (acquired b (s ∷ ss)) (acquire b.sem ctx)
  ]

  pub subscribe : Bus RType H → RType → H → Bus RType H
  subscribe b t s = record b { m = insert t (or_nil (lookup t b.m) ++ (t, s) ∷ []) b.m }

  -- `Subscribe` with a subscriber that may be nil, which panics.
  pub subscribe? : Bus RType H → RType → Option H → Option (Bus RType H)
  unfolding subscribe
  subscribe? b t none = none
  subscribe? b t (some s) = some (subscribe b t s)

  pub unsubscribe : Bus RType H → RType → Bus RType H
  unsubscribe b t = record b { m = erase t b.m }

module _ {ℓ κ μ} {RType : Type ℓ} {Value : Type κ} {S : Type μ} ⦃e : Eq RType⦄ where
  -- The loop of the goroutine.
  pub run_subscribers : RType → List (RType × Subscriber Value S) → Value → S → Option S
  run_subscribers t [] value s = some s
  run_subscribers t ((tag, h) ∷ hs) value s =
      let rest = run_subscribers t hs value (h value s) in if tag =? t then rest else none

-- The end of the goroutine; `none`: the release blocks.
pub finished {ℓ κ} : {RType : Type ℓ} {H : Type κ} → Bus RType H → Option (Bus RType H)
finished b = elim (release b.sem) [ none ↦ none | some sem ↦ some (record b { sem = sem }) ]
