-- ===== src/Bus/Publish.antt =====
-- bus.go: whom `Publish` hands a value to.
use gx.Base.{
  ℕ, ltb, Bool-cases, inl, inr, ◌≡◌, refl, ap, ◌∙◌, Option, none, some, List, [], ◌∷◌, ◌++◌, map,
  if◌then◌else◌,
}
use gx.Base.Int.{ℤ}
use gx.Dict.{Eq, lookup}
use gx.Dict.Laws.{beq_refl}
use gx.Sync.Chan.{send}
use gx.Semaphore.{Semaphore, acquire}
use gx.Semaphore.Holders.{Reach, IsHeld, Reach-IsHeld, slots, taken}
use gx.Dispatcher.{new_dispatcher, register, unregister, or_nil}
use gx.Dispatcher.Order.{
  Registration, registers, unregisters, run_registrations, handlers_for, tagged, run-Holds,
}
use gx.Bus.{
  Bus, Published, no_subscribers, gave_up, spawned, new_bus, acquired, publish, subscribe,
  unsubscribe, Subscriber, run_subscribers,
}

module _ {ℓ κ} {RType : Type ℓ} {H : Type κ} ⦃e : Eq RType⦄ where
  pub run_subscriptions : Bus RType H → List (Registration RType H) → Bus RType H
  run_subscriptions b [] = b
  run_subscriptions b (registers t h ∷ rs) = run_subscriptions (subscribe b t h) rs
  run_subscriptions b (unregisters t ∷ rs) = run_subscriptions (unsubscribe b t) rs

  -- The map changes as that of a Dispatcher does.
  subscriptions-registrations :
      (b : Bus RType H) (rs : List (Registration RType H))
      → (run_subscriptions b rs).m ≡ (run_registrations (record { m = b.m }) rs).m
  unfolding run_subscriptions run_registrations subscribe unsubscribe register unregister
  subscriptions-registrations b [] = refl
  subscriptions-registrations b (registers t h ∷ rs) =
      subscriptions-registrations (subscribe b t h) rs
  subscriptions-registrations b (unregisters t ∷ rs) =
      subscriptions-registrations (unsubscribe b t) rs

module _ {ℓ κ} {Value : Type ℓ} {S : Type κ} where
  pub call_each : List (Subscriber Value S) → Value → S → S
  call_each [] value s = s
  call_each (h ∷ hs) value s = call_each hs value (h value s)

module _ {ℓ κ μ} {RType : Type ℓ} {Value : Type κ} {S : Type μ} ⦃e : Eq RType⦄ where
  run_subscribers_lem :
      (t : RType) (hs : List (Subscriber Value S)) (value : Value) (s : S)
      → run_subscribers t (tagged t hs) value s ≡ some (call_each hs value s)
  unfolding run_subscribers call_each
  run_subscribers_lem t [] value s = refl
  run_subscribers_lem t (h ∷ hs) value s =
      ap (λ b. if b then run_subscribers t (tagged t hs) value (h value s) else none) (beq_refl t)
      ∙ run_subscribers_lem t hs value (h value s)

  -- What `Publish` may come to, by the subscribers for the type, with `n` slots of `size` in use.
  abbrev pub publishes :
      {E : Type 0}
      → Bus RType (Subscriber Value S)
      → ℤ
      → ℕ
      → List (RType × Subscriber Value S)
      → Option E
      → List (Published RType (Subscriber Value S) × Bus RType (Subscriber Value S))
  publishes b size n [] ctx = (no_subscribers, b) ∷ []
  publishes b size n (h ∷ hs) ctx =
      (if ltb n (slots size) then (spawned (h ∷ hs), record b { sem = taken b.sem }) ∷ [] else [])
      ++ elim ctx [ none ↦ [] | some err ↦ (gave_up, b) ∷ [] ]

  acquire_lem :
      {E : Type 0} (b : Bus RType (Subscriber Value S)) (size : ℤ) (n : ℕ) (ctx : Option E)
      (h : RType × Subscriber Value S) (hs : List (RType × Subscriber Value S))
      → IsHeld size n b.sem
      → map (acquired b (h ∷ hs)) (acquire b.sem ctx) ≡ publishes b size n (h ∷ hs) ctx
  unfolding acquire send
  acquire_lem b size n none h hs v = elim (Bool-cases (ltb n (slots size))) [
    | inl e ↦ simp (v.opened, v.used, v.cap, e)
    | inr e ↦ simp (v.opened, v.used, v.cap, e)
  ]
  acquire_lem b size n (some err) h hs v = elim (Bool-cases (ltb n (slots size))) [
    | inl e ↦ simp (v.opened, v.used, v.cap, e)
    | inr e ↦ simp (v.opened, v.used, v.cap, e)
  ]

  publish_lem :
      {E : Type 0} (b : Bus RType (Subscriber Value S)) (size : ℤ) (n : ℕ) (t : RType)
      (ctx : Option E) (hs : List (RType × Subscriber Value S))
      → IsHeld size n b.sem
      → or_nil (lookup t b.m) ≡ hs
      → publish b t ctx ≡ publishes b size n hs ctx
  unfolding publish
  publish_lem b size n t ctx [] v h =
      ap
        (λ l. elim l [
          | [] ↦ (no_subscribers, b) ∷ []
          | s ∷ ss ↦ map (acquired b (s ∷ ss)) (acquire b.sem ctx)
        ])
        h
  publish_lem b size n t ctx (x ∷ xs) v h =
      ap
        (λ l. elim l [
          | [] ↦ (no_subscribers, b) ∷ []
          | s ∷ ss ↦ map (acquired b (s ∷ ss)) (acquire b.sem ctx)
        ])
        h
      ∙ acquire_lem b size n ctx x xs v

  -- After any calls of `Subscribe` and `Unsubscribe`, with any number of slots of the semaphore in use:
  -- `Publish` panics when no one is subscribed to the value's type. Otherwise it may take a slot and
  -- start a goroutine for those subscribed, where a slot is free, may return with nothing changed and no
  -- goroutine, where the context is done, and has no other way to go on. The goroutine never fails a type
  -- assertion: it calls those subscribed to the type since it was last unsubscribed, in the order
  -- of subscription, each once.
  pub publish_subscribed :
      {E : Type 0} (size : ℤ) (rs : List (Registration RType (Subscriber Value S))) (n : ℕ)
      (sem : Semaphore) (t : RType) (ctx : Option E) (value : Value) (s : S)
      → Reach E size n sem
      → let b = record (run_subscriptions (new_bus size) rs) { sem = sem } in
        let hs = handlers_for t [] rs in
        (publish b t ctx ≡ publishes b size n (tagged t hs) ctx)
        × (run_subscribers t (tagged t hs) value s ≡ some (call_each hs value s))
  unfolding new_bus lookup
  publish_subscribed size rs n sem t ctx value s reach =
      let b : Bus RType (Subscriber Value S) = record (run_subscriptions (new_bus size) rs) {
        sem = sem;
      } in
      (
        publish_lem b size n t ctx (tagged t (handlers_for t [] rs)) (Reach-IsHeld reach) (
            ap (λ m. or_nil (lookup t m)) (subscriptions-registrations (new_bus size) rs)
            ∙ run-Holds new_dispatcher (λ u. []) rs tt (λ u. refl) t),
        run_subscribers_lem t (handlers_for t [] rs) value s,
      )
