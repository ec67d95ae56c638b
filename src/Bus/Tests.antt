-- ===== src/Bus/Tests.antt =====
-- A Bus whose subscribers count.
use gx.Base.{ℕ, ◌+◌, ◌≡◌, refl, inl, Option, none, some, List, [], ◌∷◌}
use gx.Base.Int.{pos}
use gx.Dict.{nat_eq}
use gx.Bus.{Subscriber, new_bus, publish, run_subscribers}
use gx.Sync.Chan.{send}
use gx.Semaphore.{Semaphore, new_semaphore, acquire}
use gx.Semaphore.Holders.{Reach, start, acquires, taken}
use gx.Dispatcher.Order.{Registration, registers, unregisters, handlers_for, tagged}
use gx.Bus.Publish.{run_subscriptions, publishes, call_each, publish_subscribed}

abbrev adds : Subscriber ℕ ℕ
adds value n = n + value

abbrev subscriptions : List (Registration ℕ (Subscriber ℕ ℕ))
subscriptions = registers 1 adds ∷ registers 2 adds ∷ unregisters 2 ∷ registers 1 adds ∷ []

abbrev not_done : Option ℕ
not_done = none

-- One of the two slots is in use.
abbrev held : Semaphore
held = taken (new_semaphore (pos 2))

held-Reach : Reach ℕ (pos 2) 1 held
unfolding acquire send new_semaphore
held-Reach = acquires none (inl refl) start

publish_subscribed_example :
    (publish (record (run_subscriptions (new_bus (pos 2)) subscriptions) { sem = held }) 1 not_done
      ≡ publishes
          (record (run_subscriptions (new_bus (pos 2)) subscriptions) { sem = held })
          (pos 2)
          1
          (tagged 1 (handlers_for 1 [] subscriptions))
          not_done)
    × (run_subscribers {RType = ℕ} 1 (tagged 1 (handlers_for 1 [] subscriptions)) 5 0
        ≡ some (call_each (handlers_for 1 [] subscriptions) 5 0))
publish_subscribed_example =
    publish_subscribed (pos 2) subscriptions 1 held 1 not_done 5 0 held-Reach
