-- ===== src/Dispatcher/Tests.antt =====
-- A Dispatcher whose handlers count.
use gx.Base.{ℕ, ◌+◌, ◌≡◌, none, some, List, [], ◌∷◌}
use gx.Dict.{nat_eq}
use gx.Dispatcher.{Handler, new_dispatcher, dispatch}
use gx.Dispatcher.Order.{
  Registration, registers, unregisters, run_registrations, handlers_for, call_registered,
  dispatch_registered,
}

abbrev counts : Handler ℕ ℕ ℕ
counts value n = (none, n + value)

abbrev fails : Handler ℕ ℕ ℕ
fails value n = (some n, n)

abbrev registrations : List (Registration ℕ (Handler ℕ ℕ ℕ))
registrations =
    registers 1 counts
    ∷ registers 2 counts
    ∷ registers 1 fails
    ∷ unregisters 2
    ∷ registers 1 counts
    ∷ []

dispatch_registered_example :
    dispatch (run_registrations new_dispatcher registrations) 1 5 0
    ≡ some (call_registered (handlers_for 1 [] registrations) 5 0)
dispatch_registered_example = dispatch_registered registrations 1 5 0
