-- ===== src/Runtime/Store.antt =====
-- runtime.go: the store of dependencies by type.
use gx.Base.{Bool, true, false, Option, none, some, [], if◌then◌else◌, ◌==◌}
use gx.Dict.{lookup, insert, found, nat_eq}
use gx.Runtime.Types.{RType, Store}

module _ {ℓ} {V : Type ℓ} where
  abbrev pub new_store : Store V
  new_store = []

  unfoldable pub store_get : Store V → RType → Option (RType × Option V)
  store_get m t = lookup t m

  -- Whether the value was stored, and the store.
  unfoldable pub store_set : Store V → RType → Option V → Bool × Store V
  store_set m t v = if found (lookup t m) then (false, m) else (true, insert t (t, v) m)

  -- `none` is the panic of a value that is not of the type.
  unfoldable pub get_value : RType → RType × Option V → Option (Option V)
  get_value t (tag, none) = some none
  get_value t (tag, some v) = if tag == t then some (some v) else none
