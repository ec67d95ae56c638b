-- ===== src/Runtime/Create.antt =====
-- runtime.go: a Container whose initialization makes a dependency of the Runtime.
use gx.Base.{Option, none, some, [], ◌∷◌}
use gx.Base.Exec.{or_panic, ◌>>=◌}
use gx.Runtime.Types.{Name, RType, Reply, Program, returns, calls, Call, set_global_call}
use gx.Runtime.Calls.{Action, attach, on_init}

-- A factory: the calls that it makes, and the value or the error that it returns.
pub data Factory {ℓ} (V : Type ℓ) (E : Type ℓ) : Type ℓ where
  makes : Option V → Factory V E
  fails_with : E → Factory V E
  asks : Call V E → (Reply V → Factory V E) → Factory V E

-- "create"
abbrev pub create_name : Name
create_name = 99 ∷ 114 ∷ 101 ∷ 97 ∷ 116 ∷ 101 ∷ []

module _ {ℓ} {V E : Type ℓ} where
  -- The initialization hook of `Create`.
  unfoldable pub create_hook : RType → Factory V E → Program V E
  create_hook t (makes v) = calls (set_global_call t v) (λ _. returns none)
  create_hook t (fails_with err) = returns (some err)
  create_hook t (asks c k) = calls c (λ reply. create_hook t (k reply))

  -- `Create` of a value of type `t`.
  unfoldable pub create : Name → RType → Option (Factory V E) → Action V E (Unit {0})
  create name t fn = do
    f ← or_panic fn
    i ← attach name
    on_init i create_name (some (create_hook t f))
