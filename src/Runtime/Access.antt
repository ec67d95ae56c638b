-- ===== src/Runtime/Access.antt =====
-- runtime.go: the methods of a Container that its Runtime does the work of, and its name.
use gx.Base.{Option}
use gx.Base.Exec.{pure, ◌>>=◌, ◌>>◌}
use gx.Runtime.Types.{Name, RType, Ref}
use gx.Runtime.Calls.{Action, container, set_global, get_global, get_try_global}

module _ {ℓ} {V E : Type ℓ} where
  -- `Name`
  pub container_name : Ref → Action V E Name
  container_name i = do c ← container i; pure c.name

  pub global : Ref → RType → Action V E (Option V)
  global i t = get_global t

  pub global_try : Ref → RType → Action V E (Option (Option V))
  global_try i t = get_try_global t

  -- `SetGlobal`, which returns the Container.
  pub set_global_from : Ref → RType → Option V → Action V E Ref
  set_global_from i t v = do set_global t v; pure i
