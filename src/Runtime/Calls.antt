-- ===== src/Runtime/Calls.antt =====
-- runtime.go: the calls of Runtime and Container that a program makes before `Run`, in hooks and in
-- tasks. A lock that is held to the end of a method makes the method one step.
use gx.Base.{
  ◌+◌, Bool, true, false, not, ◌||◌, Option, none, some, List, [], ◌∷◌, ◌++◌, length, get_elem?,
  set,
}
use gx.Base.Exec.{Exec, pure, gets, modify, or_panic, panic_if, ◌>>=◌, ◌>>◌}
use gx.Base.Int.{pos}
use gx.Dict.{◌=?◌, list_eq}
use gx.Runner
use gx.Runtime.Types.{
  Name, RType, Ref, RuntimeState, runtime_setup, runtime_initializing, ContainerState,
  container_setup, container_initializing, container_starting, Reply, done, attached, dependency,
  Program, Call, attach_call, set_global_call, get_global_call, get_try_global_call, on_init_call,
  on_start_call, on_stop_call, on_stopping_call, run_call, set_call, get_call, get_try_call,
  Container, Runtime,
}
use gx.Runtime.Store.{new_store, store_get, store_set, get_value}

abbrev pub is_empty : Name → Bool
is_empty [] = true
is_empty (c ∷ name) = false

abbrev pub is_runtime_setup : RuntimeState → Bool
is_runtime_setup runtime_setup = true
is_runtime_setup _ = false

-- Before `Run` or during initialization.
abbrev pub takes_globals : RuntimeState → Bool
takes_globals runtime_setup = true
takes_globals runtime_initializing = true
takes_globals _ = false

abbrev pub is_setup : ContainerState → Bool
is_setup container_setup = true
is_setup _ = false

abbrev pub is_starting : ContainerState → Bool
is_starting container_starting = true
is_starting _ = false

-- During construction or initialization.
abbrev pub takes_hooks : ContainerState → Bool
takes_hooks container_setup = true
takes_hooks container_initializing = true
takes_hooks _ = false

-- What runs on a Runtime.
abbrev pub Action {ℓ α} : Type ℓ → Type ℓ → Type α → Type (ℓ ⊔ α)
Action V E A = Exec (Runtime V E) A

module _ {ℓ} {V E : Type ℓ} where
  unfoldable pub container : Ref → Action V E (Container V E)
  container i r = or_panic (get_elem? r.containers i) r

  unfoldable pub update : Ref → (Container V E → Container V E) → Action V E (Unit {0})
  update i f = do c ← container i; modify (λ r. record r { containers = set r.containers i (f c) })

  -- `NewRuntime`
  unfoldable pub new_runtime : Runtime V E
  new_runtime = record {
    clock = 0;
    containers = [];
    ctx_done = false;
    log = [];
    reporting = [];
    runner = Runner.new_runner none;
    shutdown_once = false;
    shutdown_timeout = pos 0;
    startup_done = false;
    state = runtime_setup;
    stop_err = none;
    store = new_store;
  }

  abbrev pub has_name : Name → List (Container V E) → Bool
  has_name name [] = false
  has_name name (c ∷ cs) = (c.name =? name) || has_name name cs

  abbrev pub new_container : Name → Container V E
  new_container name = record {
    init_fns = [];
    name = name;
    running = [];
    start_fns = [];
    state = container_setup;
    stop_fns = [];
    stopping_fns = [];
    store = new_store;
    tasks = [];
    wg = 0;
  }

  unfoldable pub attach : Name → Action V E Ref
  attach name = do
    panic_if (is_empty name)
    state ← gets (λ r. r.state)
    panic_if (not (is_runtime_setup state))
    containers ← gets (λ r. r.containers)
    panic_if (has_name name containers)
    modify (λ r. record r { containers = r.containers ++ new_container name ∷ [] })
    pure (length containers)

  -- `Runtime.Set` and `SetGlobal`
  unfoldable pub set_global : RType → Option V → Action V E (Unit {0})
  set_global t v = do
    state ← gets (λ r. r.state)
    panic_if (not (takes_globals state))
    store ← gets (λ r. r.store)
    let (stored, store') = store_set store t v
    panic_if (not stored)
    modify (λ r. record r { store = store' })

  abbrev pub found_value : RType → Option (RType × Option V) → Action V E (Option (Option V))
  found_value t none = pure none
  found_value t (some a) = do v ← or_panic (get_value t a); pure (some v)

  -- `Runtime.GetTry` and `GlobalTry`
  unfoldable pub get_try_global : RType → Action V E (Option (Option V))
  get_try_global t = do store ← gets (λ r. r.store); found_value t (store_get store t)

  -- `Runtime.Get` and `Global`
  unfoldable pub get_global : RType → Action V E (Option V)
  get_global t = do v ← get_try_global t; or_panic v

  unfoldable pub on_init : Ref → Name → Option (Program V E) → Action V E (Unit {0})
  on_init i name fn = do
    panic_if (is_empty name)
    p ← or_panic fn
    c ← container i
    panic_if (not (is_setup c.state))
    update i (λ c. record c { init_fns = c.init_fns ++ record { fn = p; name = name } ∷ [] })

  unfoldable pub on_start : Ref → Name → Option (Program V E) → Action V E (Unit {0})
  on_start i name fn = do
    panic_if (is_empty name)
    p ← or_panic fn
    c ← container i
    panic_if (not (takes_hooks c.state))
    update i (λ c. record c { start_fns = c.start_fns ++ record { fn = p; name = name } ∷ [] })

  unfoldable pub on_stop : Ref → Name → Option (Program V E) → Action V E (Unit {0})
  on_stop i name fn = do
    panic_if (is_empty name)
    p ← or_panic fn
    c ← container i
    panic_if (not (takes_hooks c.state))
    update i (λ c. record c { stop_fns = c.stop_fns ++ record { fn = p; name = name } ∷ [] })

  unfoldable pub on_stopping : Ref → Name → Option (Program V E) → Action V E (Unit {0})
  on_stopping i name fn = do
    panic_if (is_empty name)
    p ← or_panic fn
    c ← container i
    panic_if (not (takes_hooks c.state))
    update i
        (λ c. record c { stopping_fns = c.stopping_fns ++ record { fn = p; name = name } ∷ [] })

  unfoldable pub start_task_locked : Ref → Name → Action V E (Unit {0})
  start_task_locked i name = do
    update i (λ c. record c { running = c.running ++ name ∷ []; wg = c.wg + 1 })
    modify (λ r. record r { runner = Runner.start r.runner })

  -- The switch of `Run`.
  unfoldable pub run_in : ContainerState → Ref → Name → Action V E (Unit {0})
  run_in container_setup i name = update i (λ c. record c { tasks = c.tasks ++ name ∷ [] })
  run_in container_initializing i name = update i (λ c. record c { tasks = c.tasks ++ name ∷ [] })
  run_in container_starting i name = start_task_locked i name
  run_in _ i name = panic_if true

  -- `Container.Run`, where `given` is whether the function is not nil.
  unfoldable pub run_task : Ref → Name → Bool → Action V E (Unit {0})
  run_task i name given = do
    panic_if (is_empty name)
    panic_if (not given)
    c ← container i
    run_in c.state i name

  -- `Container.Set`
  unfoldable pub set_local : Ref → RType → Option V → Action V E (Unit {0})
  set_local i t v = do
    c ← container i
    panic_if (not (takes_hooks c.state || is_starting c.state))
    let (stored, store') = store_set c.store t v
    panic_if (not stored)
    update i (λ c. record c { store = store' })

  -- `Container.GetTry`
  unfoldable pub get_try : Ref → RType → Action V E (Option (Option V))
  get_try i t = do c ← container i; found_value t (store_get c.store t)

  -- `Container.Get`
  unfoldable pub get : Ref → RType → Action V E (Option V)
  get i t = do v ← get_try i t; or_panic v

  unfoldable pub call : Call V E → Action V E (Reply V)
  call (attach_call name) = do i ← attach name; pure (attached i)
  call (set_global_call t v) = do set_global t v; pure done
  call (get_global_call t) = do v ← get_global t; pure (dependency (some v))
  call (get_try_global_call t) = do v ← get_try_global t; pure (dependency v)
  call (on_init_call i name p) = do on_init i name (some p); pure done
  call (on_start_call i name p) = do on_start i name (some p); pure done
  call (on_stop_call i name p) = do on_stop i name (some p); pure done
  call (on_stopping_call i name p) = do on_stopping i name (some p); pure done
  call (run_call i name) = do run_task i name true; pure done
  call (set_call i t v) = do set_local i t v; pure done
  call (get_call i t) = do v ← get i t; pure (dependency (some v))
  call (get_try_call i t) = do v ← get_try i t; pure (dependency v)
