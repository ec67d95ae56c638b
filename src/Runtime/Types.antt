-- ===== src/Runtime/Types.antt =====
-- runtime.go: its states, what is registered with a Container, and the calls that a hook may make.
use gx.Base.{ℕ, Bool, Option, List}
use gx.Base.Int.{ℤ}
use gx.Dict.{Dict}
use gx.Runner.{Runner}
use gx.Sync.Context.{Cause}

abbrev pub Name : Type 0
Name = List ℕ

-- A `reflect.Type`.
abbrev pub RType : Type 0
RType = ℕ

-- A `*Container`: its place in the Runtime's list.
abbrev pub Ref : Type 0
Ref = ℕ

pub data RuntimeState : Type 0 where
  runtime_setup runtime_initializing runtime_running runtime_stopped : RuntimeState

pub data ContainerState : Type 0 where
  container_setup container_initializing container_initialized container_starting : ContainerState
  container_running container_stopping container_stopped : ContainerState

-- An error with the names that `fmt.Errorf("%s: %s: %w", …)` puts before it.
pub data Error {ℓ} (E : Type ℓ) : Type ℓ where
  failed : Name → Name → E → Error E

-- What a call of the API returns to a hook: nothing, a Container, or a dependency, none for one that is
-- missing. A value of an interface type may be nil, which is none.
pub data Reply {ℓ} (V : Type ℓ) : Type ℓ where
  done : Reply V
  attached : Ref → Reply V
  dependency : Option (Option V) → Reply V

-- A hook: the calls that it makes, one after the other, each depending on the replies before it, and the
-- error that it returns, none for nil.
mutual
  pub data Program {ℓ} (V : Type ℓ) (E : Type ℓ) : Type ℓ where
    returns : Option E → Program V E
    calls : Call V E → (Reply V → Program V E) → Program V E

  pub data Call {ℓ} (V : Type ℓ) (E : Type ℓ) : Type ℓ where
    attach_call : Name → Call V E
    set_global_call : RType → Option V → Call V E
    get_global_call get_try_global_call : RType → Call V E
    on_init_call on_start_call on_stop_call on_stopping_call : Ref → Name → Program V E → Call V E
    run_call : Ref → Name → Call V E
    set_call : Ref → RType → Option V → Call V E
    get_call get_try_call : Ref → RType → Call V E

-- `containerHook` and `containerStop`
pub record Hook {ℓ} (V E : Type ℓ) : Type ℓ where
  pub fn : Program V E
  pub name : Name

-- A value of type `any` with the type that it was stored under, which the assertion of `getValue`
-- compares.
abbrev pub Store {ℓ} : Type ℓ → Type ℓ
Store V = Dict RType (RType × Option V)

-- A task is known by its name; what it does is an event. `wg` is the count of the WaitGroup.
pub record Container {ℓ} (V E : Type ℓ) : Type ℓ where
  pub init_fns : List (Hook V E)
  pub name : Name
  pub running : List Name
  pub start_fns : List (Hook V E)
  pub state : ContainerState
  pub stop_fns : List (Hook V E)
  pub stopping_fns : List (Hook V E)
  pub store : Store V
  pub tasks : List Name
  pub wg : ℕ

pub data Phase : Type 0 where
  init_phase start_phase stopping_phase stop_phase : Phase

pub data Message : Type 0 where
  step_starting step_error step_completed : Message

-- What `logStep` gives to the logger, if there is one.
pub record Entry : Type 0 where
  pub message : Message
  pub container : Name
  pub phase : Phase
  pub step : Name

-- `ctx_done` is whether `r.ctx` is done. `reporting` has the results of the goroutines that have done with
-- the Container's WaitGroup and not yet with the Runner's. `clock` counts the moments at which other
-- goroutines had a turn.
pub record Runtime {ℓ} (V E : Type ℓ) : Type ℓ where
  pub clock : ℕ
  pub containers : List (Container V E)
  pub ctx_done : Bool
  pub log : List Entry
  pub reporting : List (Option (Error E))
  pub runner : Runner (Error E)
  pub shutdown_once : Bool
  pub shutdown_timeout : ℤ
  pub startup_done : Bool
  pub state : RuntimeState
  pub stop_err : Option (Error E)
  pub store : Store V

-- What other goroutines do: a task's function returns, a goroutine is done with the Runner, the parent
-- context ends, `r.ctx` ends with it or with the Runner's, or a task calls the API.
pub data Event {ℓ} (V E : Type ℓ) : Type ℓ where
  exits : Ref → Name → Option E → Event V E
  reports : ℕ → Event V E
  parent_ends : Cause (Error E) → Event V E
  ctx_ends : Event V E
  task_calls : Call V E → Event V E
