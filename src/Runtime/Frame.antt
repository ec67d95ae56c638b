-- ===== src/Runtime/Frame.antt =====
-- runtime.go: what calls, tasks and hooks leave alone once `Run` is under way.
use gx.Base.{
  ◌≡◌, refl, ap, ◌∙◌, sym, subst, ℕ, zero, suc, Bool, false, not, Option, none, some, List, [], ◌∷◌,
  map, set, get_elem?, arith,
}
use gx.Base.Exec.Keeps.{Keeps, Keeps-guard, Keeps-panics, Keeps-bind, keeps_rules}
use gx.Runtime.Types.{
  Name, RType, Ref, Error, RuntimeState, ContainerState, Program, returns, calls, Call, attach_call,
  set_global_call, get_global_call, get_try_global_call, on_init_call, on_start_call, on_stop_call,
  on_stopping_call, run_call, set_call, get_call, get_try_call, Container, container_setup,
  container_initializing, container_starting, container_initialized, container_running,
  container_stopping, container_stopped, Entry, Runtime, Event, exits, reports, parent_ends,
  ctx_ends, task_calls,
}
use gx.Runtime.Calls.{
  Action, is_runtime_setup, is_empty, found_value, update, attach, set_global, get_global,
  get_try_global, on_init, on_start, on_stop, on_stopping, start_task_locked, run_in, run_task,
  set_local, get_try, get, call,
}
use gx.Runtime.Keeps.{update-Keeps, container-Keeps}
use gx.Runtime.Turns.{stop_task, report, task_exits, happen, happen_all, turn, ctx_err, exec}

pub record View {ℓ} (E : Type ℓ) : Type ℓ where
  pub lives : List ContainerState
  pub log : List Entry
  pub shutdown_once : Bool
  pub startup_done : Bool
  pub state : RuntimeState
  pub stop_err : Option (Error E)

module _ {ℓ} {V E : Type ℓ} where
  abbrev pub lives : List (Container V E) → List ContainerState
  lives = map (λ c. c.state)

  abbrev pub view : Runtime V E → View E
  view r = record {
    lives = lives r.containers;
    log = r.log;
    shutdown_once = r.shutdown_once;
    startup_done = r.startup_done;
    state = r.state;
    stop_err = r.stop_err;
  }

  lives-set :
      (f : Container V E → Container V E)
      → ((c : Container V E) → (f c).state ≡ c.state)
      → (cs : List (Container V E)) (i : ℕ) {c : Container V E} → get_elem? cs i ≡ some c
      → lives (set cs i (f c)) ≡ lives cs
  lives-set f h [] i e = refl
  lives-set f h (d ∷ cs) zero {c} e = ground (arith, h c)
  lives-set f h (d ∷ cs) (suc i) e = ap (◌∷◌ d.state) (lives-set f h cs i e)

module _ {ℓ} {V E : Type ℓ} (v : View E) where
  abbrev Sees : Runtime V E → Type ℓ
  Sees r = view r ≡ v

  update-Sees :
      (i : Ref) (f : Container V E → Container V E)
      → ((c : Container V E) → (f c).state ≡ c.state)
      → Keeps Sees (update i f)
  update-Sees i f k =
      update-Keeps Sees i f
        (λ r c e h. ap (λ ls. record (view r) { lives = ls }) (lives-set f k r.containers i e) ∙ h)

  pub start_task_locked-Sees : (i : Ref) (name : Name) → Keeps Sees (start_task_locked i name)
  unfolding start_task_locked
  start_task_locked-Sees i name = search (keeps_rules, update-Sees)

  run_in-Sees : (s : ContainerState) (i : Ref) (name : Name) → Keeps Sees (run_in s i name)
  unfolding run_in
  run_in-Sees container_setup i name = search (keeps_rules, update-Sees)
  run_in-Sees container_initializing i name = search (keeps_rules, update-Sees)
  run_in-Sees container_starting i name = search (keeps_rules, start_task_locked-Sees)
  run_in-Sees container_initialized i name = search (keeps_rules)
  run_in-Sees container_running i name = search (keeps_rules)
  run_in-Sees container_stopping i name = search (keeps_rules)
  run_in-Sees container_stopped i name = search (keeps_rules)

  ruleset sees_rules =
      (keeps_rules, update-Sees, container-Keeps, start_task_locked-Sees, run_in-Sees)

  set_global-Sees : (t : RType) (a : Option V) → Keeps Sees (set_global t a)
  unfolding set_global
  set_global-Sees t a = search sees_rules

  found_value-Sees : (t : RType) (o : Option (RType × Option V)) → Keeps Sees (found_value t o)
  found_value-Sees t none = search sees_rules
  found_value-Sees t (some a) = search sees_rules

  get_global-Sees : (t : RType) → Keeps Sees (get_global t)
  unfolding get_global get_try_global
  get_global-Sees t = search (sees_rules, found_value-Sees)

  get-Sees : (i : Ref) (t : RType) → Keeps Sees (get i t)
  unfolding get get_try
  get-Sees i t = search (sees_rules, found_value-Sees)

  set_local-Sees : (i : Ref) (t : RType) (a : Option V) → Keeps Sees (set_local i t a)
  unfolding set_local
  set_local-Sees i t a = search sees_rules

  attach-Sees : is_runtime_setup v.state ≡ false → (name : Name) → Keeps Sees (attach name)
  unfolding attach
  attach-Sees w name = Keeps-guard (is_empty name) _ (λ _. record {
    at = λ r h.
        (Keeps-panics {P = Sees} _ _ (ap (λ u. not (is_runtime_setup u.state)) h ∙ ap not w)).at r
          h;
  })

  call-Sees : is_runtime_setup v.state ≡ false → (c : Call V E) → Keeps Sees (call c)
  unfolding call run_task on_init on_start on_stop on_stopping get_try_global get_try
  call-Sees w (attach_call name) = search (sees_rules, attach-Sees)
  call-Sees w (set_global_call t a) = search (sees_rules, set_global-Sees)
  call-Sees w (get_global_call t) = search (sees_rules, get_global-Sees)
  call-Sees w (get_try_global_call t) = search (sees_rules, found_value-Sees)
  call-Sees w (on_init_call i name p) = search sees_rules depth 9
  call-Sees w (on_start_call i name p) = search sees_rules depth 9
  call-Sees w (on_stop_call i name p) = search sees_rules depth 9
  call-Sees w (on_stopping_call i name p) = search sees_rules depth 9
  call-Sees w (run_call i name) = search sees_rules
  call-Sees w (set_call i t a) = search (sees_rules, set_local-Sees)
  call-Sees w (get_call i t) = search (sees_rules, get-Sees)
  call-Sees w (get_try_call i t) = search (sees_rules, found_value-Sees)

  module _ (is_canceled : E → Bool) (w : is_runtime_setup v.state ≡ false) where
    report-Sees : (o : Option (Option (Error E))) (k : ℕ) → Keeps Sees (report o k)
    report-Sees none k = search sees_rules
    report-Sees (some result) k = search sees_rules

    task_exits-Sees :
        (i : Ref) (name : Name) (err : Option E) → Keeps Sees (task_exits is_canceled i name err)
    unfolding task_exits stop_task
    task_exits-Sees i name err = search sees_rules depth 9

    happen-Sees : (e : Event V E) → Keeps Sees (happen is_canceled e)
    unfolding happen
    happen-Sees (exits i name err) = task_exits-Sees i name err
    happen-Sees (reports k) = search (sees_rules, report-Sees)
    happen-Sees (parent_ends c) = search sees_rules
    happen-Sees ctx_ends = search sees_rules
    happen-Sees (task_calls c) = search (sees_rules, call-Sees)

    happen_all-Sees : (es : List (Event V E)) → Keeps Sees (happen_all is_canceled es)
    unfolding happen_all
    happen_all-Sees [] = search sees_rules
    happen_all-Sees (e ∷ es) = Keeps-bind _ _ (happen-Sees e) (λ _. happen_all-Sees es)

    module _ (schedule : ℕ → List (Event V E)) where
      turn-Sees : Keeps Sees (turn is_canceled schedule)
      unfolding turn
      turn-Sees = search (sees_rules, happen_all-Sees)

      ctx_err-Sees : Keeps Sees (ctx_err is_canceled schedule)
      unfolding ctx_err
      ctx_err-Sees = search (sees_rules, turn-Sees)

      exec-Sees : (p : Program V E) → Keeps Sees (exec is_canceled schedule p)
      unfolding exec
      exec-Sees (returns err) = search sees_rules
      exec-Sees (calls c k) =
          Keeps-bind _ _ turn-Sees
            (λ _. Keeps-bind _ _ (call-Sees w c) (λ reply. exec-Sees (k reply)))

-- The runtime has left its setup, and `Q` holds of what calls leave alone.
abbrev pub Under {ℓ κ} : {V E : Type ℓ} → (View E → Type κ) → Runtime V E → Type κ
Under Q r = (is_runtime_setup r.state ≡ false) × Q (view r)

module _ {ℓ κ α} {V E : Type ℓ} {A : Type α} (Q : View E → Type κ) where
  pub framed :
      (m : Action V E A)
      → ((v : View E) → is_runtime_setup v.state ≡ false → Keeps (Sees v) m)
      → Keeps (Under Q) m
  framed m k = record {
    at = λ r h.
        let same = (k (view r) h.0).at r refl in
        (ap (λ v. is_runtime_setup v.state) same ∙ h.0, subst Q (sym same) h.1);
  }

module _ {ℓ κ} {V E : Type ℓ} (is_canceled : E → Bool) (schedule : ℕ → List (Event V E))
    (Q : View E → Type κ) where
  pub turn-Under : Keeps (Under Q) (turn is_canceled schedule)
  turn-Under = framed Q _ (λ v w. turn-Sees v is_canceled w schedule)

  pub ctx_err-Under : Keeps (Under Q) (ctx_err is_canceled schedule)
  ctx_err-Under = framed Q _ (λ v w. ctx_err-Sees v is_canceled w schedule)

  pub exec-Under : (p : Program V E) → Keeps (Under Q) (exec is_canceled schedule p)
  exec-Under p = framed Q _ (λ v w. exec-Sees v is_canceled w schedule p)
