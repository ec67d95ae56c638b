-- ===== src/Runtime/Invariant/Calls.antt =====
-- runtime.go: calls and other goroutines keep a Runtime well formed.
use gx.Base.{
  ◌≡◌, refl, ap, ◌∙◌, sym, subst, Bool, true, false, not, ◌||◌, Option, none, some, List, [], ◌∷◌,
  ◌++◌, length, length-append, if◌then◌else◌, Bool-cases, inl, inr, arith,
}
use gx.Base.Exec.{pure, gets, modify, panic_if, ◌>>◌}
use gx.Base.Exec.Keeps.{
  Keeps, Keeps-guard, Keeps-reads, Keeps-bind, Keeps-if, Keeps-pure, Keeps-or_panic, Keeps-gets,
  Keeps-panic_if, Keeps-option, Keeps-modify, Keeps-block_unless, keeps_rules,
}
use gx.Dict.{found, nat_eq, insert, lookup, list_eq}
use gx.Runtime.Types.{
  Name, RType, Ref, ContainerState, container_setup, container_initializing, container_initialized,
  container_starting, container_running, container_stopping, container_stopped, Call, attach_call,
  set_global_call, get_global_call, get_try_global_call, on_init_call, on_start_call, on_stop_call,
  on_stopping_call, run_call, set_call, get_call, get_try_call, Store, Container, Runtime,
}
use gx.Runtime.Store.{store_set}
use gx.Runtime.Calls.{
  Action, takes_globals, takes_hooks, is_starting, is_runtime_setup, is_empty, new_container,
  has_name, found_value, update, attach, set_global, get_global, get_try_global, on_init, on_start,
  on_stop, on_stopping, start_task_locked, run_in, run_task, set_local, get_try, get, call,
}
use gx.Runtime.Keeps.{container-Keeps, with_container}
use gx.Runtime.Invariant.{
  AllSound-get, AllSound-set, AllSound-snoc, AreNamed-snoc, AreNamed-set, IsTyped, insert-IsTyped,
  IsSound, WellFormed, update-WellFormed, elsewhere-WellFormed,
}

module _ {ℓ} {V : Type ℓ} where
  store_set-IsTyped :
      (m : Store V) (t : RType) (v : Option V) → IsTyped m → IsTyped (store_set m t v).1
  unfolding store_set
  store_set-IsTyped m t v h = elim (Bool-cases (found (lookup t m))) [
    | inl q ↦ subst IsTyped (sym (ap after q)) h
    | inr q ↦ subst IsTyped (sym (ap after q)) (insert-IsTyped t v m h)
  ]
    where
      after : Bool → Store V
      after b = let p : Bool × Store V = if b then (false, m) else (true, insert t (t, v) m) in p.1

module _ {ℓ} {V E : Type ℓ} where
  -- A Container with the same tasks and dependencies.
  pub alike-IsSound :
      {c d : Container V E}
      → d.wg ≡ c.wg
      → d.running ≡ c.running
      → d.store ≡ c.store
      → IsSound c
      → IsSound d
  alike-IsSound p q s h = record {
    counted = p ∙ h.counted ∙ ap length (sym q);
    typed = subst IsTyped (sym s) h.typed;
  }

  pub start_task_locked-WellFormed :
      (i : Ref) (name : Name) → Keeps WellFormed (start_task_locked {V = V} {E = E} i name)
  unfolding start_task_locked
  start_task_locked-WellFormed i name =
      Keeps-bind _ _
        (update-WellFormed i _
          (λ c h. record {
            counted = omega (arith, h.counted, length-append c.running (name ∷ []));
            typed = h.typed;
          })
          (λ c. refl))
        (λ _. elsewhere-WellFormed _ (λ r. refl) (λ r. refl))

  pub ruleset wf_rules = (
    Keeps-pure, Keeps-or_panic, Keeps-gets, Keeps-panic_if, Keeps-bind, Keeps-if, Keeps-option,
    Keeps-block_unless, update-WellFormed, elsewhere-WellFormed, container-Keeps, alike-IsSound,
    start_task_locked-WellFormed,
  )

  run_in-WellFormed :
      (s : ContainerState) (i : Ref) (name : Name)
      → Keeps WellFormed (run_in {V = V} {E = E} s i name)
  unfolding run_in
  run_in-WellFormed container_setup i name = search wf_rules
  run_in-WellFormed container_initializing i name = search wf_rules
  run_in-WellFormed container_starting i name = search wf_rules
  run_in-WellFormed container_initialized i name = search wf_rules
  run_in-WellFormed container_running i name = search wf_rules
  run_in-WellFormed container_stopping i name = search wf_rules
  run_in-WellFormed container_stopped i name = search wf_rules

  set_global-WellFormed :
      (t : RType) (v : Option V) → Keeps WellFormed (set_global {V = V} {E = E} t v)
  unfolding set_global
  set_global-WellFormed t v = Keeps-bind (gets (λ r. r.state)) _ (Keeps-gets _) (λ state.
      Keeps-bind (panic_if (not (takes_globals state))) _ (Keeps-panic_if _)
        (λ _. Keeps-reads (λ r. r.store) store_new (λ r w. (stored r.store w.typed).at r w)))
    where
      store_new : Store V → Action V E (Unit {0})
      store_new m =
          panic_if (not (store_set m t v).0)
          >> modify (λ r. record r { store = (store_set m t v).1 })

      stored :
          (m : Store V)
          → IsTyped m
          → Keeps (WellFormed {V = V} {E = E}) (
              panic_if (not (store_set m t v).0)
              >> modify (λ r. record r { store = (store_set m t v).1 }))
      stored m h = Keeps-bind _ _ (Keeps-panic_if _) (λ _.
          Keeps-modify _
            (λ r w. record { sound = w.sound; named = w.named; typed = store_set-IsTyped m t v h }))

  set_local-WellFormed :
      (i : Ref) (t : RType) (v : Option V) → Keeps WellFormed (set_local {V = V} {E = E} i t v)
  unfolding set_local
  set_local-WellFormed i t v =
      with_container WellFormed i _
        (λ r c e w. (stored c (AllSound-get r.containers i w.sound e).typed).at r w)
    where
      stored :
          (c : Container V E)
          → IsTyped c.store
          → Keeps (WellFormed {V = V} {E = E}) (
              panic_if (not (takes_hooks c.state || is_starting c.state))
              >> (panic_if (not (store_set c.store t v).0)
                  >> update i (λ c'. record c' { store = (store_set c.store t v).1 })))
      stored c h =
          Keeps-bind _ _ (Keeps-panic_if (not (takes_hooks c.state || is_starting c.state))) (λ _.
            Keeps-bind _ _ (Keeps-panic_if (not (store_set c.store t v).0)) (λ _.
              update-WellFormed i (λ d. record d { store = (store_set c.store t v).1 })
                (λ d s. record { counted = s.counted; typed = store_set-IsTyped c.store t v h })
                (λ d. refl)))

  attach-WellFormed : (name : Name) → Keeps WellFormed (attach {V = V} {E = E} name)
  unfolding attach
  attach-WellFormed name = Keeps-guard (is_empty name) _ (λ ne.
      Keeps-bind (gets (λ r. r.state)) _ (Keeps-gets _) (λ state.
        Keeps-bind (panic_if (not (is_runtime_setup state))) _ (Keeps-panic_if _) (λ _.
          Keeps-reads (λ r. r.containers) append_new
            (λ r w. go ne r w (has_name name r.containers) refl))))
    where
      append_new : List (Container V E) → Action V E Ref
      append_new containers =
          panic_if (has_name name containers)
          >> (modify (λ r'. record r' { containers = r'.containers ++ new_container name ∷ [] })
              >> pure (length containers))

      go :
          is_empty name ≡ false
          → (r : Runtime V E) → WellFormed r
          → (b : Bool) → has_name name r.containers ≡ b
          → WellFormed
              ((panic_if b
                  >> (modify
                        (λ r'. record r' { containers = r'.containers ++ new_container name ∷ [] })
                      >> pure (length r.containers)))
                r).1
      go ne r w true e = w
      go ne r w false e = record {
        sound =
            AllSound-snoc r.containers (new_container name) w.sound
              (record { counted = refl; typed = tt });
        named = AreNamed-snoc r.containers (new_container name) ne e w.named;
        typed = w.typed;
      }

  found_value-WellFormed :
      (t : RType) (o : Option (RType × Option V)) → Keeps WellFormed (found_value {E = E} t o)
  found_value-WellFormed t none = search wf_rules
  found_value-WellFormed t (some a) = search wf_rules

  get_global-WellFormed : (t : RType) → Keeps WellFormed (get_global {V = V} {E = E} t)
  unfolding get_global get_try_global
  get_global-WellFormed t = search (wf_rules, found_value-WellFormed)

  get-WellFormed : (i : Ref) (t : RType) → Keeps WellFormed (get {V = V} {E = E} i t)
  unfolding get get_try
  get-WellFormed i t = search (wf_rules, found_value-WellFormed)

  pub call-WellFormed : (c : Call V E) → Keeps WellFormed (call c)
  unfolding call run_task on_init on_start on_stop on_stopping get_try_global get_try
  call-WellFormed (attach_call name) = search (wf_rules, attach-WellFormed)
  call-WellFormed (set_global_call t a) = search (wf_rules, set_global-WellFormed)
  call-WellFormed (get_global_call t) = search (wf_rules, get_global-WellFormed)
  call-WellFormed (get_try_global_call t) = search (wf_rules, found_value-WellFormed)
  call-WellFormed (on_init_call i name p) = search wf_rules depth 10
  call-WellFormed (on_start_call i name p) = search wf_rules depth 10
  call-WellFormed (on_stop_call i name p) = search wf_rules depth 10
  call-WellFormed (on_stopping_call i name p) = search wf_rules depth 10
  call-WellFormed (run_call i name) = search (wf_rules, run_in-WellFormed)
  call-WellFormed (set_call i t a) = search (wf_rules, set_local-WellFormed)
  call-WellFormed (get_call i t) = search (wf_rules, get-WellFormed)
  call-WellFormed (get_try_call i t) = search (wf_rules, found_value-WellFormed)
