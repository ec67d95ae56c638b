-- ===== src/Runtime/Quiet.antt =====
-- runtime.go: how many tasks the Containers have at work, by their states, while calls are made.
pub mod Turns
pub mod Rules
pub mod Containers
pub mod Run
use gx.Base.{
  ◌≡◌, refl, ap, ◌∙◌, sym, subst, ◌⊎◌, inl, inr, ◌++◌, ℕ, zero, suc, ◌+◌, ◌-◌, Bool, true, false,
  not, Option, none, some, List, [], ◌∷◌, length, get_elem?, set, arith,
}
use gx.Base.Exec.{modify, or_panic, ◌>>=◌, ◌>>◌}
use gx.Runner
use gx.Base.Exec.Keeps.{
  Keeps, Keeps-guard, Keeps-panics, Keeps-reads, Keeps-bind, Keeps-modify, keeps_rules,
}
use gx.Dict.{list_eq}
use gx.Runtime.Types.{
  Name, RType, Ref, ContainerState, container_setup, container_initializing, container_initialized,
  container_starting, container_running, container_stopping, container_stopped, Call, attach_call,
  set_global_call, get_global_call, get_try_global_call, on_init_call, on_start_call, on_stop_call,
  on_stopping_call, run_call, set_call, get_call, get_try_call, Container, Runtime,
}
use gx.Runtime.Calls.{
  Action, is_runtime_setup, is_empty, found_value, container, update, attach, set_global,
  get_global, get_try_global, on_init, on_start, on_stop, on_stopping, start_task_locked, run_in,
  run_task, set_local, get_try, get, call,
}
use gx.Runtime.Keeps.{put, container-Keeps, with_container, update-Keeps}

get_elem?-set_cases {ℓ} :
    {A : Type ℓ} (xs : List A) (i j : ℕ) (y : A) {c : A}
    → get_elem? (set xs i y) j ≡ some c
    → ((j ≡ i) × (y ≡ c)) ⊎ ((¬ (j ≡ i)) × (get_elem? xs j ≡ some c))
get_elem?-set_cases [] i j y e = absurd (cc)
get_elem?-set_cases (x ∷ xs) zero zero y e = inl (refl, ground arith)
get_elem?-set_cases (x ∷ xs) zero (suc j) y e = inr (λ q. omega (arith, q), e)
get_elem?-set_cases (x ∷ xs) (suc i) zero y e = inr (λ q. omega (arith, q), e)
get_elem?-set_cases (x ∷ xs) (suc i) (suc j) y e = elim (get_elem?-set_cases xs i j y e) [
  | inl (p, q) ↦ inl (ap suc p, q)
  | inr (n, q) ↦ inr (λ p. n (omega (arith, p)), q)
]

-- What is said of a Container's place, its state and the number of its tasks.
abbrev pub Rule : Type 1
Rule = ℕ → ContainerState → ℕ → Type 0

module _ {ℓ} {V E : Type ℓ} where
  -- The runtime has left its setup, and each Container follows the rule.
  pub record Quiet (Q : Rule) (r : Runtime V E) : Type ℓ where
    pub begun : is_runtime_setup r.state ≡ false
    pub each : (j : ℕ) (c : Container V E) → get_elem? r.containers j ≡ some c → Q j c.state c.wg

  -- A Container is replaced, which the rule may change for.
  pub put-Quiet :
      {P Q : Rule} (i : Ref) (d : Container V E) (r : Runtime V E)
      → ((j : ℕ) (s : ContainerState) (w : ℕ) → ¬ (j ≡ i) → P j s w → Q j s w)
      → Q i d.state d.wg
      → Quiet P r
      → Quiet Q (put i d r)
  put-Quiet {Q = Q} i d r h q u = record {
    begun = u.begun;
    each = λ j c e. elim (get_elem?-set_cases r.containers i j d e) [
      | inl (p, same) ↦ subst (λ k. Q k c.state c.wg) (sym p) (subst (λ b. Q i b.state b.wg) same q)
      | inr (n, e') ↦ h j c.state c.wg n (u.each j c e')
    ];
  }

-- The number of tasks may fall at any time, and rise while the Container starts.
pub record IsSteady (Q : Rule) : Type 0 where
  pub falls : (j : ℕ) (s : ContainerState) (w : ℕ) → Q j s w → Q j s (w - 1)
  pub rises : (j : ℕ) (w : ℕ) → Q j container_starting w → Q j container_starting (w + 1)

module _ {ℓ} {V E : Type ℓ} {Q : Rule} where
  pub update-Quiet :
      (i : Ref) (f : Container V E → Container V E)
      → ((c : Container V E) → Q i c.state c.wg → Q i (f c).state (f c).wg)
      → Keeps (Quiet Q) (update i f)
  update-Quiet i f h =
      update-Keeps (Quiet Q) i f
        (λ r c e u. put-Quiet i (f c) r (λ j s w n q. q) (h c (u.each i c e)) u)

  -- What happens outside the Containers changes nothing of this.
  pub elsewhere-Quiet :
      (f : Runtime V E → Runtime V E)
      → ((r : Runtime V E) → (f r).containers ≡ r.containers)
      → ((r : Runtime V E)
          → is_runtime_setup r.state ≡ false
          → is_runtime_setup (f r).state ≡ false)
      → Keeps (Quiet Q) (modify f)
  elsewhere-Quiet f same begun = Keeps-modify f (λ r u. record {
    begun = begun r u.begun;
    each = λ j c e. u.each j c (ap (λ cs. get_elem? cs j) (sym (same r)) ∙ e);
  })

  pub ruleset quiet_rules = (keeps_rules, update-Quiet, elsewhere-Quiet, container-Keeps)

  pub start_task_locked-Quiet :
      (i : Ref) (name : Name)
      → ((s : ContainerState) (w : ℕ) → Q i s w → Q i s (w + 1))
      → Keeps (Quiet Q) (start_task_locked {V = V} {E = E} i name)
  unfolding start_task_locked
  start_task_locked-Quiet i name h =
      Keeps-bind _ _ (update-Quiet i _ (λ c. h c.state c.wg))
        (λ _. elsewhere-Quiet _ (λ r. refl) (λ r b. b))

  start_starting :
      (i : Ref) (name : Name) (r : Runtime V E) (c : Container V E)
      → IsSteady Q
      → get_elem? r.containers i ≡ some c
      → c.state ≡ container_starting
      → Quiet Q r
      → Quiet Q (start_task_locked i name r).1
  unfolding start_task_locked update container
  start_starting i name r c k e s u =
      subst (λ o. Quiet Q (started o r).1) (sym e)
        (record { begun = after.begun; each = after.each })
    where
      grown : Container V E → Container V E
      grown c = record c { running = c.running ++ name ∷ []; wg = c.wg + 1 }

      started : Option (Container V E) → Action V E (Unit {0})
      started o =
          or_panic o
          >>= (λ c. modify (put i (grown c)))
          >> modify (λ r. record r { runner = Runner.start r.runner })

      after : Quiet Q (put i (grown c) r)
      after =
          put-Quiet i (grown c) r (λ j s w n q. q)
            (subst (λ s. Q i s (c.wg + 1)) (sym s)
              (k.rises i c.wg (subst (λ s. Q i s c.wg) s (u.each i c e))))
            u

  module _ (k : IsSteady Q) where
    run_in-Quiet :
        (i : Ref) (name : Name) (r : Runtime V E) (c : Container V E)
        → get_elem? r.containers i ≡ some c
        → Quiet Q r
        → (s : ContainerState) → c.state ≡ s
        → Quiet Q (run_in s i name r).1
    unfolding run_in
    run_in-Quiet i name r c e u container_setup p = (update-Quiet i _ (λ c q. q)).at r u
    run_in-Quiet i name r c e u container_initializing p = (update-Quiet i _ (λ c q. q)).at r u
    run_in-Quiet i name r c e u container_starting p = start_starting i name r c k e p u
    run_in-Quiet i name r c e u container_initialized p = u
    run_in-Quiet i name r c e u container_running p = u
    run_in-Quiet i name r c e u container_stopping p = u
    run_in-Quiet i name r c e u container_stopped p = u

    run_task-Quiet :
        (i : Ref) (name : Name) (given : Bool)
        → Keeps (Quiet Q) (run_task {V = V} {E = E} i name given)
    unfolding run_task
    run_task-Quiet i name given = Keeps-guard (is_empty name) _ (λ _.
        Keeps-guard (not given) _
          (λ _. with_container (Quiet Q) i _ (λ r c e u. run_in-Quiet i name r c e u c.state refl)))

    found_value-Quiet :
        (t : RType) (o : Option (RType × Option V)) → Keeps (Quiet {E = E} Q) (found_value t o)
    found_value-Quiet t none = search quiet_rules
    found_value-Quiet t (some a) = search quiet_rules

    set_global-Quiet : (t : RType) (v : Option V) → Keeps (Quiet Q) (set_global {E = E} t v)
    unfolding set_global
    set_global-Quiet t v = search quiet_rules

    get_global-Quiet : (t : RType) → Keeps (Quiet Q) (get_global {V = V} {E = E} t)
    unfolding get_global get_try_global
    get_global-Quiet t = search (quiet_rules, found_value-Quiet)

    get-Quiet : (i : Ref) (t : RType) → Keeps (Quiet Q) (get {V = V} {E = E} i t)
    unfolding get get_try
    get-Quiet i t = search (quiet_rules, found_value-Quiet)

    set_local-Quiet :
        (i : Ref) (t : RType) (v : Option V) → Keeps (Quiet Q) (set_local {E = E} i t v)
    unfolding set_local
    set_local-Quiet i t v = search quiet_rules depth 8

    attach-Quiet : (name : Name) → Keeps (Quiet Q) (attach {V = V} {E = E} name)
    unfolding attach
    attach-Quiet name =
        Keeps-guard (is_empty name) _
          (λ _. record { at = λ r u. (Keeps-panics {P = Quiet Q} _ _ (ap not u.begun)).at r u })

    pub call-Quiet : (c : Call V E) → Keeps (Quiet Q) (call c)
    unfolding call on_init on_start on_stop on_stopping get_try_global get_try
    call-Quiet (attach_call name) = search (quiet_rules, attach-Quiet)
    call-Quiet (set_global_call t a) = search (quiet_rules, set_global-Quiet)
    call-Quiet (get_global_call t) = search (quiet_rules, get_global-Quiet)
    call-Quiet (get_try_global_call t) = search (quiet_rules, found_value-Quiet)
    call-Quiet (on_init_call i name p) = search quiet_rules depth 9
    call-Quiet (on_start_call i name p) = search quiet_rules depth 9
    call-Quiet (on_stop_call i name p) = search quiet_rules depth 9
    call-Quiet (on_stopping_call i name p) = search quiet_rules depth 9
    call-Quiet (run_call i name) = search (quiet_rules, run_task-Quiet)
    call-Quiet (set_call i t a) = search (quiet_rules, set_local-Quiet)
    call-Quiet (get_call i t) = search (quiet_rules, get-Quiet)
    call-Quiet (get_try_call i t) = search (quiet_rules, found_value-Quiet)
