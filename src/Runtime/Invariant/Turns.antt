-- ===== src/Runtime/Invariant/Turns.antt =====
-- runtime.go: what happens between the calls of a hook keeps a Runtime well formed.
use gx.Base.{
  ◌≡◌, refl, ap, sym, subst, ℕ, zero, suc, ◌-◌, Bool, true, false, Option, none, some, List, [],
  ◌∷◌, ◌++◌, length, get_elem?, set, if◌then◌else◌, arith,
}
use gx.Base.Exec.{pure, modify, ◌>>◌}
use gx.Base.Exec.Keeps.{Keeps, Keeps-bind}
use gx.Dict.{list_eq}
use gx.Runtime.Types.{
  Name, Ref, Error, Program, returns, calls, Container, Runtime, Event, exits, reports, parent_ends,
  ctx_ends, task_calls,
}
use gx.Runtime.Calls.{Action, container, update}
use gx.Runtime.Turns.{
  delete_first, is_listed, stop_task, report, task_result, task_exits, happen, happen_all, turn,
  ctx_err, exec,
}
use gx.Runtime.Keeps.{put, with_container}
use gx.Runtime.Invariant.{AllSound-get, AllSound-set, AreNamed-set, WellFormed}
use gx.Runtime.Invariant.Calls.{wf_rules, call-WellFormed}
use gx.Runtime.Deps.{get_elem?-set}

length-delete_first :
    (name : Name) (ns : List Name)
    → is_listed name ns ≡ true
    → suc (length (delete_first name ns)) ≡ length ns
length-delete_first name [] h = absurd (cc)
length-delete_first name (n ∷ ns) h = ground (arith, length-delete_first name ns)

set-set {ℓ} : {A : Type ℓ} (xs : List A) (i : ℕ) (a b : A) → set (set xs i a) i b ≡ set xs i b
set-set [] i a b = refl
set-set (x ∷ xs) zero a b = refl
set-set (x ∷ xs) (suc i) a b = ap (◌∷◌ x) (set-set xs i a b)

module _ {ℓ} {V E : Type ℓ} where
  -- One write after the other.
  update-update :
      (i : Ref) (f g : Container V E → Container V E) (m : Action V E (Unit {0})) (r : Runtime V E)
      {c : Container V E}
      → get_elem? r.containers i ≡ some c
      → (update i f >> (update i g >> m)) r ≡ m (put i (g (f c)) r)
  unfolding update container
  update-update i f g m r {c} e =
      simp (e, get_elem?-set r.containers i (f c) e, set-set r.containers i (f c) (g (f c)))

module _ {ℓ} {V E : Type ℓ} (is_canceled : E → Bool) where
  task_exits-WellFormed :
      (i : Ref) (name : Name) (err : Option E)
      → Keeps (WellFormed {V = V}) (task_exits is_canceled i name err)
  unfolding task_exits stop_task
  task_exits-WellFormed i name err =
      with_container WellFormed i _ (λ r c e w. go r c e w (is_listed name c.running) refl)
    where
      exited : Container V E → Container V E
      exited c = record c { running = delete_first name c.running; wg = c.wg - 1 }

      done_with : Name → Bool → Action V E (Unit {0})
      done_with n ctx_done = modify (λ r. record r {
        reporting = r.reporting ++ task_result is_canceled n name ctx_done err ∷ [];
      })

      go :
          (r : Runtime V E) (c : Container V E)
          → get_elem? r.containers i ≡ some c
          → WellFormed r
          → (b : Bool) → is_listed name c.running ≡ b
          → WellFormed
              ((if b
                  then (update i (λ c. record c { running = delete_first name c.running })
                      >> (update i (λ c. record c { wg = c.wg - 1 })
                          >> done_with c.name r.ctx_done))
                  else pure tt)
                r).1
      go r c e w false q = w
      go r c e w true q =
          subst (λ p. WellFormed p.1) (sym (update-update i _ _ (done_with c.name r.ctx_done) r e))
            (record {
              sound = AllSound-set r.containers i w.sound (record {
                counted = omega (
                  arith,
                  (AllSound-get r.containers i w.sound e).counted,
                  length-delete_first name c.running q,
                );
                typed = (AllSound-get r.containers i w.sound e).typed;
              });
              named = AreNamed-set r.containers i (exited c) e refl w.named;
              typed = w.typed;
            })

  report-WellFormed :
      (o : Option (Option (Error E))) (k : ℕ) → Keeps (WellFormed {V = V}) (report o k)
  report-WellFormed none k = search wf_rules
  report-WellFormed (some result) k = search wf_rules

  happen-WellFormed : (e : Event V E) → Keeps WellFormed (happen is_canceled e)
  unfolding happen
  happen-WellFormed (exits i name err) = task_exits-WellFormed i name err
  happen-WellFormed (reports k) = search (wf_rules, report-WellFormed)
  happen-WellFormed (parent_ends c) = search wf_rules
  happen-WellFormed ctx_ends = search wf_rules
  happen-WellFormed (task_calls c) = search (wf_rules, call-WellFormed)

  happen_all-WellFormed : (es : List (Event V E)) → Keeps WellFormed (happen_all is_canceled es)
  unfolding happen_all
  happen_all-WellFormed [] = search wf_rules
  happen_all-WellFormed (e ∷ es) =
      Keeps-bind _ _ (happen-WellFormed e) (λ _. happen_all-WellFormed es)

module _ {ℓ} {V E : Type ℓ} (is_canceled : E → Bool) (schedule : ℕ → List (Event V E)) where
  pub turn-WellFormed : Keeps WellFormed (turn is_canceled schedule)
  unfolding turn
  turn-WellFormed = search (wf_rules, happen_all-WellFormed)

  pub ctx_err-WellFormed : Keeps WellFormed (ctx_err is_canceled schedule)
  unfolding ctx_err
  ctx_err-WellFormed = search (wf_rules, turn-WellFormed)

  pub exec-WellFormed : (p : Program V E) → Keeps WellFormed (exec is_canceled schedule p)
  unfolding exec
  exec-WellFormed (returns err) = search wf_rules
  exec-WellFormed (calls c k) =
      Keeps-bind _ _ turn-WellFormed
        (λ _. Keeps-bind _ _ (call-WellFormed c) (λ reply. exec-WellFormed (k reply)))
