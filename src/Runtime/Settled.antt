-- ===== src/Runtime/Settled.antt =====
-- runtime.go: the states of the Containers once `Run` has returned.
use gx.Base.{
  ◌≡◌, refl, ap, ◌∙◌, sym, subst, ℕ, zero, suc, Bool, true, false, ◌||◌, Option, none, some, List,
  [], ◌∷◌, ◌++◌, map, length, length-append, reverse, append_assoc, get_elem?, set, if◌then◌else◌,
  arith,
}
use mathlib.Core.List.{reverse-append}
use gx.Base.Exec.{pure, modify, or_panic, ◌>>=◌}
use gx.Base.Exec.Ensures.{After, Ensures, Ensures-pure, Ensures-bind, Ensures-kept, Ensures-weaken}
use gx.Runtime.Types.{
  Ref, Error, ContainerState, container_stopping, container_stopped, Container, stopping_phase,
  stop_phase, Runtime, Event,
}
use gx.Runtime.Calls.{Action, container, update, is_setup}
use gx.Runtime.Lifecycle.{is_stopped, set_state, stop_container, container_shutdown}
use gx.Runtime.Run.{refs_from, record_stop_err, shutdown_each}
use gx.Runtime.Keeps.{put}
use gx.Runtime.Frame.{View, lives, Under}
use gx.Runtime.Stages.{lives-put, stop_hooks-Under, wait_tasks-Under}

-- A Container that was never initialized, or is stopped.
abbrev pub is_settled : ContainerState → Bool
is_settled s = is_setup s || is_stopped s

abbrev pub AllSettled : List ContainerState → Type 0
AllSettled [] = Unit
AllSettled (s ∷ ls) = (is_settled s ≡ true) × AllSettled ls

abbrev settle : ContainerState → ContainerState
settle s = if is_settled s then s else container_stopped

abbrev settle_at : List ContainerState → ℕ → List ContainerState
settle_at [] i = []
settle_at (s ∷ ls) zero = settle s ∷ ls
settle_at (s ∷ ls) (suc i) = s ∷ settle_at ls i

abbrev settle_each : List ℕ → List ContainerState → List ContainerState
settle_each [] ls = ls
settle_each (i ∷ is) ls = settle_each is (settle_at ls i)

settle-AllSettled : (ls : List ContainerState) → AllSettled (map settle ls)
settle-AllSettled [] = tt
settle-AllSettled (s ∷ ls) = (ground arith, settle-AllSettled ls)

settle_each-append :
    (is js : List ℕ) (ls : List ContainerState)
    → settle_each (is ++ js) ls ≡ settle_each js (settle_each is ls)
settle_each-append [] js ls = refl
settle_each-append (i ∷ is) js ls = settle_each-append is js (settle_at ls i)

settle_at-append :
    (before ls : List ContainerState) (s : ContainerState)
    → settle_at (before ++ s ∷ ls) (length before) ≡ before ++ settle s ∷ ls
settle_at-append [] ls s = refl
settle_at-append (b ∷ before) ls s = ap (◌∷◌ b) (settle_at-append before ls s)

-- Each of them in turn, the last one first.
settle_each-reverse :
    (before ls : List ContainerState) (k : ℕ)
    → k ≡ length before
    → settle_each (reverse (refs_from k (length ls))) (before ++ ls) ≡ before ++ map settle ls
settle_each-reverse before [] k e = refl
settle_each-reverse before (s ∷ ls) k e =
    ap (λ is. settle_each is (before ++ s ∷ ls))
      (reverse-append (k ∷ []) (refs_from (suc k) (length ls)))
    ∙ settle_each-append (reverse (refs_from (suc k) (length ls))) (k ∷ []) (before ++ s ∷ ls)
    ∙ ap (λ l. settle_at l k)
        (ap (settle_each (reverse (refs_from (suc k) (length ls))))
            (sym (append_assoc before (s ∷ []) ls))
          ∙ settle_each-reverse (before ++ s ∷ []) ls (suc k)
              (omega (arith, e, length-append before (s ∷ [])))
          ∙ append_assoc before (s ∷ []) (map settle ls))
    ∙ ap (settle_at (before ++ s ∷ map settle ls)) e
    ∙ settle_at-append before (map settle ls) s

pub settle_each-AllSettled :
    (ls : List ContainerState) (n : ℕ)
    → length ls ≡ n
    → AllSettled (settle_each (reverse (refs_from 0 n)) ls)
settle_each-AllSettled ls n e =
    subst AllSettled
      (sym (settle_each-reverse [] ls 0 refl)
        ∙ ap (λ k. settle_each (reverse (refs_from 0 k)) ls) e)
      (settle-AllSettled ls)

settle_at_settled :
    (ls : List ContainerState) (i : ℕ) {s : ContainerState}
    → get_elem? ls i ≡ some s
    → is_settled s ≡ true
    → settle_at ls i ≡ ls
settle_at_settled [] i e h = refl
settle_at_settled (t ∷ ls) zero e h = ground arith
settle_at_settled (t ∷ ls) (suc i) e h = ap (◌∷◌ t) (settle_at_settled ls i e h)

settle_at_unsettled :
    (ls : List ContainerState) (i : ℕ) {s : ContainerState}
    → get_elem? ls i ≡ some s
    → is_settled s ≡ false
    → set (set ls i container_stopping) i container_stopped ≡ settle_at ls i
settle_at_unsettled [] i e h = refl
settle_at_unsettled (t ∷ ls) zero e h = ground arith
settle_at_unsettled (t ∷ ls) (suc i) e h = ap (◌∷◌ t) (settle_at_unsettled ls i e h)

module _ {ℓ} {V E : Type ℓ} where
  get_elem?-lives :
      (cs : List (Container V E)) (i : ℕ) {c : Container V E}
      → get_elem? cs i ≡ some c
      → get_elem? (lives cs) i ≡ some c.state
  get_elem?-lives [] i e = absurd (cc)
  get_elem?-lives (d ∷ cs) zero e = ground arith
  get_elem?-lives (d ∷ cs) (suc i) e = get_elem?-lives cs i e

  pub length-lives : (cs : List (Container V E)) → length (lives cs) ≡ length cs
  length-lives [] = refl
  length-lives (c ∷ cs) = ap suc (length-lives cs)

-- The states of the Containers, and whether the shutdown is under way.
abbrev pub Lives {ℓ} : {E : Type ℓ} → List ContainerState → Bool → View E → Type 0
Lives ls once v = (v.lives ≡ ls) × (v.shutdown_once ≡ once)

module _ {ℓ} {V E : Type ℓ} (is_canceled : E → Bool) (schedule : ℕ → List (Event V E))
    (once : Bool) where
  record_stop_err-Lives :
      (err : Option (Error E)) (ls : List ContainerState)
      → Ensures (Under (Lives ls once)) (record_stop_err {V = V} err) (λ _. Under (Lives ls once))
  unfolding record_stop_err
  record_stop_err-Lives err ls = record { at = λ r u. u }

  set_state-Lives :
      (i : Ref) (s : ContainerState) (ls : List ContainerState)
      → Ensures
          (Under (Lives ls once))
          (set_state {V = V} {E = E} i s)
          (λ _. Under (Lives (set ls i s) once))
  unfolding set_state update container
  set_state-Lives i s ls = record { at = λ r u. after r (get_elem? r.containers i) u }
    where
      after :
          (r : Runtime V E) (o : Option (Container V E))
          → Under (Lives ls once) r
          → After
              (λ a. Under (Lives (set ls i s) once))
              ((or_panic o >>= λ c. modify (put i (record c { state = s }))) r).0
              ((or_panic o >>= λ c. modify (put i (record c { state = s }))) r).1
      after r none u = tt
      after r (some c) u = (
        u.0,
        (lives-put r.containers i (record c { state = s }) ∙ ap (λ l. set l i s) u.1.0, u.1.1),
      )

  stop_container-Lives :
      (i : Ref) (c : Container V E) (ls : List ContainerState)
      → Ensures
          (Under (Lives ls once))
          (stop_container is_canceled schedule i c)
          (λ _. Under (Lives (set (set ls i container_stopping) i container_stopped) once))
  unfolding stop_container
  stop_container-Lives i c ls = Ensures-bind _ _ (set_state-Lives i container_stopping ls) (λ _.
      Ensures-bind _ _
        (Ensures-kept (
          stop_hooks-Under now is_canceled schedule c.name stopping_phase (λ v message step h. h)
            (reverse c.stopping_fns) none))
        (λ first.
          Ensures-bind _ _ (Ensures-kept (wait_tasks-Under now is_canceled schedule i)) (λ _.
            Ensures-bind _ _
              (Ensures-kept (
                stop_hooks-Under now is_canceled schedule c.name stop_phase (λ v message step h. h)
                  (reverse c.stop_fns) first))
              (λ err.
                Ensures-bind _ _ (set_state-Lives i container_stopped (set ls i container_stopping))
                  (λ _. Ensures-pure err (λ r h. h))))))
    where
      now : View E → Type 0
      now = Lives (set ls i container_stopping) once

  container_shutdown-Lives :
      (i : Ref) (ls : List ContainerState)
      → Ensures
          (Under (Lives ls once))
          (container_shutdown is_canceled schedule i)
          (λ _. Under (Lives (settle_at ls i) once))
  unfolding container_shutdown container
  container_shutdown-Lives i ls = record { at = λ r u. after r u (get_elem? r.containers i) refl }
    where
      finish : Container V E → Bool → Action V E (Option (Error E))
      finish c b = if b then pure none else stop_container is_canceled schedule i c

      branch :
          (r : Runtime V E)
          → Under (Lives ls once) r
          → (c : Container V E) → get_elem? ls i ≡ some c.state
          → (b : Bool) → is_settled c.state ≡ b
          → After (λ a. Under (Lives (settle_at ls i) once)) (finish c b r).0 (finish c b r).1
      branch r u c e true h = (u.0, (u.1.0 ∙ sym (settle_at_settled ls i e h), u.1.1))
      branch r u c e false h =
          (Ensures-weaken (stop_container-Lives i c ls)
              (λ err r' q. (q.0, (q.1.0 ∙ settle_at_unsettled ls i e h, q.1.1)))).at
            r u

      after :
          (r : Runtime V E)
          → Under (Lives ls once) r
          → (o : Option (Container V E)) → get_elem? r.containers i ≡ o
          → After
              (λ a. Under (Lives (settle_at ls i) once))
              ((or_panic o >>= λ c. finish c (is_settled c.state)) r).0
              ((or_panic o >>= λ c. finish c (is_settled c.state)) r).1
      after r u none e = tt
      after r u (some c) e =
          branch r u c (ap (λ l. get_elem? l i) (sym u.1.0) ∙ get_elem?-lives r.containers i e)
            (is_settled c.state) refl

  pub shutdown_each-Lives :
      (is : List Ref) (ls : List ContainerState)
      → Ensures
          (Under (Lives ls once))
          (shutdown_each is_canceled schedule is)
          (λ _. Under (Lives (settle_each is ls) once))
  unfolding shutdown_each
  shutdown_each-Lives [] ls = Ensures-pure tt (λ r u. u)
  shutdown_each-Lives (i ∷ is) ls = Ensures-bind _ _ (container_shutdown-Lives i ls) (λ err.
      Ensures-bind _ _ (record_stop_err-Lives err (settle_at ls i))
        (λ _. shutdown_each-Lives is (settle_at ls i)))
