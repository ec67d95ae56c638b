-- ===== src/Runtime/Quiet/Rules.antt =====
-- runtime.go: rules on how many tasks a Container has at work in each state, and what changes them.
use gx.Base.{◌≡◌, refl, ℕ, true, false, Option, none, some, List, [], ◌∷◌, get_elem?, arith}
use gx.Base.Exec.{modify, or_panic, ◌>>=◌}
use gx.Base.Exec.Keeps.{Keeps, Keeps-bind}
use gx.Base.Exec.Ensures.{After, Ensures}
use gx.Runtime.Types.{
  Name, Ref, ContainerState, container_starting, container_stopping, container_stopped, Container,
  Runtime,
}
use gx.Runtime.Calls.{container, update}
use gx.Runtime.Lifecycle.{set_state, start_tasks}
use gx.Runtime.Settled.{is_settled}
use gx.Runtime.Keeps.{put}
use gx.Runtime.Quiet.{
  Rule, Quiet, IsSteady, put-Quiet, update-Quiet, quiet_rules, start_task_locked-Quiet,
}

-- No task is at work in a Container that was never initialized, or is stopped.
abbrev pub Resting : Rule
Resting j s w = is_settled s ≡ true → w ≡ 0

-- The Container at a place is in a state.
abbrev pub InState : Ref → ContainerState → Rule
InState i t j s w = Resting j s w × (j ≡ i → s ≡ t)

-- It is stopping, and no task of it is at work.
abbrev pub Drained : Ref → Rule
Drained i j s w = Resting j s w × (j ≡ i → (s ≡ container_stopping) × (w ≡ 0))

pub Resting-IsSteady : IsSteady Resting
Resting-IsSteady = record {
  falls = λ j s w h e. omega (arith, h e);
  rises = λ j w h e. absurd (cc);
}

pub stopping-IsSteady : (i : Ref) → IsSteady (InState i container_stopping)
stopping-IsSteady i = record {
  falls = λ j s w h. (λ e. omega (arith, h.0 e), h.1);
  rises = λ j w h. (λ e. absurd (cc), h.1);
}

pub starting-IsSteady : (i : Ref) → IsSteady (InState i container_starting)
starting-IsSteady i = record {
  falls = λ j s w h. (λ e. omega (arith, h.0 e), h.1);
  rises = λ j w h. (λ e. absurd (cc), h.1);
}

pub Drained-IsSteady : (i : Ref) → IsSteady (Drained i)
Drained-IsSteady i = record {
  falls = λ j s w h. (λ e. omega (arith, h.0 e), λ p. ((h.1 p).0, omega (arith, (h.1 p).1)));
  rises = λ j w h. (λ e. absurd (cc), λ p. absurd (let q = (h.1 p).0 in cc));
}

module _ {ℓ} {V E : Type ℓ} where
  -- A write to one Container may change the rule for it.
  pub update-Ensures :
      {P Q : Rule} (i : Ref) (f : Container V E → Container V E)
      → ((j : ℕ) (s : ContainerState) (w : ℕ) → ¬ (j ≡ i) → P j s w → Q j s w)
      → ((c : Container V E) → P i c.state c.wg → Q i (f c).state (f c).wg)
      → Ensures (Quiet P) (update i f) (λ _. Quiet Q)
  unfolding update container
  update-Ensures {P} {Q} i f h k = record { at = λ r u. after r u (get_elem? r.containers i) refl }
    where
      after :
          (r : Runtime V E)
          → Quiet P r
          → (o : Option (Container V E)) → get_elem? r.containers i ≡ o
          → After
              (λ _. Quiet Q)
              ((or_panic o >>= λ c. modify (put i (f c))) r).0
              ((or_panic o >>= λ c. modify (put i (f c))) r).1
      after r u none e = tt
      after r u (some c) e = put-Quiet i (f c) r h (k c (u.each i c e)) u

  pub set_state-Resting :
      (i : Ref) (t : ContainerState)
      → is_settled t ≡ false
      → Keeps (Quiet Resting) (set_state {V = V} {E = E} i t)
  unfolding set_state
  set_state-Resting i t h = update-Quiet i _ (λ c q e. absurd (cc))

  pub set_state-InState :
      (i : Ref) (t : ContainerState)
      → is_settled t ≡ false
      → Ensures (Quiet Resting) (set_state {V = V} {E = E} i t) (λ _. Quiet (InState i t))
  unfolding set_state
  set_state-InState i t h =
      update-Ensures i _ (λ j s w n q. (q, λ p. absurd (n p)))
        (λ c q. (λ e. absurd (cc), λ p. refl))

  pub set_stopped-Resting :
      (i : Ref)
      → Ensures
          (Quiet (Drained i))
          (set_state {V = V} {E = E} i container_stopped)
          (λ _. Quiet Resting)
  unfolding set_state
  set_stopped-Resting i = update-Ensures i _ (λ j s w n q. q.0) (λ c q e. (q.1 refl).1)

  pub start_tasks-Quiet :
      (i : Ref) (ts : List Name)
      → Keeps (Quiet (InState i container_starting)) (start_tasks {V = V} {E = E} i ts)
  unfolding start_tasks
  start_tasks-Quiet i [] = search quiet_rules
  start_tasks-Quiet i (t ∷ ts) =
      Keeps-bind _ _
        (start_task_locked-Quiet i t (λ s w h. (λ e. absurd (let q = h.1 refl in cc), h.1)))
        (λ _. start_tasks-Quiet i ts)

  -- What is more is forgotten.
  pub forget :
      {P Q : Rule} (r : Runtime V E)
      → ((j : ℕ) (s : ContainerState) (w : ℕ) → P j s w → Q j s w)
      → Quiet P r
      → Quiet Q r
  forget r h u = record { begun = u.begun; each = λ j c e. h j c.state c.wg (u.each j c e) }
