-- ===== src/Runtime/Shutdown.antt =====
-- runtime.go: what the shutdown of a Container executes, and the error that it returns.
use gx.Base.{
  ◌≡◌, refl, ap, ◌∙◌, sym, subst, ℕ, ◌==◌, ==_iff, Bool, true, false, Option, none, some, List,
  reverse, get_elem?,
}
use gx.Base.Exec.{Result, ok, or_panic, modify, pure, block_unless, ◌>>=◌, ◌>>◌}
use gx.Runtime.Types.{
  Ref, Error, Hook, Phase, ContainerState, container_stopping, container_stopped, Container,
  stopping_phase, stop_phase, Runtime, Event,
}
use gx.Runtime.Calls.{Action, container, update, is_setup}
use gx.Runtime.Turns.{turn}
use gx.Runtime.Keeps.{put}
use gx.Runtime.Lifecycle.{
  is_stopped, set_state, stop_hooks, wait_tasks, stop_container, container_shutdown,
}
use gx.Runtime.Executed.{Stopped, bind_ok, stop_hooks-Stopped}

module _ {ℓ} {V E : Type ℓ} where
  -- A Container that is read is there.
  pub container_ok :
      (i : Ref) (r : Runtime V E) {c : Container V E} {r' : Runtime V E}
      → container i r ≡ (ok c, r')
      → (get_elem? r.containers i ≡ some c) × (r ≡ r')
  unfolding container
  container_ok i r {c} {r'} e = at (get_elem? r.containers i) refl e
    where
      at :
          (o : Option (Container V E))
          → get_elem? r.containers i ≡ o
          → or_panic o r ≡ (ok c, r')
          → (get_elem? r.containers i ≡ some c) × (r ≡ r')
      at none f g = absurd (cc)
      at (some d) f g = (f ∙ cc, cc)

  -- The Container at a place has a new state, and nothing else has changed.
  pub record Moved (i : Ref) (state : ContainerState) (r r' : Runtime V E) : Type ℓ where
    pub it : Container V E
    pub there : get_elem? r.containers i ≡ some it
    pub moved : r' ≡ put i (record it { state = state }) r

  set_state-Moved :
      (i : Ref) (state : ContainerState) (r : Runtime V E) {u : Unit {0}} {r' : Runtime V E}
      → set_state i state r ≡ (ok u, r')
      → Moved i state r r'
  unfolding set_state update
  set_state-Moved i state r {u} {r'} e =
      let (c, s, found, rest) =
        bind_ok (container i) (λ c. modify (put i (record c { state = state }))) r e in
      let (there, same) = container_ok i r found in
      record {
        it = c;
        there = there;
        moved = sym (ap (λ p. p.1) rest) ∙ ap (put i (record c { state = state })) (sym same);
      }

  block_unless_ok :
      (b : Bool) (r : Runtime V E) {u : Unit {0}} {r' : Runtime V E}
      → block_unless b r ≡ (ok u, r')
      → (b ≡ true) × (r ≡ r')
  block_unless_ok true r e = (refl, cc)
  block_unless_ok false r e = absurd (cc)

module _ {ℓ} {V E : Type ℓ} (is_canceled : E → Bool) (schedule : ℕ → List (Event V E)) where
  -- The other goroutines have had a turn, after which no task of the Container was running.
  pub record Waited (i : Ref) (r r' : Runtime V E) : Type ℓ where
    pub turned : turn is_canceled schedule r ≡ (ok tt, r')
    pub it : Container V E
    pub there : get_elem? r'.containers i ≡ some it
    pub idle : it.wg ≡ 0

  wait_tasks-Waited :
      (i : Ref) (r : Runtime V E) {u : Unit {0}} {r' : Runtime V E}
      → wait_tasks is_canceled schedule i r ≡ (ok u, r')
      → Waited i r r'
  unfolding wait_tasks
  wait_tasks-Waited i r {u} {r'} e =
      let (_, s, turned, rest) =
        bind_ok (turn is_canceled schedule) (λ _. container i >>= λ c. block_unless (c.wg == 0)) r
          e in
      let (c, t, found, waits) = bind_ok (container i) (λ c. block_unless (c.wg == 0)) s rest in
      let (there, same) = container_ok i s found in
      let (idle, stays) = block_unless_ok (c.wg == 0) t waits in
      subst (Waited i r) (same ∙ stays)
        (record { turned = turned; it = c; there = there; idle = (==_iff c.wg 0).0 idle })

  -- The shutdown of a Container that was `c`: it is stopping, its stopping hooks are executed, the last
  -- one registered first, its tasks have ended, its stop hooks are executed, the last one registered first,
  -- and it is stopped.
  pub record ShutDown (i : Ref) (c : Container V E) (err : Option (Error E)) (r r' : Runtime V E)
      : Type ℓ where
    pub begun : Runtime V E
    pub ended : Runtime V E
    pub quiet : Runtime V E
    pub finished : Runtime V E
    pub first : Option (Error E)
    pub stopping : Moved i container_stopping r begun
    pub stopping_hooks :
        Stopped is_canceled schedule c.name stopping_phase
          (reverse c.stopping_fns)
          none
          first
          begun
          ended
    pub waited : Waited i ended quiet
    pub stop_hooks :
        Stopped is_canceled schedule c.name stop_phase (reverse c.stop_fns) first err quiet finished
    pub stopped : Moved i container_stopped finished r'

  pub stop_container-ShutDown :
      (i : Ref) (c : Container V E) (r : Runtime V E) {err : Option (Error E)} {r' : Runtime V E}
      → stop_container is_canceled schedule i c r ≡ (ok err, r')
      → ShutDown i c err r r'
  unfolding stop_container
  stop_container-ShutDown i c r {err} {r'} e =
      let (_, begun, s, e1) = bind_ok (set_state i container_stopping) (λ _. after_state) r e in
      let (first, ended, hs, e2) =
        bind_ok (hooks stopping_phase c.stopping_fns none) after_stopping begun e1 in
      let (_, quiet, w, e3) =
        bind_ok (wait_tasks is_canceled schedule i) (λ _. after_wait first) ended e2 in
      let (err', finished, ks, e4) =
        bind_ok (hooks stop_phase c.stop_fns first) after_stop quiet e3 in
      let (_, t, m, e5) = bind_ok (set_state i container_stopped) (λ _. pure err') finished e4 in
      record {
        begun = begun;
        ended = ended;
        quiet = quiet;
        finished = finished;
        first = first;
        stopping = set_state-Moved i container_stopping r s;
        stopping_hooks =
            stop_hooks-Stopped is_canceled schedule c.name stopping_phase _ none begun hs;
        waited = wait_tasks-Waited i ended w;
        stop_hooks =
            subst
              (λ x.
                Stopped is_canceled schedule c.name stop_phase (reverse c.stop_fns) first x quiet
                  finished)
              (cc) (stop_hooks-Stopped is_canceled schedule c.name stop_phase _ first quiet ks);
        stopped =
            subst (Moved i container_stopped finished) (cc)
              (set_state-Moved i container_stopped finished m);
      }
    where
      hooks : Phase → List (Hook V E) → Option (Error E) → Action V E (Option (Error E))
      hooks phase fns first = stop_hooks is_canceled schedule c.name phase (reverse fns) first

      after_stop : Option (Error E) → Action V E (Option (Error E))
      after_stop err = do set_state i container_stopped; pure err

      after_wait : Option (Error E) → Action V E (Option (Error E))
      after_wait first = do err ← hooks stop_phase c.stop_fns first; after_stop err

      after_stopping : Option (Error E) → Action V E (Option (Error E))
      after_stopping first = do wait_tasks is_canceled schedule i; after_wait first

      after_state : Action V E (Option (Error E))
      after_state = do first ← hooks stopping_phase c.stopping_fns none; after_stopping first

  -- A shutdown of a Container that returns, where that was neither set up only nor stopped: the Container is
  -- stopping; each stopping hook is executed, the last one registered first, whatever the others return;
  -- the other goroutines have a turn, and no task of the Container is running; each stop hook is executed,
  -- the last one registered first, whatever the others return; and it is stopped. The error is the first
  -- that one of these hooks has returned, with the names of the Container and of the hook, or nil where all
  -- have returned nil. Each start of a hook is logged, and each return, as a failure if it is one.
  pub container_shutdown-ShutDown :
      (i : Ref) (c : Container V E) (r : Runtime V E) {err : Option (Error E)} {r' : Runtime V E}
      → get_elem? r.containers i ≡ some c
      → is_setup c.state ≡ false
      → is_stopped c.state ≡ false
      → container_shutdown is_canceled schedule i r ≡ (ok err, r')
      → ShutDown i c err r r'
  unfolding container_shutdown container
  container_shutdown-ShutDown i c r {err} {r'} found setup stopped e =
      stop_container-ShutDown i c r (
        subst (λ (m : Result (Option (Error E)) × Runtime V E). m ≡ (ok err, r'))
          (simp (found, setup, stopped)) e)
