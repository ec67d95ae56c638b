-- ===== src/Runtime/Hooks.antt =====
-- runtime.go: what the loop over the hooks of an initialization or of a start executes.
use gx.Base.{
  ◌≡◌, ◌≢◌, refl, ap, subst, ℕ, Bool, true, false, Option, none, some, List, [], ◌∷◌, ◌++◌,
  if◌then◌else◌,
}
use gx.Base.Exec.{ok, pure, ◌>>=◌, ◌>>◌}
use gx.Runtime.Types.{
  Name, failed, Hook, Phase, step_starting, step_error, step_completed, Runtime, Event,
}
use gx.Runtime.Calls.{Action}
use gx.Runtime.Turns.{ctx_err, exec}
use gx.Runtime.Lifecycle.{Loop, completed, cut_short, fails, log_step, run_hooks}
use gx.Runtime.Executed.{Executed, stays, executes, bind_ok, first_error, hooks_of, noted}

module _ {ℓ} {V E : Type ℓ} (is_canceled : E → Bool) (schedule : ℕ → List (Event V E)) (c : Name)
    (phase : Phase) where
  -- The context was looked at, and was not done.
  abbrev pub GoingOn : Runtime V E → Runtime V E → Type ℓ
  GoingOn r s = ctx_err is_canceled schedule r ≡ (ok false, s)

  -- How a loop ends after the hooks of `results`, with `rest` left: after all of them with no error; with
  -- the context done before the next; or after one that failed, where those before did not.
  abbrev pub Ends :
      Loop E → List (Hook V E × Option E) → List (Hook V E) → Runtime V E → Runtime V E → Type ℓ
  Ends completed results rest last r' = (rest ≡ []) × (first_error c results ≡ none) × (last ≡ r')
  Ends cut_short results rest last r' =
      (rest ≢ [])
      × (first_error c results ≡ none)
      × (ctx_err is_canceled schedule last ≡ (ok true, r'))
  Ends (fails e) results rest last r' =
      (passed : List (Hook V E × Option E)) × (h : Hook V E) × (x : E) × (results
        ≡ passed ++ (h, some x) ∷ [])
      × (first_error c passed ≡ none)
      × (e ≡ failed c h.name x)
      × (last ≡ r')

  -- What a loop over `hs` has executed.
  pub record RanHooks (hs : List (Hook V E)) (loop : Loop E) (r r' : Runtime V E) : Type ℓ where
    pub results : List (Hook V E × Option E)
    pub rest : List (Hook V E)
    pub last : Runtime V E
    pub all : hs ≡ hooks_of results ++ rest
    pub executed : Executed is_canceled schedule c phase GoingOn results r last
    pub ends : Ends loop results rest last r'

  Ends-cons :
      (h : Hook V E) (loop : Loop E) (results : List (Hook V E × Option E)) (rest : List (Hook V E))
      (last r' : Runtime V E)
      → Ends loop results rest last r'
      → Ends loop ((h, none) ∷ results) rest last r'
  Ends-cons h completed results rest last r' q = q
  Ends-cons h cut_short results rest last r' q = q
  Ends-cons h (fails e) results rest last r' (passed, k, x, split, passes, named, same) =
      ((h, none) ∷ passed, k, x, ap (◌∷◌ (h, none)) split, passes, named, same)

  -- A computation that returns what it is given.
  pure_ok :
      (a : Loop E) (r : Runtime V E) {loop : Loop E} {r' : Runtime V E} (hs : List (Hook V E))
      (s : Runtime V E)
      → RanHooks hs a s r
      → pure a r ≡ (ok loop, r')
      → RanHooks hs loop s r'
  pure_ok a r {loop} {r'} hs s q e =
      subst (λ l. RanHooks hs l s r') (cc) (subst (RanHooks hs a s) (cc) q)

  -- A loop of `init` or of `start` that returns has executed hooks in the order in which they were
  -- registered, from the first on, each after a look at the context that was not done. It has executed all,
  -- and all have returned nil; or the context was done before the next one, and those executed have
  -- returned nil; or the last one executed has failed, where those before have returned nil, and its error
  -- is that of the loop, with the names of the Container and of the hook. Each start of a hook is
  -- logged, and each return, as a failure if it is one.
  pub run_hooks-RanHooks :
      (hs : List (Hook V E)) (r : Runtime V E) {r' : Runtime V E} {loop : Loop E}
      → run_hooks is_canceled schedule c phase hs r ≡ (ok loop, r')
      → RanHooks hs loop r r'
  unfolding run_hooks log_step
  run_hooks-RanHooks [] r e =
      pure_ok completed r [] r
        (record {
          results = [];
          rest = [];
          last = r;
          all = refl;
          executed = stays;
          ends = (refl, refl, refl);
        })
        e
  run_hooks-RanHooks (h ∷ hs) r {r'} {loop} e =
      let (ended, s, looked, e1) = bind_ok (ctx_err is_canceled schedule) next r e in
      at (λ s k. run_hooks-RanHooks hs s k) ended s looked e1
    where
      after : Option E → Action V E (Loop E)
      after result = elim result [
        | some x ↦ (do log_step c step_error phase h.name; pure (fails (failed c h.name x)))
        | none ↦ (do
          log_step c step_completed phase h.name
          run_hooks is_canceled schedule c phase hs)
      ]

      next : Bool → Action V E (Loop E)
      next ended = if ended then pure cut_short else (do
        log_step c step_starting phase h.name
        err ← exec is_canceled schedule h.fn
        after err)

      returned :
          ((t : Runtime V E)
            → run_hooks is_canceled schedule c phase hs t ≡ (ok loop, r')
            → RanHooks hs loop t r')
          → (s : Runtime V E) → GoingOn r s
          → (result : Option E) (t : Runtime V E)
          → exec is_canceled schedule h.fn (noted c phase h.name step_starting s) ≡ (ok result, t)
          → after result t ≡ (ok loop, r')
          → RanHooks (h ∷ hs) loop r r'
      returned more s looked none t runs f =
          let q = more (noted c phase h.name step_completed t) f in
          record {
            results = (h, none) ∷ q.results;
            rest = q.rest;
            last = q.last;
            all = ap (◌∷◌ h) q.all;
            executed = executes looked runs q.executed;
            ends = Ends-cons h loop q.results q.rest q.last r' q.ends;
          }
      returned more s looked (some x) t runs f =
          pure_ok (fails (failed c h.name x)) (noted c phase h.name step_error t) (h ∷ hs) r
            (record {
              results = (h, some x) ∷ [];
              rest = hs;
              last = noted c phase h.name step_error t;
              all = refl;
              executed = executes looked runs stays;
              ends = ([], h, x, refl, refl, refl, refl);
            })
            f

      at :
          ((t : Runtime V E)
            → run_hooks is_canceled schedule c phase hs t ≡ (ok loop, r')
            → RanHooks hs loop t r')
          → (ended : Bool) (s : Runtime V E) → ctx_err is_canceled schedule r ≡ (ok ended, s)
          → next ended s ≡ (ok loop, r')
          → RanHooks (h ∷ hs) loop r r'
      at more true s looked f =
          pure_ok cut_short s (h ∷ hs) r
            (record {
              results = [];
              rest = h ∷ hs;
              last = r;
              all = refl;
              executed = stays;
              ends = ((λ q. absurd (cc)), refl, looked);
            })
            f
      at more false s looked f =
          let (result, t, runs, f1) =
            bind_ok (exec is_canceled schedule h.fn) after (noted c phase h.name step_starting s)
              f in
          returned more s looked result t runs f1
