-- ===== src/Runtime/Executed.antt =====
-- runtime.go: the hooks that a loop has executed, with what each of them returned.
use gx.Base.{◌≡◌, refl, ap, ◌∙◌, sym, subst, ℕ, Bool, Option, none, some, List, [], ◌∷◌, ◌++◌, map}
use gx.Base.Exec.{ok, Exec, resume, ◌>>=◌, ◌>>◌, Result, panicked, blocked}
use gx.Runtime.Types.{
  Name, Error, failed, Hook, Phase, Message, step_starting, step_error, step_completed, Runtime,
  Event,
}
use gx.Runtime.Turns.{exec}
use gx.Runtime.Lifecycle.{or_first, log_step, stop_hooks}

-- The Runtime with one more entry.
abbrev pub noted {ℓ} : {V E : Type ℓ} → Name → Phase → Name → Message → Runtime V E → Runtime V E
noted c phase step message r = record r {
  log = r.log ++ record { message = message; container = c; phase = phase; step = step } ∷ [];
}

-- What is logged of a hook that has returned.
abbrev pub message_of {ℓ} : {E : Type ℓ} → Option E → Message
message_of none = step_completed
message_of (some e) = step_error

-- The first error of hooks that have returned, as the Container reports it.
abbrev pub first_error {ℓ} : {V E : Type ℓ} → Name → List (Hook V E × Option E) → Option (Error E)
first_error c [] = none
first_error c ((h, none) ∷ results) = first_error c results
first_error c ((h, some e) ∷ results) = some (failed c h.name e)

abbrev pub hooks_of {ℓ} : {V E : Type ℓ} → List (Hook V E × Option E) → List (Hook V E)
hooks_of = map (λ p. p.0)

module _ {ℓ} {E : Type ℓ} where
  pub or_first-none : (o : Option (Error E)) → or_first o none ≡ o
  or_first-none none = refl
  or_first-none (some a) = refl

  pub or_first_assoc :
      (a b d : Option (Error E)) → or_first (or_first a b) d ≡ or_first a (or_first b d)
  or_first_assoc none b d = refl
  or_first_assoc (some a) b d = refl

module _ {σ α β} {S : Type σ} {A : Type α} {B : Type β} where
  -- Both parts of a computation that returns return.
  pub bind_ok :
      (m : Exec S A) (f : A → Exec S B) (s : S) {s' : S} {b : B}
      → (m >>= f) s ≡ (ok b, s')
      → (a : A) × (t : S) × (m s ≡ (ok a, t)) × (f a t ≡ (ok b, s'))
  bind_ok m f s {s'} {b} e = at (m s).0 (m s).1 refl e
    where
      at :
          (r : Result A) (t : S)
          → m s ≡ (r, t)
          → resume f r t ≡ (ok b, s')
          → (a : A) × (t : S) × (m s ≡ (ok a, t)) × (f a t ≡ (ok b, s'))
      at (ok a) t e g = (a, t, e, g)
      at panicked t e g = absurd (cc)
      at blocked t e g = absurd (cc)

module _ {ℓ} {V E : Type ℓ} (is_canceled : E → Bool) (schedule : ℕ → List (Event V E)) (c : Name)
    (phase : Phase) (Between : Runtime V E → Runtime V E → Type ℓ) where
  -- From one state to another, the hooks have run one after another, each from its logged start to its
  -- return, which is logged too, with what `Between` allows before each.
  pub data Executed : List (Hook V E × Option E) → Runtime V E → Runtime V E → Type ℓ where
    stays : {r : Runtime V E} → Executed [] r r
    executes :
        {h : Hook V E} {err : Option E} {results : List (Hook V E × Option E)}
        {r s t r' : Runtime V E}
        → Between r s
        → exec is_canceled schedule h.fn (noted c phase h.name step_starting s) ≡ (ok err, t)
        → Executed results (noted c phase h.name (message_of err) t) r'
        → Executed ((h, err) ∷ results) r r'

module _ {ℓ} {V E : Type ℓ} (is_canceled : E → Bool) (schedule : ℕ → List (Event V E)) where
  -- Nothing comes between the hooks of a shutdown.
  abbrev pub AtOnce : Runtime V E → Runtime V E → Type ℓ
  AtOnce r s = r ≡ s

  -- The hooks `hs` have been executed, each once, and the first error is that before or the first of theirs.
  pub record Stopped (c : Name) (phase : Phase) (hs : List (Hook V E))
      (first err : Option (Error E)) (r r' : Runtime V E) : Type ℓ where
    pub results : List (Hook V E × Option E)
    pub all : hooks_of results ≡ hs
    pub executed : Executed is_canceled schedule c phase AtOnce results r r'
    pub to_report : err ≡ or_first first (first_error c results)

  first_error-cons :
      (c : Name) (h : Hook V E) (result : Option E) (results : List (Hook V E × Option E))
      → first_error c ((h, result) ∷ results)
        ≡ or_first (first_error {V = V} c ((h, result) ∷ [])) (first_error c results)
  first_error-cons c h none results = refl
  first_error-cons c h (some e) results = refl

  pub stop_hooks-Stopped :
      (c : Name) (phase : Phase) (hs : List (Hook V E)) (first : Option (Error E)) (r : Runtime V E)
      {r' : Runtime V E} {err : Option (Error E)}
      → stop_hooks is_canceled schedule c phase hs first r ≡ (ok err, r')
      → Stopped c phase hs first err r r'
  unfolding stop_hooks log_step
  stop_hooks-Stopped c phase [] first r e = record {
    results = [];
    all = refl;
    executed = subst (Executed is_canceled schedule c phase AtOnce [] r) (cc) stays;
    to_report = sym (or_first-none first ∙ cc);
  }
  stop_hooks-Stopped c phase (h ∷ hs) first r {r'} {err} e =
      let (result, t, runs, rest) =
        bind_ok (exec is_canceled schedule h.fn) next (noted c phase h.name step_starting r) e in
      at (λ f s k. stop_hooks-Stopped c phase hs f s k) result t runs rest
    where
      next : Option E → Exec (Runtime V E) (Option (Error E))
      next result = elim result [
        | some x ↦ (do
          log_step c step_error phase h.name
          stop_hooks is_canceled schedule c phase hs (or_first first (some (failed c h.name x))))
        | none ↦ (do
          log_step c step_completed phase h.name
          stop_hooks is_canceled schedule c phase hs first)
      ]

      more :
          (result : Option E) (t : Runtime V E) (mid : Option (Error E))
          → mid ≡ or_first first (first_error {V = V} c ((h, result) ∷ []))
          → exec is_canceled schedule h.fn (noted c phase h.name step_starting r) ≡ (ok result, t)
          → Stopped c phase hs mid err (noted c phase h.name (message_of result) t) r'
          → Stopped c phase (h ∷ hs) first err r r'
      more result t mid m runs q = record {
        results = (h, result) ∷ q.results;
        all = ap (◌∷◌ h) q.all;
        executed = executes refl runs q.executed;
        to_report =
            q.to_report
            ∙ ap (λ o. or_first o (first_error c q.results)) m
            ∙ or_first_assoc first _ _
            ∙ ap (or_first first) (sym (first_error-cons c h result q.results));
      }

      at :
          ((f : Option (Error E)) (s : Runtime V E)
            → stop_hooks is_canceled schedule c phase hs f s ≡ (ok err, r')
            → Stopped c phase hs f err s r')
          → (result : Option E) (t : Runtime V E)
          → exec is_canceled schedule h.fn (noted c phase h.name step_starting r) ≡ (ok result, t)
          → next result t ≡ (ok err, r')
          → Stopped c phase (h ∷ hs) first err r r'
      at rest_of none t runs rest =
          more none t first (sym (or_first-none first)) runs (rest_of first _ rest)
      at rest_of (some x) t runs rest =
          more (some x) t (or_first first (some (failed c h.name x))) refl runs (rest_of _ _ rest)
