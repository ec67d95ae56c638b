-- ===== src/Retry/Attempts.antt =====
-- retry.go: how often `Do` calls the function, and what it returns.
use gx.Base.{
  ℕ, zero, suc, ◌+◌, ◌-◌, ◌≡◌, ◌≢◌, ◌↔◌, ◌<◌, ◌≤◌, refl, sym, ap, ◌∙◌, inl, inr, ◌∷◌, Option, none,
  some, arith,
}
use gx.Base.Int.{ℤ}
use gx.Retry.{Float, Retry, Attempt, Outcome, loop, retry, next_delay, waited}
use gx.Retry.Passes.{Passed, succeeds, exhausts, ctx_ends, wait_ends, goes_on, pass-Passed}

module _ {κ} {E : Type κ} where
  waited-some :
      (d w : ℤ) (rest : Option (Outcome E)) (o : Outcome E)
      → rest ≡ some o
      → waited d w rest ≡ some (record o { delays = d ∷ o.delays; waits = w ∷ o.waits })
  waited-some d w rest o e = ap (waited d w) e

  -- The calls end at attempt `k` if it succeeds.
  abbrev unless_done : ℕ → Option E → Option E × ℕ → Option E × ℕ
  unless_done k none rest = (none, suc k)
  unless_done k (some e) rest = rest

module _ {ℓ κ} {F : Type ℓ} {E : Type κ} where
  -- What a loop that starts with attempt `k` comes to: it calls the function at least once more and at
  -- most as often as it may, and returns nil exactly when the last call did.
  abbrev pub Returns : Retry F → (ℕ → Attempt F E) → ℕ → Outcome E → Type κ
  Returns r script k o =
      (j : ℕ) × (o.calls ≡ suc j)
      × (k ≤ j)
      × (j < r.attempts)
      × ((o.err ≡ none) ↔ ((script j).result ≡ none))

  -- What the calls come to when nothing but their results matters: the attempts from `k` on, of which
  -- `n` are left after it.
  abbrev pub expected : (ℕ → Attempt F E) → ℕ → ℕ → Option E × ℕ
  expected script k zero = ((script k).result, suc k)
  expected script k (suc n) =
      let rest = expected script (suc k) n in unless_done k (script k).result rest

  -- The context is not done.
  pub record Calm (script : ℕ → Attempt F E) : Type κ where
    pub live : (i : ℕ) → (script i).ctx_err ≡ none
    pub undisturbed : (i : ℕ) → (script i).interrupted ≡ none

module _ {ℓ κ} {F : Type ℓ} (float : Float F) {E : Type κ} (r : Retry F)
    (script : ℕ → Attempt F E) where
  pass-Returns :
      (k : ℕ) (d : ℤ) (rest o : Option (Outcome E))
      → Passed r (script k) k d rest o
      → k < r.attempts
      → (suc k < r.attempts → (p : Outcome E) × (rest ≡ some p) × Returns r script (suc k) p)
      → (p : Outcome E) × (o ≡ some p) × Returns r script k p
  pass-Returns k d rest o (succeeds s e) l later =
      (_, e, (k, refl, omega arith, l, (λ _. s, λ _. refl)))
  pass-Returns k d rest o (exhausts err s n e) l later =
      (_, e, (k, refl, omega arith, l, (λ h. absurd (cc), λ h. absurd (cc))))
  pass-Returns k d rest o (ctx_ends err x s c e) l later =
      (_, e, (k, refl, omega arith, l, (λ h. absurd (cc), λ h. absurd (cc))))
  pass-Returns k d rest o (wait_ends err x w s i e) l later =
      (_, e, (k, refl, omega arith, l, (λ h. absurd (cc), λ h. absurd (cc))))
  pass-Returns k d rest o (goes_on err s n (inl e)) l later =
      let n' : suc k ≢ r.attempts = n (omega arith) in
      let (p, f, (j, g, m, h, i)) = later (omega arith) in (p, e ∙ f, (j, g, omega arith, h, i))
  pass-Returns k d rest o (goes_on err s n (inr (w, e))) l later =
      let n' : suc k ≢ r.attempts = n (omega arith) in
      let (p, f, (j, g, m, h, i)) = later (omega arith) in
      (_, e ∙ waited-some d w rest p f, (j, g, omega arith, h, i))

  loop-Returns :
      (n k : ℕ) (d : ℤ)
      → r.attempts ≡ suc (k + n)
      → (o : Outcome E) × (loop float r script (suc n) k d ≡ some o) × Returns r script k o
  unfolding loop
  loop-Returns zero k d a =
      pass-Returns k d _ _ (pass-Passed float r (script k) k d none) (omega arith)
        (λ h. absurd (omega arith))
  loop-Returns (suc n) k d a =
      pass-Returns k d _ _
        (pass-Passed float r (script k) k d
          (loop float r script (suc n) (suc k) (next_delay float r d)))
        (omega arith) (λ h. loop-Returns n (suc k) (next_delay float r d) (omega arith))

  -- With a limit on the attempts `Do` returns, whatever the function and the context do: it calls the
  -- function at least once and at most as often as the limit says, and returns nil exactly when the
  -- last call did.
  pub retry-Returns :
      0 < r.attempts
      → (o : Outcome E) × (retry float r script r.attempts ≡ some o) × Returns r script 0 o
  unfolding retry
  retry-Returns l =
      let n : ℕ = r.attempts - 1 in
      let e : r.attempts ≡ suc (0 + n) = omega arith in
      let fuel : r.attempts ≡ suc n = omega arith in
      let (o, f, v) = loop-Returns n 0 r.delay e in
      (o, ap (λ m. loop float r script m 0 r.delay) fuel ∙ f, v)

  pass-expected :
      Calm script
      → (n k : ℕ) (d : ℤ) (rest o : Option (Outcome E)) → Passed r (script k) k d rest o
      → r.attempts ≡ suc (k + suc n)
      → (p : Outcome E) × (rest ≡ some p) × ((p.err, p.calls) ≡ expected script (suc k) n)
      → (p : Outcome E) × (o ≡ some p) × ((p.err, p.calls) ≡ expected script k (suc n))
  pass-expected c n k d rest o (succeeds s e) a (p, f, v) =
      (_, e, ap (λ x. unless_done k x (expected script (suc k) n)) (sym s))
  pass-expected c n k d rest o (exhausts err s l e) a (p, f, v) = absurd (omega arith)
  pass-expected c n k d rest o (ctx_ends err x s i e) a (p, f, v) =
      let z : (script k).ctx_err ≡ none = c.live k in absurd (cc)
  pass-expected c n k d rest o (wait_ends err x w s i e) a (p, f, v) =
      let z : (script k).interrupted ≡ none = c.undisturbed k in absurd (cc)
  pass-expected c n k d rest o (goes_on err s l (inl e)) a (p, f, v) =
      (p, e ∙ f, v ∙ ap (λ x. unless_done k x (expected script (suc k) n)) (sym s))
  pass-expected c n k d rest o (goes_on err s l (inr (w, e))) a (p, f, v) = (
    _,
    e ∙ waited-some d w rest p f,
    v ∙ ap (λ x. unless_done k x (expected script (suc k) n)) (sym s),
  )

  last-expected :
      Calm script
      → (k : ℕ) (d : ℤ) (rest o : Option (Outcome E)) → Passed r (script k) k d rest o
      → r.attempts ≡ suc k
      → (p : Outcome E) × (o ≡ some p) × ((p.err, p.calls) ≡ expected script k 0)
  last-expected c k d rest o (succeeds s e) a = (_, e, ap (λ x. (x, suc k)) (sym s))
  last-expected c k d rest o (exhausts err s l e) a = (_, e, ap (λ x. (x, suc k)) (sym s))
  last-expected c k d rest o (ctx_ends err x s i e) a =
      let z : (script k).ctx_err ≡ none = c.live k in absurd (cc)
  last-expected c k d rest o (wait_ends err x w s i e) a =
      let z : (script k).interrupted ≡ none = c.undisturbed k in absurd (cc)
  last-expected c k d rest o (goes_on err s l _) a = absurd (l (omega arith) (omega arith))

  loop-expected :
      Calm script
      → (n k : ℕ) (d : ℤ) → r.attempts ≡ suc (k + n)
      → (o : Outcome E) × (loop float r script (suc n) k d ≡ some o)
        × ((o.err, o.calls) ≡ expected script k n)
  unfolding loop
  loop-expected c zero k d a =
      last-expected c k d _ _ (pass-Passed float r (script k) k d none) (omega arith)
  loop-expected c (suc n) k d a =
      pass-expected c n k d _ _
        (pass-Passed float r (script k) k d
          (loop float r script (suc n) (suc k) (next_delay float r d)))
        a (loop-expected c n (suc k) (next_delay float r d) (omega arith))

  -- While the context is not done, `Do` with a limit on the attempts stops at the first call that
  -- succeeds and returns nil, and returns the error of the last call when the calls up to the limit all
  -- fail; the delays, the backoff and the jitter play no part in that.
  pub retry-expected :
      Calm script
      → 0 < r.attempts
      → (o : Outcome E) × (retry float r script r.attempts ≡ some o)
        × ((o.err, o.calls) ≡ expected script 0 (r.attempts - 1))
  unfolding retry
  retry-expected c l =
      let n : ℕ = r.attempts - 1 in
      let e : r.attempts ≡ suc (0 + n) = omega arith in
      let fuel : r.attempts ≡ suc n = omega arith in
      let (o, f, v) = loop-expected c n 0 r.delay e in
      (o, ap (λ m. loop float r script m 0 r.delay) fuel ∙ f, v)
