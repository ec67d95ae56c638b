-- ===== src/Retry/Delays.antt =====
-- retry.go: the delays between attempts.
use gx.Base.{
  ℕ, zero, suc, ◌≡◌, ◌⊎◌, refl, sym, ap, ◌∙◌, subst, inl, inr, Option, none, some, List, [], ◌∷◌,
  arith,
}
use mathlib.Core.Option.{some-injective}
use gx.Base.Int.{ℤ, pos, ◌≤ℤ◌, ◌<ℤ◌}
use gx.Retry.{Float, Retry, Attempt, Outcome, loop, retry, next_delay, stop, waited}
use gx.Retry.Passes.{Passed, succeeds, exhausts, ctx_ends, wait_ends, goes_on, pass-Passed}

abbrev pub AllAtMost : ℤ → List ℤ → Type 0
AllAtMost m [] = Unit
AllAtMost m (d ∷ ds) = (d ≤ℤ m) × AllAtMost m ds

-- The first of the delays is a given one or within the limit, the others are within it.
abbrev pub FirstOrAtMost : ℤ → ℤ → List ℤ → Type 0
FirstOrAtMost first m [] = Unit
FirstOrAtMost first m (d ∷ ds) = ((d ≡ first) ⊎ (d ≤ℤ m)) × AllAtMost m ds

AllAtMost-FirstOrAtMost : (first m : ℤ) (ds : List ℤ) → AllAtMost m ds → FirstOrAtMost first m ds
AllAtMost-FirstOrAtMost first m [] a = tt
AllAtMost-FirstOrAtMost first m (d ∷ ds) (l, a) = (inr l, a)

module _ {κ} {E : Type κ} where
  -- The delays of a pass that waited, by those of the passes after it.
  waited_delays :
      (d w : ℤ) (rest : Option (Outcome E)) (o : Outcome E)
      → waited d w rest ≡ some o
      → (p : Outcome E) × (rest ≡ some p) × (o.delays ≡ d ∷ p.delays)
  waited_delays d w none o e = absurd (cc)
  waited_delays d w (some p) o e = (p, refl, ap (λ o. o.delays) (sym (some-injective _ _ e)))

  stop_delays : (k : ℕ) (err : Option E) (o : Outcome E) → stop k err ≡ some o → o.delays ≡ []
  stop_delays k err o e = ap (λ o. o.delays) (sym (some-injective _ _ e))

module _ {ℓ κ} {F : Type ℓ} (float : Float F) {E : Type κ} (r : Retry F)
    (script : ℕ → Attempt F E) where
  next_delay-le : (d : ℤ) → pos 0 <ℤ r.max_delay → next_delay float r d ≤ℤ r.max_delay
  unfolding next_delay
  next_delay-le d l = ground arith

  pass-delays :
      (k : ℕ) (d : ℤ) (rest o : Option (Outcome E)) (q : Outcome E)
      → Passed r (script k) k d rest o
      → o ≡ some q
      → ((p : Outcome E) → rest ≡ some p → AllAtMost r.max_delay p.delays)
      → AllAtMost r.max_delay q.delays
        ⊎ ((ds : List ℤ) × (q.delays ≡ d ∷ ds) × AllAtMost r.max_delay ds)
  pass-delays k d rest o q (succeeds s e) f later =
      inl (subst (AllAtMost r.max_delay) (sym (stop_delays k _ q (sym e ∙ f))) tt)
  pass-delays k d rest o q (exhausts err s l e) f later =
      inl (subst (AllAtMost r.max_delay) (sym (stop_delays k _ q (sym e ∙ f))) tt)
  pass-delays k d rest o q (ctx_ends err x s c e) f later =
      inl (subst (AllAtMost r.max_delay) (sym (stop_delays k _ q (sym e ∙ f))) tt)
  pass-delays k d rest o q (wait_ends err x w s i e) f later =
      let (p, g, h) = waited_delays d w _ q (sym e ∙ f) in
      inr ([], h ∙ ap (λ ds. d ∷ ds) (stop_delays k _ p g), tt)
  pass-delays k d rest o q (goes_on err s n (inl e)) f later = inl (later q (sym e ∙ f))
  pass-delays k d rest o q (goes_on err s n (inr (w, e))) f later =
      let (p, g, h) = waited_delays d w rest q (sym e ∙ f) in inr (p.delays, h, later p g)

  loop-delays :
      (n k : ℕ) (d : ℤ) (o : Outcome E)
      → pos 0 <ℤ r.max_delay
      → d ≤ℤ r.max_delay
      → loop float r script n k d ≡ some o
      → AllAtMost r.max_delay o.delays
  unfolding loop
  loop-delays zero k d o m l e = absurd (cc)
  loop-delays (suc n) k d o m l e =
      elim (pass-delays k d _ _ o (pass-Passed float r (script k) k d _) e
        (λ p f. loop-delays n (suc k) (next_delay float r d) p m (next_delay-le d m) f)) [
          | inl a ↦ a
          | inr (ds, h, a) ↦ subst (AllAtMost r.max_delay) (sym h) (l, a)
        ]

  retry-delays_from :
      (n k : ℕ) (d : ℤ) (o : Outcome E)
      → pos 0 <ℤ r.max_delay
      → loop float r script n k d ≡ some o
      → FirstOrAtMost d r.max_delay o.delays
  unfolding loop
  retry-delays_from zero k d o m e = absurd (cc)
  retry-delays_from (suc n) k d o m e =
      elim (pass-delays k d _ _ o (pass-Passed float r (script k) k d _) e
        (λ p f. loop-delays n (suc k) (next_delay float r d) p m (next_delay-le d m) f)) [
          | inl a ↦ AllAtMost-FirstOrAtMost d r.max_delay o.delays a
          | inr (ds, h, a) ↦ subst (FirstOrAtMost d r.max_delay) (sym h) (inl refl, a)
        ]

  -- With a limit on the delay, whatever the backoff, every delay of a call of `Do` that returns, before
  -- jitter, is within the limit, except that the first may be the delay that the options gave, which
  -- is not held to it.
  pub retry-delays :
      (fuel : ℕ) (o : Outcome E)
      → pos 0 <ℤ r.max_delay
      → retry float r script fuel ≡ some o
      → FirstOrAtMost r.delay r.max_delay o.delays
  unfolding retry
  retry-delays fuel o = retry-delays_from fuel 0 r.delay o
