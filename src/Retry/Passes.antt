-- ===== src/Retry/Passes.antt =====
-- retry.go: the ways through the loop of `Do`.
use gx.Base.{
  ℕ, suc, ◌≡◌, ◌≢◌, ◌<◌, refl, ◌⊎◌, inl, inr, Bool-cases, Option, none, some, true, false, arith,
  ltb, ◌&&◌, ◌==◌,
}
use gx.Base.Int.{ℤ, pos, ltb_ℤ}
use gx.Retry.{Float, Retry, Attempt, Outcome, pass, stop, waited, jitter_delay}

module _ {ℓ κ} {F : Type ℓ} {E : Type κ} where
  pub data Passed (r : Retry F) (a : Attempt F E) (k : ℕ) (d : ℤ) (rest o : Option (Outcome E))
      : Type (ℓ ⊔ κ) where
    succeeds : a.result ≡ none → o ≡ stop k none → Passed r a k d rest o
    exhausts :
        (err : E)
        → a.result ≡ some err
        → suc k ≡ r.attempts
        → o ≡ stop k (some err)
        → Passed r a k d rest o
    ctx_ends :
        (err e : E)
        → a.result ≡ some err
        → a.ctx_err ≡ some e
        → o ≡ stop k (some e)
        → Passed r a k d rest o
    wait_ends :
        (err e : E) (w : ℤ)
        → a.result ≡ some err
        → a.interrupted ≡ some e
        → o ≡ waited d w (stop k (some e))
        → Passed r a k d rest o
    goes_on :
        (err : E)
        → a.result ≡ some err
        → ((0 < r.attempts) → suc k ≢ r.attempts)
        → (o ≡ rest) ⊎ ((w : ℤ) × (o ≡ waited d w rest))
        → Passed r a k d rest o

last_iff : (n k : ℕ) → ((ltb 0 n && (suc k == n)) ≡ false) → (0 < n → suc k ≢ n)
last_iff n k h p = ground arith

last_eq : (n k : ℕ) → ((ltb 0 n && (suc k == n)) ≡ true) → suc k ≡ n
last_eq n k h = ground arith

module _ {ℓ κ} {F : Type ℓ} (float : Float F) {E : Type κ} where
  made : Option E → Option E → Option E → F → Attempt F E
  made result ctx_err interrupted random = record {
    result = result;
    ctx_err = ctx_err;
    interrupted = interrupted;
    random = random;
  }

  made-Passed :
      (r : Retry F) (result ctx_err interrupted : Option E) (u : F) (k : ℕ) (d : ℤ)
      (rest : Option (Outcome E))
      → let a = made result ctx_err interrupted u in Passed r a k d rest (pass float r a k d rest)
  unfolding pass made
  made-Passed r none c i u k d rest = Passed.succeeds refl refl
  made-Passed r (some err) c i u k d rest =
      elim (Bool-cases (ltb 0 r.attempts && (suc k == r.attempts))) [
        | inl l ↦ Passed.exhausts err refl (last_eq _ _ l) (simp l)
        | inr l ↦ running c i l
      ]
    where
      running :
          (c i : Option E)
          → (ltb 0 r.attempts && (suc k == r.attempts)) ≡ false
          → let a = made (some err) c i u in Passed r a k d rest (pass float r a k d rest)
      running (some e) i l = Passed.ctx_ends err e refl refl (simp l)
      running none (some e) l = elim (Bool-cases (ltb_ℤ (pos 0) d)) [
        | inr z ↦ Passed.goes_on err refl (last_iff _ _ l) (inl (simp (l, z)))
        | inl p ↦ Passed.wait_ends err e (jitter_delay float r u d) refl refl (simp (l, p))
      ]
      running none none l = elim (Bool-cases (ltb_ℤ (pos 0) d)) [
        | inr z ↦ Passed.goes_on err refl (last_iff _ _ l) (inl (simp (l, z)))
        | inl p ↦
            Passed.goes_on err refl (last_iff _ _ l) (inr (jitter_delay float r u d, simp (l, p)))
      ]

  pub pass-Passed :
      (r : Retry F) (a : Attempt F E) (k : ℕ) (d : ℤ) (rest : Option (Outcome E))
      → Passed r a k d rest (pass float r a k d rest)
  unfolding made
  pass-Passed r a k d rest = made-Passed r a.result a.ctx_err a.interrupted a.random k d rest
