-- ===== src/Base/Exec/Ensures.antt =====
-- What holds once a computation has returned.
use gx.Base.{◌≡◌, refl, subst, Bool, true, false, Option, none, some, if◌then◌else◌}
use gx.Base.Exec.{
  Result, ok, panicked, blocked, Exec, pure, modify, panic_if, block_unless, resume, ◌>>=◌, ◌>>◌,
}
use gx.Base.Exec.Keeps.{Keeps}

abbrev pub After {σ κ α} : {S : Type σ} {A : Type α} → (A → S → Type κ) → Result A → S → Type κ
After Q (ok a) s = Q a s
After Q panicked s = Unit
After Q blocked s = Unit

pub record Ensures {σ π κ α} {S : Type σ} {A : Type α} (P : S → Type π) (m : Exec S A)
    (Q : A → S → Type κ) : Type (σ ⊔ π ⊔ κ) where
  pub at : (s : S) → P s → After Q (m s).0 (m s).1

module _ {σ π κ} {S : Type σ} {P : S → Type π} where
  module _ {α} {A : Type α} {Q : A → S → Type κ} where
    pub Ensures-pure : (a : A) → ((s : S) → P s → Q a s) → Ensures P (pure a) Q
    Ensures-pure a h = record { at = h }

    pub Ensures-if :
        (b : Bool) (m n : Exec S A)
        → Ensures P m Q
        → Ensures P n Q
        → Ensures P (if b then m else n) Q
    Ensures-if true m n km kn = km
    Ensures-if false m n km kn = kn

    pub Ensures-option {β} :
        {B : Type β} (o : Option B) (m : Exec S A) (f : B → Exec S A)
        → Ensures P m Q
        → ((b : B) → Ensures P (f b) Q)
        → Ensures P (elim o [ none ↦ m | some b ↦ f b ]) Q
    Ensures-option none m f km kf = km
    Ensures-option (some b) m f km kf = kf b

  pub Ensures-modify :
      {Q : Unit {0} → S → Type κ} (f : S → S)
      → ((s : S) → P s → Q tt (f s))
      → Ensures P (modify f) Q
  Ensures-modify f h = record { at = h }

  module _ {β} {B : Type β} {Q : B → S → Type κ} where
    -- The rest may use that the test held.
    pub Ensures-unless :
        (b : Bool) (n : Exec S B) → (b ≡ true → Ensures P n Q) → Ensures P (block_unless b >> n) Q
    Ensures-unless true n k = k refl
    Ensures-unless false n k = record { at = λ s h. tt }

    pub Ensures-guard :
        (b : Bool) (n : Exec S B) → (b ≡ false → Ensures P n Q) → Ensures P (panic_if b >> n) Q
    Ensures-guard true n k = record { at = λ s h. tt }
    Ensures-guard false n k = k refl

module _ {σ π α} {S : Type σ} {A : Type α} {P : S → Type π} where
  -- What is kept holds after a return.
  pub Ensures-kept : {m : Exec S A} → Keeps P m → Ensures P m (λ a s. P s)
  Ensures-kept {m} k = record { at = λ s h. after (m s).0 (m s).1 (k.at s h) }
    where
      after : (r : Result A) (s : S) → P s → After (λ a s. P s) r s
      after (ok a) s h = h
      after panicked s h = tt
      after blocked s h = tt

module _ {σ π κ ρ α} {S : Type σ} {A : Type α} {P : S → Type π} {R : A → S → Type ρ}
    {Q : A → S → Type κ} where
  pub Ensures-weaken :
      {m : Exec S A} → Ensures P m R → ((a : A) (s : S) → R a s → Q a s) → Ensures P m Q
  Ensures-weaken {m} k h = record { at = λ s p. after (m s).0 (m s).1 (k.at s p) }
    where
      after : (r : Result A) (s : S) → After R r s → After Q r s
      after (ok a) s q = h a s q
      after panicked s q = tt
      after blocked s q = tt

module _ {σ π κ ρ α β} {S : Type σ} {A : Type α} {B : Type β} {P : S → Type π} {R : A → S → Type ρ}
    {Q : B → S → Type κ} where
  pub Ensures-bind :
      (m : Exec S A) (f : A → Exec S B)
      → Ensures P m R
      → ((a : A) → Ensures (R a) (f a) Q)
      → Ensures P (m >>= f) Q
  Ensures-bind m f km kf = record { at = λ s h. after (m s).0 (m s).1 (km.at s h) }
    where
      after : (r : Result A) (s : S) → After R r s → After Q (resume f r s).0 (resume f r s).1
      after (ok a) s h = (kf a).at s h
      after panicked s h = tt
      after blocked s h = tt

-- The result of a run that returned.
pub returned {σ π κ α} :
    {S : Type σ} {A : Type α} {P : S → Type π} {m : Exec S A} {Q : A → S → Type κ}
    → Ensures P m Q
    → (s : S) {s' : S} {a : A} → P s
    → m s ≡ (ok a, s')
    → Q a s'
returned {Q = Q} k s p e = subst (λ r. After Q r.0 r.1) e (k.at s p)
