-- ===== src/Base/Exec/Keeps.antt =====
-- What a computation keeps however it ends, and what holds once it has returned.
use gx.Base.{◌≡◌, refl, Bool, true, false, Option, none, some, if◌then◌else◌}
use gx.Base.Exec.{
  Result, ok, panicked, blocked, Exec, pure, gets, or_panic, modify, panic_if, block_unless, resume,
  ◌>>=◌, ◌>>◌,
}

-- `m` keeps `P`, also where it panics or blocks.
pub record Keeps {σ π α} {S : Type σ} {A : Type α} (P : S → Type π) (m : Exec S A)
    : Type (σ ⊔ π) where
  pub at : (s : S) → P s → P (m s).1

module _ {σ π} {S : Type σ} {P : S → Type π} where
  module _ {α} {A : Type α} where
    pub Keeps-pure : (a : A) → Keeps P (pure a)
    Keeps-pure a = record { at = λ s h. h }

    pub Keeps-gets : (f : S → A) → Keeps P (gets f)
    Keeps-gets f = record { at = λ s h. h }

    pub Keeps-or_panic : (o : Option A) → Keeps P (or_panic o)
    Keeps-or_panic none = record { at = λ s h. h }
    Keeps-or_panic (some a) = record { at = λ s h. h }

    pub Keeps-if :
        (b : Bool) (m n : Exec S A) → Keeps P m → Keeps P n → Keeps P (if b then m else n)
    Keeps-if true m n km kn = km
    Keeps-if false m n km kn = kn

    pub Keeps-option {β} :
        {B : Type β} (o : Option B) (m : Exec S A) (f : B → Exec S A)
        → Keeps P m
        → ((b : B) → Keeps P (f b))
        → Keeps P (elim o [ none ↦ m | some b ↦ f b ])
    Keeps-option none m f km kf = km
    Keeps-option (some b) m f km kf = kf b

    module _ {β} {B : Type β} where
      pub Keeps-bind :
          (m : Exec S A) (f : A → Exec S B)
          → Keeps P m
          → ((a : A) → Keeps P (f a))
          → Keeps P (m >>= f)
      Keeps-bind m f km kf = record { at = λ s h. after (m s).0 (m s).1 (km.at s h) }
        where
          after : (r : Result A) (s' : S) → P s' → P (resume f r s').1
          after (ok a) s' h = (kf a).at s' h
          after panicked s' h = h
          after blocked s' h = h

  -- The rest may use that the test failed.
  pub Keeps-guard {β} :
      {B : Type β} (b : Bool) (n : Exec S B) → (b ≡ false → Keeps P n) → Keeps P (panic_if b >> n)
  Keeps-guard true n k = record { at = λ s h. h }
  Keeps-guard false n k = k refl

  -- Nothing follows a panic.
  pub Keeps-panics {β} :
      {B : Type β} (b : Bool) (n : Exec S B) → b ≡ true → Keeps P (panic_if b >> n)
  Keeps-panics true n e = record { at = λ s h. h }
  Keeps-panics false n e = absurd (cc)

  -- The rest may use what was read.
  pub Keeps-reads {α β} :
      {A : Type α} {B : Type β} (g : S → A) (f : A → Exec S B)
      → ((s : S) → P s → P (f (g s) s).1)
      → Keeps P (gets g >>= f)
  Keeps-reads g f h = record { at = h }

  pub Keeps-modify : (f : S → S) → ((s : S) → P s → P (f s)) → Keeps P (modify f)
  Keeps-modify f h = record { at = h }

  pub Keeps-panic_if : (b : Bool) → Keeps P (panic_if b)
  Keeps-panic_if b = record { at = λ s h. h }

  pub Keeps-block_unless : (b : Bool) → Keeps P (block_unless b)
  Keeps-block_unless b = record { at = λ s h. h }

-- However `m` ends, `P` has led to `Q`.
pub record Leads {σ π κ α} {S : Type σ} {A : Type α} (P : S → Type π) (m : Exec S A)
    (Q : S → Type κ) : Type (σ ⊔ π ⊔ κ) where
  pub at : (s : S) → P s → Q (m s).1

module _ {σ π κ} {S : Type σ} {P : S → Type π} {Q : S → Type κ} where
  module _ {α} {A : Type α} where
    pub Leads-kept : {m : Exec S A} → ((s : S) → P s → Q s) → Keeps Q m → Leads P m Q
    Leads-kept h k = record { at = λ s p. k.at s (h s p) }

    pub Leads-bind {β ρ} :
        {B : Type β} {R : S → Type ρ} (m : Exec S A) (f : A → Exec S B)
        → Leads P m R
        → ((s : S) → R s → Q s)
        → ((a : A) → Leads R (f a) Q)
        → Leads P (m >>= f) Q
    Leads-bind {B = B} {R = R} m f km w kf = record {
      at = λ s h. after (m s).0 (m s).1 (km.at s h);
    }
      where
        after : (r : Result A) (s' : S) → R s' → Q (resume f r s').1
        after (ok a) s' h = (kf a).at s' h
        after panicked s' h = w s' h
        after blocked s' h = w s' h

    pub Leads-guard :
        (b : Bool) (n : Exec S A)
        → ((s : S) → P s → Q s)
        → (b ≡ false → Leads P n Q)
        → Leads P (panic_if b >> n) Q
    Leads-guard true n w k = record { at = w }
    Leads-guard false n w k = k refl

pub ruleset keeps_rules = (
  Keeps-pure, Keeps-gets, Keeps-or_panic, Keeps-if, Keeps-option, Keeps-bind, Keeps-panic_if,
  Keeps-block_unless,
)
