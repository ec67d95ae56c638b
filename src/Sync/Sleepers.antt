-- ===== src/Sync/Sleepers.antt =====
-- Values under a lock, whose takers sleep in a condition variable while there is none: what the methods
-- of such a type do to the count of its values and to the sleepers.
use gx.Base.{
  ℕ, ◌+◌, ◌-◌, ◌≤◌, ◌<◌, ◌≡◌, sym, ap, ◌∙◌, subst, Bool, true, false, Option, none, some, arith,
  inl, inr, Bool-cases,
}
use gx.Sync.{Cond, signal, broadcast, resume}

pub record Counts : Type 0 where
  pub closed : Bool
  pub cond : Cond
  pub len : ℕ

abbrev pub woken : Counts → Counts
woken c = record c { cond = resume c.cond }

-- A pass through the loop of a taker: it takes a value, ends as there is no more to come, or sleeps.
pub data Pass (c c' : Counts) : Type 0 where
  takes : 0 < c.len → c'.closed ≡ c.closed → c'.len ≡ c.len - 1 → c'.cond ≡ c.cond → Pass c c'
  ends : c.closed ≡ true → c'.closed ≡ true → c'.cond ≡ c.cond → Pass c c'
  sleeps : c.len ≡ 0 → c.closed ≡ false → c'.closed ≡ false → c'.len ≡ 0 → Pass c c'

pub data Move (c c' : Counts) : Type 0 where
  adds : c'.closed ≡ false → c'.len ≡ c.len + 1 → c'.cond ≡ signal c.cond → Move c c'
  stays : c ≡ c' → Move c c'
  passes : Pass c c' → Move c c'
  wakes : 0 < c.cond.notified → Pass (woken c) c' → Move c c'
  shuts : c'.closed ≡ true → c'.cond ≡ broadcast c.cond → Move c c'

-- A sleeper is owed nothing: each value held is for a goroutine already woken, and no one sleeps where
-- no more is to come.
pub record IsAwake (c : Counts) : Type 0 where
  pub covered : 0 < c.cond.waiting → c.len ≤ c.cond.notified
  pub drained : c.closed ≡ true → c.cond.waiting ≡ 0

-- A pass may start with one goroutine fewer that is owed a value, if there was one to spare.
Pass-IsAwake :
    (c c' : Counts)
    → Pass c c'
    → (0 < c.cond.waiting → c.len - 1 ≤ c.cond.notified)
    → (c.closed ≡ true → c.cond.waiting ≡ 0)
    → IsAwake c'
Pass-IsAwake c c' (takes p o l s) cover drain = record {
  covered = ground (arith, cover);
  drained = ground (arith, drain);
}
Pass-IsAwake c c' (ends d o s) cover drain = record {
  covered = ground (arith, drain d);
  drained = ground (arith, drain d);
}
Pass-IsAwake c c' (sleeps e d o l) cover drain = record {
  covered = λ _. omega arith;
  drained = λ h. absurd (cc);
}

-- Every move leaves the sleepers owed nothing.
pub Move-IsAwake : (c c' : Counts) → Move c c' → IsAwake c → IsAwake c'
unfolding signal broadcast resume
Move-IsAwake c c' (adds o l s) w = record {
  covered = ground (arith, w.covered);
  drained = λ e. absurd (cc);
}
Move-IsAwake c c' (stays e) w = subst IsAwake e w
Move-IsAwake c c' (passes p) w = Pass-IsAwake c c' p (λ h. omega (arith, w.covered h)) w.drained
Move-IsAwake c c' (wakes n p) w =
    Pass-IsAwake (woken c) c' p (λ h. omega (arith, w.covered h)) w.drained
Move-IsAwake c c' (shuts d s) w = record { covered = ground arith; drained = ground arith }

-- Where some goroutine sleeps, at least as many are on their way as there are values, and more may come.
pub IsAwake-sleeper :
    (c : Counts) → IsAwake c → 0 < c.cond.waiting → (c.len ≤ c.cond.notified) × (c.closed ≡ false)
IsAwake-sleeper c w h = (
  w.covered h,
  elim (Bool-cases c.closed) [ inl d ↦ absurd (omega (arith, w.drained d)) | inr o ↦ o ],
)

outcome {ℓ κ} : {B : Type ℓ} {R : Type κ} → Option (R × B) → B → B
outcome none b = b
outcome (some (r, b')) b = b'

-- A call has one outcome.
pub landed {ℓ κ} :
    {B : Type ℓ} {R : Type κ} {o : Option (R × B)} {r r' : R} {b b' : B}
    → o ≡ some (r, b)
    → o ≡ some (r', b')
    → b ≡ b'
unfolding outcome
landed {b} e e' = ap (λ o. outcome o b) (sym e ∙ e')
