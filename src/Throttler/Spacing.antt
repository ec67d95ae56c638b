-- ===== src/Throttler/Spacing.antt =====
-- Two runs that a Throttler allows are an interval apart.
use gx.Base.{
  ℕ, ◌+◌, ◌^◌, ◌≤◌, ◌<◌, ◌≡◌, ◌≢◌, ◌⊎◌, inl, inr, refl, true, false, List, [], ◌∷◌, arith, leb,
  if◌then◌else◌,
}
use gx.Base.Int.{pos}
use gx.Throttler.{Throttler, new_throttler, allow, allowed_times, do_if_allowed}

abbrev AllFrom : ℕ → List ℕ → Type 0
AllFrom b [] = Unit
AllFrom b (t ∷ ts) = (b ≤ t) × AllFrom b ts

-- All times after a time are at least `d` later.
abbrev pub Spaced : ℕ → List ℕ → Type 0
Spaced d [] = Unit
Spaced d (t ∷ ts) = AllFrom (t + d) ts × Spaced d ts

abbrev pub Positive : List ℕ → Type 0
Positive = AllFrom 1

AllFrom-mono : (a b : ℕ) (ts : List ℕ) → a ≤ b → AllFrom b ts → AllFrom a ts
AllFrom-mono a b [] h p = tt
AllFrom-mono a b (t ∷ ts) h p = (omega (arith, p.0), AllFrom-mono a b ts h p.1)

-- The two outcomes of a call, for an interval that is not negative.
allow_cases :
    (t : Throttler) (now d : ℕ)
    → t.interval ≡ pos d
    → d < 2 ^ 63
    → let (allowed, t') = allow t now in
      ((allowed ≡ true)
        × (t' ≡ record t { last_run = now })
        × ((t.last_run ≡ 0) ⊎ (t.last_run + d ≤ now)))
      ⊎ ((allowed ≡ false) × (t' ≡ t) × (t.last_run ≢ 0) × (now < t.last_run + d))
unfolding allow
allow_cases t now d e h = ground arith

allowed_times-Spaced :
    (t : Throttler) (d : ℕ) (nows : List ℕ)
    → t.interval ≡ pos d
    → d < 2 ^ 63
    → 0 < t.last_run
    → Positive nows
    → AllFrom (t.last_run + d) (allowed_times t nows) × Spaced d (allowed_times t nows)
unfolding allowed_times
allowed_times-Spaced t d [] e h l p = (tt, tt)
allowed_times-Spaced t d (now ∷ nows) e h l p = elim (allow_cases t now d e h) [
  | inl (a, s, o) ↦
      let next : Throttler = record t { last_run = now } in
      let after : t.last_run + d ≤ now = ground arith in
      let (from, spaced) = allowed_times-Spaced next d nows e h p.0 p.1 in
      simp (a, s)
        ((after, AllFrom-mono (t.last_run + d) (now + d) _ (omega arith) from), (from, spaced))
  | inr (a, s, _, _) ↦ simp (a, s) (allowed_times-Spaced t d nows e h l p.1)
]

-- With an interval that is not negative and below 2^63 nanoseconds, and calls of which none is at the
-- zero time, in whatever order they come to the lock: each run that a new Throttler allows is at least one
-- interval later than each allowed before it.
pub new_throttler-Spaced :
    (d : ℕ) (nows : List ℕ)
    → d < 2 ^ 63
    → Positive nows
    → Spaced d (allowed_times (new_throttler (pos d)) nows)
unfolding allowed_times new_throttler
new_throttler-Spaced d [] h p = tt
new_throttler-Spaced d (now ∷ nows) h p =
    allowed_times-Spaced (record { interval = pos d; last_run = now }) d nows refl h p.0 p.1

-- With interval 0 a call is allowed exactly when its time is not before the last allowed one's: a call
-- that read the clock before another and got the lock after it is refused.
pub allow_at_zero_interval :
    (t : Throttler) (now : ℕ) → t.interval ≡ pos 0 → (allow t now).0 ≡ leb t.last_run now
unfolding allow
allow_at_zero_interval t now e = ground arith

-- `Do` runs the function exactly when `Allow` says so, and leaves the Throttler as `Allow` does.
pub do_if_allowed_lem :
    {S : Type 0} (t : Throttler) (now : ℕ) (fn : S → S) (s : S)
    → do_if_allowed t now fn s
      ≡ ((allow t now).0, (allow t now).1, if (allow t now).0 then fn s else s)
unfolding do_if_allowed
do_if_allowed_lem t now fn s = ground arith
