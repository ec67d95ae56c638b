-- ===== src/Throttler.antt =====
-- throttler.go. A time is in nanoseconds, 0 the zero time; `now` is what `time.Now` returned before
-- the lock was taken, so that the calls of several goroutines may come out of order.
pub mod Spacing
mod Tests
use gx.Base.{ℕ, ◌+◌, ◌-◌, ◌^◌, Bool, true, false, not, ◌&&◌, List, [], ◌∷◌, ◌==◌, if◌then◌else◌}
use gx.Base.Int.{ℤ, pos, negsuc, ltb_ℤ, sub_ℕ}

pub record Throttler : Type 0 where
  pub interval : ℤ
  pub last_run : ℕ

pub new_throttler : ℤ → Throttler
new_throttler interval = record { interval = interval; last_run = 0 }

-- `t.Sub(u)`: the difference, as far as a `Duration` can hold it.
pub sub_time : ℕ → ℕ → ℤ
sub_time t u =
    let d = sub_ℕ t u in
    if ltb_ℤ (pos (2 ^ 63 - 1)) d
    then pos (2 ^ 63 - 1)
    else if ltb_ℤ d (negsuc (2 ^ 63 - 1))
    then negsuc (2 ^ 63 - 1)
    else d

pub allow : Throttler → ℕ → Bool × Throttler
unfolding sub_time
allow t now =
    if not (t.last_run == 0) && ltb_ℤ (sub_time now t.last_run) t.interval
    then (false, t)
    else (true, record t { last_run = now })

-- `Do`: whether `fn` ran, and what it left of the caller's state.
pub do_if_allowed {ℓ} : {S : Type ℓ} → Throttler → ℕ → (S → S) → S → Bool × Throttler × S
do_if_allowed t now fn s =
    let (allowed, t') = allow t now in if allowed then (true, t', fn s) else (false, t', s)

-- The times at which a sequence of calls is allowed.
pub allowed_times : Throttler → List ℕ → List ℕ
unfolding allow
allowed_times t [] = []
allowed_times t (now ∷ rest) =
    let (allowed, t') = allow t now in
    let later = allowed_times t' rest in if allowed then now ∷ later else later
