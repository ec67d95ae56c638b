-- ===== src/Throttler/Tests.antt =====
-- Runs of a Throttler.
use gx.Base.{◌≡◌, refl, [], ◌∷◌, arith, leb}
use gx.Base.Int.{pos}
use gx.Throttler.{new_throttler, allow, allowed_times, sub_time}
use gx.Throttler.Spacing.{Spaced, new_throttler-Spaced, allow_at_zero_interval}

-- Calls of four goroutines, one of which comes late to the lock.
times_allowed : allowed_times (new_throttler (pos 10)) (5 ∷ 3 ∷ 14 ∷ 15 ∷ []) ≡ 5 ∷ 15 ∷ []
unfolding allowed_times new_throttler allow sub_time
times_allowed = refl

new_throttler-Spaced_example :
    Spaced 10 (allowed_times (new_throttler (pos 10)) (5 ∷ 3 ∷ 14 ∷ 15 ∷ []))
new_throttler-Spaced_example =
    new_throttler-Spaced 10 (5 ∷ 3 ∷ 14 ∷ 15 ∷ []) (omega arith)
      (omega arith, (omega arith, (omega arith, (omega arith, tt))))

late_refused : (allow (record { interval = pos 0; last_run = 9 }) 8).0 ≡ leb 9 8
late_refused = allow_at_zero_interval (record { interval = pos 0; last_run = 9 }) 8 refl
