-- ===== src/Workers/Scheduler/Backoff.antt =====
-- How backend/app/workers/report_scheduler.py puts off and ends the attempts of a failing schedule.
use app_scan_custom_dashboar.Base.{ℕ, zero, suc, ◌+◌, ◌*◌, ◌-◌, ◌^◌, ◌≤◌, ◌≡◌, arith}
use native.Mathlib.Nat.{two-pow-succ, mul-add}
use app_scan_custom_dashboar.Workers.Scheduler.{SchedulerSettings, backoff_seconds}

double : (b n : ℕ) → b * 2 ^ suc n ≡ b * 2 ^ n + b * 2 ^ n
double b n = rw (two-pow-succ n) (mul-add b (2 ^ n) (2 ^ n))

le-mul_pow : (b n : ℕ) → b ≤ b * 2 ^ n
le-mul_pow b zero = omega arith
le-mul_pow b (suc n) = omega (arith, le-mul_pow b n, double b n)

-- The pause before the next attempt is at least the base and at most the maximum, and it does not
-- shrink from one failure to the next.
pub backoff_seconds-bounds :
    (settings : SchedulerSettings) (retry_count : ℕ)
    → settings.backoff_base_seconds ≤ settings.backoff_max_seconds
    → (settings.backoff_base_seconds ≤ backoff_seconds settings retry_count)
      × (backoff_seconds settings retry_count ≤ settings.backoff_max_seconds)
      × (backoff_seconds settings retry_count ≤ backoff_seconds settings (retry_count + 1))
unfolding backoff_seconds
backoff_seconds-bounds settings zero h = (omega arith, omega arith, omega arith)
backoff_seconds-bounds settings (suc n) h =
    let least = le-mul_pow settings.backoff_base_seconds n in
    let next = double settings.backoff_base_seconds n in
    let now : suc n - 1 ≡ n = omega arith in
    let later : suc n + 1 - 1 ≡ suc n = omega arith in
    rw (now, later) (omega (arith, least), omega arith, omega (arith, next))
