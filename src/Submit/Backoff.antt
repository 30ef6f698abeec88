-- ===== src/Submit/Backoff.antt =====
-- The delays between two attempts (`calculateBackoffDelay` and its uses in
-- apps/backend/src/services/oracle-submit.ts).
use native.Mathlib.Nat.{pow-suc}
use native.Mathlib.Numerals.{add-one}
use smile4money.Common.{ℕ, zero, suc, ◌+◌, ◌*◌, ◌^◌, ◌≤◌, ◌<◌, ◌≡◌, ◌≢◌, min, arith, ap}
use smile4money.Common.Keys.{string_eq}
use smile4money.Submit.{RetryConfig, calculate_backoff_delay}

power_doubles : (b n : ℕ) → b * 2 ^ (n + 1) ≡ 2 * (b * 2 ^ n)
power_doubles b n = rw (add-one n, pow-suc 2 n) (omega arith)

power_pos : (b n : ℕ) → 0 < b → 0 < b * 2 ^ n
power_pos b zero h = omega arith
power_pos b (suc n) h =
    omega (arith, power_pos b n h, power_doubles b n, ap (λ k. b * 2 ^ k) (add-one n))

-- The delay slept after a failure never passes the limit and doubles with each failure until the
-- limit is reached. Below the limit the log announces another delay than the one that is slept:
-- it names that of the following attempt.
pub backoff_doubles :
    (c : RetryConfig) (attempt : ℕ)
    → 0 < c.base_delay_ms
    → let slept = calculate_backoff_delay attempt c in
      let logged = calculate_backoff_delay (attempt + 1) c in
      (slept ≤ c.max_delay_ms)
      × (logged ≡ min (2 * slept) c.max_delay_ms)
      × (slept < c.max_delay_ms → logged ≢ slept)
unfolding calculate_backoff_delay
backoff_doubles c attempt pos = (
  omega arith,
  omega (arith, power_doubles c.base_delay_ms attempt),
  λ below.
      omega (arith, power_doubles c.base_delay_ms attempt, power_pos c.base_delay_ms attempt pos),
)
