-- ===== src/Breaker/Recovery.antt =====
-- When the circuit opens, what it rejects, how it closes again, and how the cooldown grows
-- (apps/backend/src/services/circuit-breaker.ts).
use smile4money.Common.{
  ℕ, zero, suc, ◌+◌, ◌*◌, ◌^◌, ◌≤◌, ◌<◌, ◌≡◌, sym, subst, ◌↔◌, true, some, List, [], ◌∷◌, map,
  length, min, replicate, arith,
}
use native.Mathlib.Numerals.{add-one}
use native.Mathlib.Nat.{pow-suc, mul-le-mul_left, le-mul_of_pos_right}
use smile4money.Breaker.{
  closed, open_circuit, half_open, CircuitBreaker, calculate_cooldown, get_remaining_cooldown,
  record_failure, allow_request,
}
use smile4money.Breaker.Calls.{succeeds, fails, step, run}
use smile4money.Breaker.Invariant.{config-step}

step-fails_closed :
    (b : CircuitBreaker) (now : ℕ)
    → b.state ≡ closed
    → b.failure_count + 1 < b.config.failure_threshold
    → ((step b (fails now)).state ≡ closed)
      × ((step b (fails now)).failure_count ≡ b.failure_count + 1)
unfolding step
step-fails_closed b now s h = ground arith

step-fails_trips :
    (b : CircuitBreaker) (now : ℕ)
    → b.state ≡ closed
    → b.config.failure_threshold ≤ b.failure_count + 1
    → (step b (fails now)).state ≡ open_circuit
unfolding step
step-fails_trips b now s h = ground arith

fails_open :
    (b : CircuitBreaker) (ts : List ℕ)
    → b.state ≡ open_circuit
    → (run b (map fails ts)).state ≡ open_circuit
unfolding run
fails_open b [] s = s
fails_open b (t ∷ ts) s = fails_open (step b (fails t)) ts (unfold step in ground arith)

-- `failureThreshold` failures in a row open a closed circuit, and fewer do not: with some failures
-- on record below the threshold, the circuit is still closed after more failures, whenever they
-- come, exactly when all together stay below the threshold.
pub trips_at_threshold :
    (b : CircuitBreaker) (ts : List ℕ)
    → b.state ≡ closed
    → b.failure_count < b.config.failure_threshold
    → ((run b (map fails ts)).state ≡ closed)
      ↔ (b.failure_count + length ts < b.config.failure_threshold)
unfolding run
trips_at_threshold b [] s h = ground arith
trips_at_threshold b (t ∷ ts) s h = ground (
  arith,
  config-step b (fails t),
  step-fails_closed b t s,
  step-fails_trips b t s,
  fails_open (step b (fails t)) ts,
  trips_at_threshold (step b (fails t)) ts,
)

-- An open circuit lets a request through exactly when no cooldown remains, which is when the
-- cooldown has passed since it opened; the request then is a half-open probe.
pub allows_after_cooldown :
    (b : CircuitBreaker) (opened now : ℕ)
    → b.state ≡ open_circuit
    → b.opened_at ≡ some opened
    → (((allow_request b now).1 ≡ true) ↔ (get_remaining_cooldown b now ≡ 0))
      × (((allow_request b now).1 ≡ true) ↔ (opened + calculate_cooldown b ≤ now))
      × (((allow_request b now).1 ≡ true) ↔ ((allow_request b now).0.state ≡ half_open))
unfolding allow_request get_remaining_cooldown
allows_after_cooldown b opened now s o = (ground arith, ground arith, ground arith)

step-succeeds_closed : (b : CircuitBreaker) → b.state ≡ closed → (step b succeeds).state ≡ closed
unfolding step
step-succeeds_closed b s = ground arith

step-succeeds_half :
    (b : CircuitBreaker)
    → b.state ≡ half_open
    → b.success_count + 1 < b.config.success_threshold
    → ((step b succeeds).state ≡ half_open)
      × ((step b succeeds).success_count ≡ b.success_count + 1)
unfolding step
step-succeeds_half b s h = ground arith

step-succeeds_recovers :
    (b : CircuitBreaker)
    → b.state ≡ half_open
    → b.config.success_threshold ≤ b.success_count + 1
    → (step b succeeds).state ≡ closed
unfolding step
step-succeeds_recovers b s h = ground arith

succeeds_closed :
    (b : CircuitBreaker) (k : ℕ) → b.state ≡ closed → (run b (replicate k succeeds)).state ≡ closed
unfolding run
succeeds_closed b zero s = s
succeeds_closed b (suc k) s = succeeds_closed (step b succeeds) k (step-succeeds_closed b s)

-- A half-open circuit with some successes on record below the threshold is closed after more
-- successes in a row exactly when all together reach `successThreshold`.
pub recovers_at_threshold :
    (b : CircuitBreaker) (k : ℕ)
    → b.state ≡ half_open
    → b.success_count < b.config.success_threshold
    → ((run b (replicate k succeeds)).state ≡ closed)
      ↔ (b.config.success_threshold ≤ b.success_count + k)
unfolding run
recovers_at_threshold b zero s h = ground arith
recovers_at_threshold b (suc k) s h = ground (
  arith,
  config-step b succeeds,
  step-succeeds_half b s,
  step-succeeds_recovers b s,
  succeeds_closed (step b succeeds) k,
  recovers_at_threshold (step b succeeds) k,
)

backoff_mono : (c m n : ℕ) → 0 < m → c * m ^ n ≤ c * m ^ suc n
backoff_mono c m n h =
    mul-le-mul_left c (subst (λ x. m ^ n ≤ x) (sym (pow-suc m n)) (le-mul_of_pos_right (m ^ n) h))

-- A probe that fails opens the circuit again from the time of the failure. The cooldown then is
-- the initial one times one more factor, capped by the maximum, and it never shrinks if the
-- multiplier is positive.
pub relapse_backs_off :
    (b : CircuitBreaker) (now : ℕ)
    → b.state ≡ half_open
    → 0 < b.config.backoff_multiplier
    → let c = (record_failure b now).0 in
      (c.state ≡ open_circuit)
      × (c.opened_at ≡ some now)
      × (calculate_cooldown c
          ≡ min
              (b.config.cooldown_ms * b.config.backoff_multiplier ^ suc b.attempt_count)
              b.config.max_cooldown_ms)
      × (calculate_cooldown b ≤ calculate_cooldown c)
unfolding record_failure calculate_cooldown
relapse_backs_off b now s m = (
  ground arith,
  ground arith,
  ground (arith, add-one b.attempt_count),
  ground (
    arith,
    add-one b.attempt_count,
    backoff_mono b.config.cooldown_ms b.config.backoff_multiplier b.attempt_count m,
  ),
)
