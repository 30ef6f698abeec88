-- ===== src/Breaker/Invariant.antt =====
-- What holds of a breaker between two calls (apps/backend/src/services/circuit-breaker.ts).
use smile4money.Common.{◌<◌, ◌≡◌, true, is_some, arith}
use smile4money.Breaker.{
  closed, open_circuit, half_open, CircuitBreakerConfig, CircuitBreaker, PersistedState,
  get_snapshot, new,
}
use smile4money.Breaker.Calls.{Call, succeeds, resets, fails, asks, restores, step}

pub record IsConfigured (c : CircuitBreakerConfig) : Type 0 where
  pub failures : 0 < c.failure_threshold
  pub successes : 0 < c.success_threshold

-- The counters stay below their thresholds, an open breaker knows when it opened, and a closed one
-- has no attempt on record.
pub record IsConsistent (c : CircuitBreakerConfig) (p : PersistedState) : Type 0 where
  pub closed_below : p.state ≡ closed → p.failure_count < c.failure_threshold
  pub half_open_below : p.state ≡ half_open → p.success_count < c.success_threshold
  pub open_since : p.state ≡ open_circuit → is_some p.opened_at ≡ true
  pub half_open_since : p.state ≡ half_open → is_some p.opened_at ≡ true
  pub closed_fresh : p.state ≡ closed → p.attempt_count ≡ 0

-- A restored snapshot is consistent; nothing is asked of the other calls.
abbrev pub IsSound : CircuitBreakerConfig → Call → Type 0
IsSound c succeeds = Unit
IsSound c resets = Unit
IsSound c (fails now) = Unit
IsSound c (asks now) = Unit
IsSound c (restores p now) = IsConsistent c p

pub new-IsConsistent :
    (c : CircuitBreakerConfig) → IsConfigured c → IsConsistent c (get_snapshot (new c))
unfolding get_snapshot new
new-IsConsistent c h = ground arith

pub config-step : (b : CircuitBreaker) (k : Call) → (step b k).config ≡ b.config
unfolding step
config-step b succeeds = ground arith
config-step b resets = ground arith
config-step b (fails now) = ground arith
config-step b (asks now) = ground arith
config-step b (restores p now) = ground arith

pub step-IsConsistent :
    (c : CircuitBreakerConfig) (b : CircuitBreaker) (k : Call)
    → b.config ≡ c
    → IsConfigured c
    → IsSound c k
    → IsConsistent c (get_snapshot b)
    → IsConsistent c (get_snapshot (step b k))
unfolding step get_snapshot
step-IsConsistent c b succeeds e h s v = ground arith
step-IsConsistent c b resets e h s v = ground arith
step-IsConsistent c b (fails now) e h s v = ground arith
step-IsConsistent c b (asks now) e h s v = ground arith
step-IsConsistent c b (restores p now) e h s v = ground arith
