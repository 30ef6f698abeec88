-- ===== src/Breaker/Calls.antt =====
-- Histories of a circuit breaker: sequences of calls of the state-changing methods of
-- apps/backend/src/services/circuit-breaker.ts.
use smile4money.Common.{ℕ, List, [], ◌∷◌}
use smile4money.Breaker.{
  CircuitBreaker, PersistedState, record_success, record_failure, allow_request, reset,
  restore_state,
}

pub data Call : Type 0 where
  succeeds resets : Call
  fails asks : ℕ → Call
  restores : PersistedState → ℕ → Call

unfoldable pub step : CircuitBreaker → Call → CircuitBreaker
unfolding record_success record_failure allow_request reset restore_state
step b succeeds = record_success b
step b resets = reset b
step b (fails now) = (record_failure b now).0
step b (asks now) = (allow_request b now).0
step b (restores p now) = restore_state b p now

unfoldable pub run : CircuitBreaker → List Call → CircuitBreaker
run b [] = b
run b (c ∷ cs) = run (step b c) cs
