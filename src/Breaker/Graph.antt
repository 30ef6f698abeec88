-- ===== src/Breaker/Graph.antt =====
-- The state machine of apps/backend/src/services/circuit-breaker.ts, with the counters left out.
use smile4money.Common.{arith}
use smile4money.Breaker.{
  CircuitState, closed, open_circuit, half_open, CircuitBreaker, PersistedState,
}
use smile4money.Breaker.Calls.{Call, succeeds, resets, fails, asks, restores, step}

-- Which call may move the breaker from one state to another.
pub data Edge : Call → CircuitState → CircuitState → Type 0 where
  stay : {k : Call} {s : CircuitState} → Edge k s s
  trip : {now : _} → Edge (fails now) closed open_circuit
  relapse : {now : _} → Edge (fails now) half_open open_circuit
  probe : {now : _} → Edge (asks now) open_circuit half_open
  recover : Edge succeeds half_open closed
  manual : {s : CircuitState} → Edge resets s closed
  restored : {s : CircuitState} {p : PersistedState} {now : _} → Edge (restores p now) s p.state
  expired : {s : CircuitState} {p : PersistedState} {now : _} → Edge (restores p now) s closed

ruleset edges = (stay, trip, relapse, probe, recover, manual, restored, expired)

-- Every call stays in its state or follows one of the listed edges. So an open breaker closes only
-- through a half-open probe that succeeds, by a reset or by a restore, and only a failure opens it.
pub step-Edge : (b : CircuitBreaker) (k : Call) → Edge k b.state (step b k).state
unfolding step
step-Edge b succeeds = grind (arith, edges)
step-Edge b resets = grind (arith, edges)
step-Edge b (fails now) = grind (arith, edges)
step-Edge b (asks now) = grind (arith, edges)
step-Edge b (restores p now) = grind (arith, edges)
