-- ===== src/Breaker/Examples.antt =====
-- Histories of a breaker with a threshold of 2: it trips, probes, relapses and recovers.
use smile4money.Common.{◌≡◌, refl, true, none, List, [], ◌∷◌, arith}
use smile4money.Breaker.{
  closed, half_open, CircuitBreakerConfig, CircuitBreaker, default_config, new, get_snapshot,
  calculate_cooldown, initialize_circuit_breaker,
}
use smile4money.Breaker.Calls.{Call, succeeds, fails, asks, step, run}
use smile4money.Breaker.Invariant.{IsConsistent}
use smile4money.Breaker.Restarts
use smile4money.Breaker.Restarts.{restarts, live, live-IsConsistent}
use smile4money.Breaker.Durable.{last_persisted, restart_keeps_state}

abbrev quick : CircuitBreakerConfig
quick = record default_config { failure_threshold = 2; cooldown_ms = 100; has_on_persist = true }

abbrev history : List Call
history = fails 10 ∷ fails 20 ∷ asks 119 ∷ asks 120 ∷ fails 130 ∷ asks 330 ∷ succeeds ∷ []

history_is_half_open : (run (new quick) history).state ≡ half_open
unfolding run step new
history_is_half_open = refl

history_recovers : (run (new quick) (succeeds ∷ [])).state ≡ closed
unfolding run step new
history_recovers = refl

abbrev tripped : CircuitBreaker
unfolding run step new
tripped = run (new quick) (fails 10 ∷ fails 20 ∷ [])

abbrev probing : CircuitBreaker
unfolding run step new
probing = run (new quick) (fails 10 ∷ fails 20 ∷ asks 120 ∷ [])

live-IsConsistent_example : IsConsistent quick (
    get_snapshot (
      live quick
        (Restarts.fails 10
          ∷ Restarts.fails 20
          ∷ restarts 90
          ∷ Restarts.asks 125
          ∷ Restarts.fails 130
          ∷ [])
        (initialize_circuit_breaker quick none 0)))
live-IsConsistent_example =
    live-IsConsistent quick
      (Restarts.fails 10
        ∷ Restarts.fails 20
        ∷ restarts 90
        ∷ Restarts.asks 125
        ∷ Restarts.fails 130
        ∷ [])
      0 (omega arith)

restart_keeps_state_example :
    get_snapshot (
      initialize_circuit_breaker quick
        (last_persisted
          (run (initialize_circuit_breaker quick none 0) (fails 10 ∷ fails 20 ∷ [])).effects)
        90)
    ≡ get_snapshot (run (initialize_circuit_breaker quick none 0) (fails 10 ∷ fails 20 ∷ []))
unfolding run step initialize_circuit_breaker calculate_cooldown
restart_keeps_state_example = restart_keeps_state quick (fails 10 ∷ fails 20 ∷ []) 0 90
