-- ===== src/Breaker/Durable.antt =====
-- What the persistence callback was last given, and a restart from it
-- (apps/backend/src/services/circuit-breaker.ts).
use smile4money.Common.{
  ℕ, ◌≡◌, refl, ◌⊎◌, ◌∙◌, inr, true, Bool, false, Option, none, some, List, [], ◌∷◌, or_try,
  if◌then◌else◌, arith,
}
use smile4money.Breaker.{
  CircuitBreakerConfig, CircuitBreaker, PersistedState, Effect, state_changed, persisted,
  get_snapshot, calculate_cooldown, cooled_down, new, initialize_circuit_breaker, is_closed,
}
use smile4money.Breaker.Calls.{Call, succeeds, resets, fails, asks, restores, step, run}
use smile4money.Breaker.Invariant.{config-step}

-- What the store holds: the newest snapshot that the callback was given.
abbrev pub last_persisted : List Effect → Option PersistedState
last_persisted [] = none
last_persisted (state_changed _ _ ∷ es) = last_persisted es
last_persisted (persisted p ∷ es) = some p

abbrev pub IsSaved : CircuitBreaker → Type 0
IsSaved b =
    (last_persisted b.effects ≡ some (get_snapshot b))
    ⊎ ((last_persisted b.effects ≡ none) × (get_snapshot b ≡ get_snapshot (new b.config)))

pub step-IsSaved :
    (b : CircuitBreaker) (k : Call)
    → b.config.has_on_persist ≡ true
    → IsSaved b
    → IsSaved (step b k)
unfolding step
step-IsSaved b succeeds h s = ground arith
step-IsSaved b resets h s = ground arith
step-IsSaved b (fails now) h s = ground arith
step-IsSaved b (asks now) h s = ground arith
step-IsSaved b (restores p now) h s = ground arith

run-IsSaved :
    (b : CircuitBreaker) (ks : List Call)
    → b.config.has_on_persist ≡ true
    → IsSaved b
    → IsSaved (run b ks)
unfolding run
run-IsSaved b [] h s = s
run-IsSaved b (k ∷ ks) h s =
    run-IsSaved (step b k) ks (ground (arith, config-step b k)) (step-IsSaved b k h s)

config-run : (b : CircuitBreaker) (ks : List Call) → (run b ks).config ≡ b.config
unfolding run
config-run b [] = refl
config-run b (k ∷ ks) = config-run (step b k) ks ∙ config-step b k

-- Not closed, and the cooldown has run out since the circuit opened.
abbrev pub is_stale : CircuitBreaker → ℕ → Bool
is_stale b now =
    if is_closed b.state
    then false
    else cooled_down (or_try b.opened_at b.last_failure_time) (calculate_cooldown b) now

pub restored_snapshot :
    (c : CircuitBreakerConfig) (b : CircuitBreaker) (now : ℕ)
    → b.config ≡ record c { has_on_persist = true }
    → IsSaved b
    → get_snapshot (initialize_circuit_breaker c (last_persisted b.effects) now)
      ≡ (if is_stale b now then get_snapshot (new c) else get_snapshot b)
unfolding initialize_circuit_breaker get_snapshot calculate_cooldown
restored_snapshot c b now e s = ground arith

config-initialize :
    (c : CircuitBreakerConfig) (now : ℕ)
    → (initialize_circuit_breaker c none now).config ≡ record c { has_on_persist = true }
unfolding initialize_circuit_breaker
config-initialize c now = refl

persists :
    (c : CircuitBreakerConfig) (now : ℕ)
    → (initialize_circuit_breaker c none now).config.has_on_persist ≡ true
unfolding initialize_circuit_breaker
persists c now = refl

initialize-IsSaved :
    (c : CircuitBreakerConfig) (now : ℕ) → IsSaved (initialize_circuit_breaker c none now)
unfolding initialize_circuit_breaker
initialize-IsSaved c now = inr (refl, refl)

-- A process that is started on an empty store, runs any history of calls and is started again on
-- what was saved has the breaker that it had; only a breaker that is not closed and whose cooldown
-- has run out meanwhile starts as a new, closed one.
pub restart_keeps_state :
    (c : CircuitBreakerConfig) (ks : List Call) (started now : ℕ)
    → let b = run (initialize_circuit_breaker c none started) ks in
      get_snapshot (initialize_circuit_breaker c (last_persisted b.effects) now)
      ≡ (if is_stale b now then get_snapshot (new c) else get_snapshot b)
restart_keeps_state c ks started now =
    let b0 = initialize_circuit_breaker c none started in
    restored_snapshot c (run b0 ks) now (config-run b0 ks ∙ config-initialize c started)
      (run-IsSaved b0 ks (persists c started) (initialize-IsSaved c started))
