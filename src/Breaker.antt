-- ===== src/Breaker.antt =====
-- The circuit breaker for RPC failures: apps/backend/src/services/circuit-breaker.ts.
-- A method takes the breaker and the time (`Date.now()` is read once for each call) and returns
-- the new breaker; `effects` lists, newest first, the calls of the callbacks made so far.
pub mod Calls
pub mod Invariant
pub mod Graph
pub mod Durable
pub mod Restarts
pub mod Recovery
mod Examples
use smile4money.Common.{
  ℕ, ◌+◌, ◌-◌, ◌*◌, ◌^◌, min, Bool, true, false, Option, none, some, List, [], ◌∷◌, leb,
  if◌then◌else◌, or_try,
}

pub data CircuitState : Type 0 where
  closed open_circuit half_open : CircuitState

-- `has_on_state_change` and `has_on_persist` say whether the optional callbacks are given. The backoff
-- multiplier is a natural number, as the default is.
pub record CircuitBreakerConfig : Type 0 where
  pub failure_threshold : ℕ
  pub cooldown_ms : ℕ
  pub backoff_multiplier : ℕ
  pub max_cooldown_ms : ℕ
  pub success_threshold : ℕ
  pub has_on_state_change : Bool
  pub has_on_persist : Bool

abbrev pub default_config : CircuitBreakerConfig
default_config = record {
  failure_threshold = 5;
  cooldown_ms = 30000;
  backoff_multiplier = 2;
  max_cooldown_ms = 600000;
  success_threshold = 2;
  has_on_state_change = false;
  has_on_persist = false;
}

pub record PersistedState : Type 0 where
  pub state : CircuitState
  pub failure_count : ℕ
  pub success_count : ℕ
  pub last_failure_time : Option ℕ
  pub opened_at : Option ℕ
  pub attempt_count : ℕ

pub data Effect : Type 0 where
  state_changed : CircuitState → CircuitState → Effect
  persisted : PersistedState → Effect

pub record CircuitBreaker : Type 0 where
  pub config : CircuitBreakerConfig
  pub state : CircuitState
  pub failure_count : ℕ
  pub success_count : ℕ
  pub last_failure_time : Option ℕ
  pub opened_at : Option ℕ
  pub attempt_count : ℕ
  pub effects : List Effect

abbrev pub same_state : CircuitState → CircuitState → Bool
same_state closed closed = true
same_state open_circuit open_circuit = true
same_state half_open half_open = true
same_state _ _ = false

unfoldable pub new : CircuitBreakerConfig → CircuitBreaker
new c = record {
  config = c;
  state = closed;
  failure_count = 0;
  success_count = 0;
  last_failure_time = none;
  opened_at = none;
  attempt_count = 0;
  effects = [];
}

unfoldable pub calculate_cooldown : CircuitBreaker → ℕ
calculate_cooldown b =
    min (b.config.cooldown_ms * b.config.backoff_multiplier ^ b.attempt_count)
      b.config.max_cooldown_ms

-- `cooldown - (now - openedAt)`, and 0 where that is negative.
unfoldable pub get_remaining_cooldown : CircuitBreaker → ℕ → ℕ
get_remaining_cooldown b now = elim b.state [
  | open_circuit ↦ elim b.opened_at [ some opened ↦ calculate_cooldown b + opened - now | none ↦ 0 ]
  | _ ↦ 0
]

unfoldable pub get_snapshot : CircuitBreaker → PersistedState
get_snapshot b = record {
  state = b.state;
  failure_count = b.failure_count;
  success_count = b.success_count;
  last_failure_time = b.last_failure_time;
  opened_at = b.opened_at;
  attempt_count = b.attempt_count;
}

unfoldable pub persist : CircuitBreaker → CircuitBreaker
unfolding get_snapshot
persist b =
    if b.config.has_on_persist
    then record b { effects = persisted (get_snapshot b) ∷ b.effects }
    else b

unfoldable pub transition_state : CircuitBreaker → CircuitState → CircuitBreaker
transition_state b s = if same_state b.state s then b else record b {
  state = s;
  effects = if b.config.has_on_state_change then state_changed b.state s ∷ b.effects else b.effects;
}

-- `elapsed >= cooldown`, without the subtraction; an unknown start counts as infinitely long ago.
abbrev pub cooled_down : Option ℕ → ℕ → ℕ → Bool
cooled_down none cooldown now = true
cooled_down (some start) cooldown now = leb (start + cooldown) now

unfoldable pub clear_counters : CircuitBreaker → CircuitBreaker
clear_counters b = record b {
  failure_count = 0;
  success_count = 0;
  last_failure_time = none;
  opened_at = none;
  attempt_count = 0;
}

abbrev pub is_closed : CircuitState → Bool
is_closed closed = true
is_closed _ = false

unfoldable pub restore_state : CircuitBreaker → PersistedState → ℕ → CircuitBreaker
unfolding persist calculate_cooldown clear_counters
restore_state b p now =
    let restored = record b {
      state = p.state;
      failure_count = p.failure_count;
      success_count = p.success_count;
      last_failure_time = p.last_failure_time;
      opened_at = p.opened_at;
      attempt_count = p.attempt_count;
    } in
    let reference = or_try p.opened_at p.last_failure_time in
    persist (
      if is_closed p.state
      then restored
      else if cooled_down reference (calculate_cooldown restored) now
      then clear_counters (record restored { state = closed })
      else restored)

unfoldable pub record_success : CircuitBreaker → CircuitBreaker
unfolding persist transition_state
record_success b = elim b.state [
  | half_open ↦
      let c = record b { success_count = b.success_count + 1 } in
      persist (
        if leb b.config.success_threshold c.success_count
        then record (transition_state c closed) {
          failure_count = 0;
          success_count = 0;
          attempt_count = 0;
        }
        else c)
  | closed ↦ persist (record b { failure_count = 0 })
  | open_circuit ↦ persist b
]

-- The result says whether the circuit was opened.
unfoldable pub record_failure : CircuitBreaker → ℕ → CircuitBreaker × Bool
unfolding persist transition_state
record_failure b now =
    let b1 = record b { last_failure_time = some now } in
    elim b.state [
      | half_open ↦ (
        persist (record (transition_state b1 open_circuit) {
          success_count = 0;
          attempt_count = b.attempt_count + 1;
          opened_at = some now;
        }),
        true,
      )
      | closed ↦
          let c = record b1 { failure_count = b.failure_count + 1 } in
          if leb b.config.failure_threshold c.failure_count
          then (
            persist (record (transition_state c open_circuit) {
              opened_at = some now;
              attempt_count = 0;
            }),
            true,
          )
          else (persist c, false)
      | open_circuit ↦ (persist b1, false)
    ]

unfoldable pub allow_request : CircuitBreaker → ℕ → CircuitBreaker × Bool
unfolding persist transition_state calculate_cooldown
allow_request b now = elim b.state [
  | closed ↦ (b, true)
  | half_open ↦ (b, true)
  | open_circuit ↦ elim b.opened_at [
    | none ↦ (b, false)
    | some opened ↦
        if leb (opened + calculate_cooldown b) now
        then (
          persist (record (transition_state b half_open) { success_count = 0; failure_count = 0 }),
          true,
        )
        else (b, false)
  ]
]

unfoldable pub reset : CircuitBreaker → CircuitBreaker
unfolding persist transition_state clear_counters
reset b = persist (clear_counters (transition_state b closed))

-- `initializeCircuitBreaker`: `saved` is what the store's `load` returned. The new breaker always
-- has a persistence callback.
unfoldable pub initialize_circuit_breaker :
    CircuitBreakerConfig → Option PersistedState → ℕ → CircuitBreaker
unfolding restore_state new
initialize_circuit_breaker c saved now =
    let b = new (record c { has_on_persist = true }) in
    elim saved [ none ↦ b | some p ↦ restore_state b p now ]
