-- ===== src/Submit.antt =====
-- Submitting a result with retries: apps/backend/src/services/oracle-submit.ts. The handler is a
-- parameter that is given the number of the attempt and returns the error that it throws, if it
-- does; the result records every wait and what the log says of it.
pub mod Retry
pub mod Backoff
pub mod Outbox
mod Examples
use smile4money.Common.{
  ℕ, zero, suc, ◌+◌, ◌*◌, ◌^◌, min, Bool, true, false, Option, none, some, List, [], ◌∷◌, String,
  ltb, if◌then◌else◌, or_else,
}
use smile4money.Dlq.{DlqEntry, QueueStore}
use smile4money.Dlq.Worker.{write_to_dlq}
use smile4money.Match.{MatchResult}
use smile4money.Common.Text.{Text}

-- The environment's values are natural numbers here.
pub record RetryConfig : Type 0 where
  pub max_retries : ℕ
  pub base_delay_ms : ℕ
  pub max_delay_ms : ℕ

pub record OracleSubmission : Type 0 where
  pub decision_id : Option ℕ
  pub match_id : ℕ
  pub game_id : Text
  pub result : MatchResult

unfoldable pub calculate_backoff_delay : ℕ → RetryConfig → ℕ
calculate_backoff_delay attempt c = min (c.base_delay_ms * 2 ^ attempt) c.max_delay_ms

-- One failed attempt that is tried again: the delay that the log announces, and the one slept.
pub record Wait : Type 0 where
  pub logged_ms : ℕ
  pub slept_ms : ℕ

-- How the loop ends: the handler succeeded on an attempt, or all failed, the last with an error.
pub data Ending : Type 0 where
  delivered : ℕ → Ending
  exhausted : Option String → Ending

-- The loop with `left` attempts to go, the next of them `attempt`; waits are listed in order.
unfoldable pub submit_attempts :
    (ℕ → Option String) → RetryConfig → ℕ → ℕ → Option String → List Wait × Ending
submit_attempts handler c zero attempt last_error = ([], exhausted last_error)
submit_attempts handler c (suc left) attempt last_error = elim (handler attempt) [
  | none ↦ ([], delivered attempt)
  | some err ↦
      let rest = submit_attempts handler c left (attempt + 1) (some err) in
      let wait : Wait = record {
        logged_ms = calculate_backoff_delay (attempt + 1) c;
        slept_ms = calculate_backoff_delay attempt c;
      } in
      if ltb attempt c.max_retries then (wait ∷ rest.0, rest.1) else rest
]

pub record Submitted (S : Type 0) : Type 0 where
  pub waits : List Wait
  pub store : S
  pub dlq_entry : Option (DlqEntry OracleSubmission)

module _ (q : QueueStore OracleSubmission) where
  open q use {Store}

  -- The id and the time of a dead-letter entry are given.
  unfoldable pub submit_with_retry :
      OracleSubmission → (ℕ → Option String) → RetryConfig → String → ℕ → Store → Submitted Store
  submit_with_retry submission handler c id now s =
      let attempts = submit_attempts handler c (suc c.max_retries) 0 none in
      elim attempts.1 [
        | delivered n ↦ record { waits = attempts.0; store = s; dlq_entry = none }
        | exhausted last_error ↦
            let written = write_to_dlq q id now submission (or_else last_error "Unknown error") s in
            record { waits = attempts.0; store = written.0; dlq_entry = some written.1 }
      ]

  -- The check for a result on chain returns what it finds, or `none` if it throws.
  unfoldable pub submit_with_idempotence :
      OracleSubmission
      → (ℕ → Option String)
      → (ℕ → Option Bool)
      → RetryConfig
      → String
      → ℕ
      → Store
      → Submitted Store
  submit_with_idempotence submission handler existence_checker c id now s =
      elim (existence_checker submission.match_id) [
        | some true ↦ record { waits = []; store = s; dlq_entry = none }
        | some false ↦ submit_with_retry submission handler c id now s
        | none ↦ submit_with_retry submission handler c id now s
      ]

-- One retry of a dead-letter entry, without waits: whether it succeeded.
unfoldable pub retry_dlq_entry :
    DlqEntry OracleSubmission → (OracleSubmission → Option String) → Bool
retry_dlq_entry entry handler = elim (handler entry.payload) [ none ↦ true | some err ↦ false ]
