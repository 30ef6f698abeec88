-- ===== src/Polling/Worker.antt =====
-- The polling worker: `pollJob`, `checkLedgerTimeout` and `pollAllJobs` of
-- apps/backend/src/services/polling.ts. What a poll answers and what the ledger call returns are
-- parameters, `none` where they throw; callbacks and timers are listed as effects, and a cycle runs
-- without another in between. A job's object is the one in the store while it is there.
use smile4money.Common.{
  ℕ, ◌+◌, ◌*◌, ◌^◌, Bool, true, false, Option, none, some, List, [], ◌∷◌, ◌++◌, leb, if◌then◌else◌,
  or_else,
}
use smile4money.Common.Keys.{string_eq}
use smile4money.Common.OrderedMap.{get}
use smile4money.Common.Text.{Text, text}
use smile4money.Match.{MatchResult}
use smile4money.Polling.{
  PollJob, PollJobStatus, pending, completed, failed, in_progress, review_required, PollingJobStore,
  increment_attempt, complete_job, remove_job, list_pending_jobs,
}

-- The backoff multiplier is a natural number here.
pub record PollingConfig : Type 0 where
  pub polling_interval_ms : ℕ
  pub max_polling_attempts : ℕ
  pub backoff_multiplier : ℕ
  pub default_timeout_ledgers : ℕ

abbrev pub default_config : PollingConfig
default_config = record {
  polling_interval_ms = 30000;
  max_polling_attempts = 1440;
  backoff_multiplier = 1;
  default_timeout_ledgers = 120960;
}

unfoldable pub calculate_next_poll_delay : ℕ → ℕ → ℕ → ℕ
calculate_next_poll_delay attempt base multiplier = base * multiplier ^ attempt

-- The callbacks and the timers that a poll sets off.
pub data Effect : Type 0 where
  game_completed : PollJob → MatchResult → Option ℕ → Effect
  max_attempts_exceeded : PollJob → Option Text → Effect
  poll_scheduled : PollJob → ℕ → Effect
  cycle_scheduled : ℕ → Effect

pub record Polled : Type 0 where
  pub store : PollingJobStore
  pub effects : List Effect
  pub threw : Bool

abbrev pub done : PollingJobStore → List Effect → Polled
done s es = record { store = s; effects = es; threw = false }

-- What the ledger call gives: nothing is configured, it throws, or the current ledger.
pub data Ledger : Type 0 where
  not_configured ledger_error : Ledger
  ledger : ℕ → Ledger

-- Whether the job is past its window.
unfoldable pub check_ledger_timeout : PollingConfig → Ledger → PollJob → Bool
check_ledger_timeout c not_configured job = false
check_ledger_timeout c ledger_error job = false
check_ledger_timeout c (ledger current) job = elim job.created_at_ledger [
  | none ↦ false
  | some created ↦ leb (created + or_else job.timeout_ledgers c.default_timeout_ledgers) current
]

unfoldable pub handle_status : PollingConfig → PollJob → PollJobStatus → PollingJobStore → Polled
handle_status c job answer s = elim answer.status [
  | review_required ↦ done (remove_job job.id s) []
  | in_progress ↦ done s (
      poll_scheduled job
        (calculate_next_poll_delay job.polling_attempt c.polling_interval_ms c.backoff_multiplier)
      ∷ [])
  | completed ↦ elim answer.result [
    | some result ↦ done (complete_job job.id s) (game_completed job result answer.decision_id ∷ [])
    | none ↦ done s []
  ]
  | failed ↦
      if leb c.max_polling_attempts job.polling_attempt
      then done (remove_job job.id s) (max_attempts_exceeded job answer.reason ∷ [])
      else done s []
  | pending ↦ done s []
]

unfoldable pub poll_job :
    PollingConfig
    → Ledger
    → (PollJob → Option PollJobStatus)
    → ℕ
    → PollJob
    → PollingJobStore
    → Polled
poll_job c l poll now job s =
    if check_ledger_timeout c l job
    then done (remove_job job.id s) (max_attempts_exceeded job (some (text "TIMED_OUT")) ∷ [])
    else (let counted = increment_attempt job.id now s in
        let job = or_else (get job.id counted.jobs) job in
        elim (poll job) [
          | none ↦ record { store = counted; effects = []; threw = true }
          | some answer ↦ handle_status c job answer counted
        ])

-- The jobs of a cycle in turn; a poll that throws does not stop the others.
unfoldable pub poll_jobs :
    PollingConfig
    → (PollJob → Ledger)
    → (PollJob → Option PollJobStatus)
    → ℕ
    → List PollJob
    → PollingJobStore
    → PollingJobStore × List Effect
poll_jobs c l poll now [] s = (s, [])
poll_jobs c l poll now (job ∷ jobs) s =
    let polled = poll_job c (l job) poll now job s in
    let rest = poll_jobs c l poll now jobs polled.store in (rest.0, polled.effects ++ rest.1)

unfoldable pub poll_all_jobs :
    PollingConfig
    → (PollJob → Ledger)
    → (PollJob → Option PollJobStatus)
    → (stopped : Bool) → ℕ
    → PollingJobStore
    → PollingJobStore × List Effect
poll_all_jobs c l poll stopped now s =
    let polled = poll_jobs c l poll now (list_pending_jobs s) s in
    (polled.0, polled.1 ++ (if stopped then [] else cycle_scheduled c.polling_interval_ms ∷ []))
