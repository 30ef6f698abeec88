-- ===== src/Polling/Retries.antt =====
-- Repeated polls of a job (`pollJob` of apps/backend/src/services/polling.ts).
use smile4money.Common.{
  ℕ, zero, suc, ◌+◌, ◌<◌, ◌≡◌, Option, none, some, String, if◌then◌else◌, arith, Bool-cases, inl,
  inr, leb, ltb,
}
use smile4money.Common.Keys.{string_eq}
use smile4money.Common.Text.{Text}
use smile4money.Polling.{PollJob, PollJobStatus, failed, PollingJobStore, get_job, polled_once}
use smile4money.Polling.Worker.{PollingConfig, not_configured, check_ledger_timeout, poll_job}
use smile4money.Polling.Polls.{poll_job_lem}

abbrev pub failing : Option Text → PollJobStatus
failing reason = record { status = failed; decision_id = none; result = none; reason = reason }

-- A number of polls of a job, while it is in the store, that all fail.
unfoldable pub failing_polls :
    PollingConfig → Option Text → ℕ → String → PollingJobStore → PollingJobStore
failing_polls c reason zero id s = s
failing_polls c reason (suc n) id s = elim (get_job id s) [
  | none ↦ s
  | some job ↦
      failing_polls c reason n id
        (poll_job c not_configured (λ _. some (failing reason)) 0 job s).store
]

abbrev pub with_attempts : ℕ → PollJob → PollJob
with_attempts n job = record job {
  polling_attempt = job.polling_attempt + n;
  last_polled_at = if ltb 0 n then some 0 else job.last_polled_at;
}

left_alone :
    (c : PollingConfig) (reason : Option Text) (n : ℕ) (id : String) (s : PollingJobStore)
    → get_job id s ≡ none
    → get_job id (failing_polls c reason n id s) ≡ none
unfolding failing_polls
left_alone c reason zero id s h = h
left_alone c reason (suc n) id s h = ground arith

one_failure :
    (c : PollingConfig) (reason : Option Text) (job : PollJob) (s : PollingJobStore)
    → get_job job.id s ≡ some job
    → get_job job.id (poll_job c not_configured (λ _. some (failing reason)) 0 job s).store ≡ (
        if leb c.max_polling_attempts (job.polling_attempt + 1)
        then none
        else some (polled_once 0 job))
unfolding check_ledger_timeout
one_failure c reason job s h =
    (poll_job_lem c not_configured (λ _. some (failing reason)) 0 job s job.id h).0

-- Under polls that all fail, a job stays in the store exactly while it has been polled fewer than
-- `max_polling_attempts` times; the poll that reaches the limit removes it.
pub failing_polls_lem :
    (c : PollingConfig) (reason : Option Text) (n : ℕ) (job : PollJob) (s : PollingJobStore)
    → get_job job.id s ≡ some job
    → job.polling_attempt < c.max_polling_attempts
    → get_job job.id (failing_polls c reason n job.id s) ≡ (
        if ltb (job.polling_attempt + n) c.max_polling_attempts
        then some (with_attempts n job)
        else none)
unfolding failing_polls
failing_polls_lem c reason zero job s h below = ground arith
failing_polls_lem c reason (suc n) job s h below =
    let poll = λ (_ : PollJob). some (failing reason) in
    let next = (poll_job c not_configured poll 0 job s).store in
    elim (Bool-cases (leb c.max_polling_attempts (job.polling_attempt + 1))) [
      | inl last ↦ ground (arith, one_failure c reason job s h, left_alone c reason n job.id next)
      | inr more ↦ ground (
        arith,
        one_failure c reason job s h,
        failing_polls_lem c reason n (polled_once 0 job) next,
      )
    ]
