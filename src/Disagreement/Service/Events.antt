-- ===== src/Disagreement/Service/Events.antt =====
-- The calls, timers and answers of a service, in any order
-- (`createOutcomeDisagreementService` of apps/backend/src/services/outcome-disagreement-service.ts).
use smile4money.Common.{ℕ, ◌+◌, Option, none, some, List, [], ◌∷◌, if◌then◌else◌}
use smile4money.Common.Keys.{◌===◌, nat_eq}
use smile4money.Match.{MatchResult}
use smile4money.Disagreement.{MatchEvidenceInput, Observation, Evidence, given, absent, threw}
use smile4money.Disagreement.Monitor.{DisagreementMonitor, check_match}
use smile4money.Disagreement.Service.{
  ContractInvoker, ProviderFetchers, read_chain_result, fetch_provider_result, CheckJob,
  OutcomeDisagreementService, schedule_check, job_at, begin_check, end_check, stop,
}

-- How a check ends: it throws, or it reads the contract and the platform, with the time.
pub data Answer : Type 0 where
  throws : Answer
  reads : ContractInvoker → ProviderFetchers → ℕ → ℕ → Answer

abbrev pub chain_evidence : Option (Option MatchResult) → Evidence MatchResult
chain_evidence none = threw
chain_evidence (some none) = absent
chain_evidence (some (some r)) = given r

pub data Event : Type 0 where
  schedules : MatchEvidenceInput → Event
  fires : ℕ → Event
  ends : ℕ → Answer → Event
  stops : Event

abbrev pub ending :
    CheckJob → Answer → DisagreementMonitor → Option (DisagreementMonitor × Observation)
ending j throws m = none
ending j (reads invoke f now later) m =
    let chain = chain_evidence (read_chain_result invoke j.input.match_id) in
    some (check_match j.input chain (fetch_provider_result f j.input) now later m)

-- The event of a job that is not there, or is not in that phase, does not occur.
abbrev pub fire_at : ℕ → Option CheckJob → OutcomeDisagreementService → OutcomeDisagreementService
fire_at n none s = s
fire_at n (some j) s = if j.running then s else begin_check n j s

abbrev pub end_at :
    ℕ → Answer → Option CheckJob → OutcomeDisagreementService → OutcomeDisagreementService
end_at n a none s = s
end_at n a (some j) s = if j.running then end_check n j (ending j a s.monitor) s else s

unfoldable pub step : Event → OutcomeDisagreementService → OutcomeDisagreementService
step (schedules i) s = schedule_check i s
step (fires n) s = fire_at n (job_at n s.jobs) s
step (ends n a) s = end_at n a (job_at n s.jobs) s
step stops s = stop s

unfoldable pub after_events : List Event → OutcomeDisagreementService → OutcomeDisagreementService
after_events [] s = s
after_events (e ∷ es) s = after_events es (step e s)

-- How many checks of a match wait or run.
unfoldable pub checks_of : ℕ → List CheckJob → ℕ
checks_of i [] = 0
checks_of i (j ∷ js) = if j.input.match_id === i then checks_of i js + 1 else checks_of i js
