-- ===== src/Disagreement/Service.antt =====
-- The service that checks settled matches after a delay:
-- apps/backend/src/services/outcome-disagreement-service.ts. A timer that is armed is a waiting job; its
-- handle is the job's place. The contract, the fetchers and the RPC are parameters.
pub mod Events
pub mod Checks
mod Examples
use smile4money.Common.{
  ℕ, zero, suc, ◌+◌, ◌*◌, Bool, true, false, ◌&&◌, ◌||◌, not, Option, none, some, List, [], ◌∷◌,
  ◌++◌, String, ltb, if◌then◌else◌, or_else, keep,
}
use smile4money.Common.Keys.{◌===◌, nat_eq, string_eq}
use smile4money.Common.OrderedSet.{member, insert, remove}
use smile4money.Common.Text.{Text, text, text_eq, trim, to_lower_case, is_truthy}
use smile4money.Match.{MatchResult, player1_wins, player2_wins, draw, GameResult}
use smile4money.Disagreement.{
  MatchEvidenceInput, Observation, ObservationKind, UnverifiableReason, DisagreementMonitorConfig,
  Evidence,
}
use smile4money.Disagreement.Monitor.{
  DisagreementMonitor, MonitorStatus, new_monitor, check_match, get_status,
}

abbrev pub default_max_check_attempts : ℕ
default_max_check_attempts = 3

pub data ReadOnlyContractFn : Type 0 where
  has_result get_result : ReadOnlyContractFn

-- A value that the contract returns, as the SDK decodes it. A `field` is that of a map or of an object.
mutual
  pub data Native : Type 0 where
    native_text : Text → Native
    native_bool : Bool → Native
    native_array : Items → Native
    native_record : Entries → Native
    native_other : Native

  pub data Items : Type 0 where
    no_items : Items
    item : Native → Items → Items

  pub data Entries : Type 0 where
    no_entries : Entries
    entry : Text → Native → Entries → Entries

abbrev pub outcome_named : Text → Option MatchResult
outcome_named s =
    if s === text "Player1Wins"
    then some player1_wins
    else if s === text "Player2Wins"
    then some player2_wins
    else if s === text "Draw"
    then some draw
    else none

abbrev pub decode_candidate : Native → Option MatchResult
decode_candidate (native_text s) = outcome_named s
decode_candidate _ = none

-- `none`: the source throws.
unfoldable pub decode_match_result : Native → Option MatchResult
decode_match_result (native_array no_items) = none
decode_match_result (native_array (item v vs)) = decode_candidate v
decode_match_result (native_text s) = outcome_named s
decode_match_result _ = none

abbrev pub find_entry : Text → Entries → Option Native
find_entry name no_entries = none
find_entry name (entry n v es) = if n === name then some v else find_entry name es

-- An array is an object without the field.
unfoldable pub decode_result_entry : Native → Option MatchResult
unfolding decode_match_result
decode_result_entry (native_record es) = elim (find_entry (text "result") es) [
  | none ↦ none
  | some v ↦ decode_match_result v
]
decode_result_entry _ = none

-- A call throws (`none`) when it fails or takes longer than the limit.
abbrev pub ContractInvoker : Type 0
ContractInvoker = ReadOnlyContractFn → ℕ → Option Native

-- `none`: the read throws; `some none`: no result is recorded.
unfoldable pub read_chain_result : ContractInvoker → ℕ → Option (Option MatchResult)
unfolding decode_result_entry
read_chain_result invoke match_id = elim (invoke has_result match_id) [
  | some (native_bool false) ↦ some none
  | some (native_bool true) ↦ elim (invoke get_result match_id) [
    | none ↦ none
    | some v ↦ elim (decode_result_entry v) [ none ↦ none | some r ↦ some (some r) ]
  ]
  | _ ↦ none
]

-- `none`: the network is not known, and the source throws.
unfoldable pub resolve_network_passphrase : Option Text → Option Text → Option Text
unfolding trim to_lower_case
resolve_network_passphrase passphrase network =
    let explicit = trim (or_else passphrase []) in
    let name = to_lower_case (trim (or_else network (text "testnet"))) in
    if is_truthy (some explicit)
    then some explicit
    else if name === text "testnet"
    then some (text "Test SDF Network ; September 2015")
    else if name === text "mainnet" || name === text "public"
    then some (text "Public Global Stellar Network ; September 2015")
    else if name === text "futurenet"
    then some (text "Test SDF Future Network ; October 2022")
    else if name === text "standalone"
    then some (text "Standalone Network ; February 2017")
    else none

pub record ProviderFetchers : Type 0 where
  pub lichess : Text → Option GameResult
  pub chessdotcom : Text → Text → Option GameResult

-- `none`: the fetch throws.
unfoldable pub fetch_provider_result : ProviderFetchers → MatchEvidenceInput → Option GameResult
fetch_provider_result f i =
    if i.platform === text "lichess"
    then f.lichess i.game_id
    else if i.platform === text "chessdotcom"
    then f.chessdotcom i.player1_username i.game_id
    else none

-- A check that waits for its timer, or that runs.
pub record CheckJob : Type 0 where
  pub input : MatchEvidenceInput
  pub attempt : ℕ
  pub running : Bool

pub record OutcomeDisagreementService : Type 0 where
  pub monitor : DisagreementMonitor
  pub max_attempts : ℕ
  pub jobs : List CheckJob
  pub scheduled : List ℕ
  pub stopped : Bool

unfoldable pub create_outcome_disagreement_service :
    DisagreementMonitorConfig → Option ℕ → OutcomeDisagreementService
unfolding new_monitor
create_outcome_disagreement_service config max_check_attempts = record {
  monitor = new_monitor config;
  max_attempts = or_else max_check_attempts default_max_check_attempts;
  jobs = [];
  scheduled = [];
  stopped = false;
}

unfoldable pub arm :
    MatchEvidenceInput → ℕ → OutcomeDisagreementService → OutcomeDisagreementService
arm i attempt s = record s {
  jobs = s.jobs ++ (record { input = i; attempt = attempt; running = false } ∷ []);
}

unfoldable pub schedule_check :
    MatchEvidenceInput → OutcomeDisagreementService → OutcomeDisagreementService
schedule_check i s =
    if s.stopped || member i.match_id s.scheduled
    then s
    else arm i 1 (record s { scheduled = insert i.match_id s.scheduled })

abbrev pub job_at : ℕ → List CheckJob → Option CheckJob
job_at n [] = none
job_at zero (j ∷ js) = some j
job_at (suc n) (j ∷ js) = job_at n js

abbrev pub without_job : ℕ → List CheckJob → List CheckJob
without_job n [] = []
without_job zero (j ∷ js) = js
without_job (suc n) (j ∷ js) = j ∷ without_job n js

abbrev pub unschedule : ℕ → OutcomeDisagreementService → OutcomeDisagreementService
unschedule match_id s = record s { scheduled = remove match_id s.scheduled }

abbrev pub drop_job : ℕ → OutcomeDisagreementService → OutcomeDisagreementService
drop_job n s = record s { jobs = without_job n s.jobs }

-- The timer of a waiting job fires, and its check begins.
unfoldable pub begin_check : ℕ → CheckJob → OutcomeDisagreementService → OutcomeDisagreementService
begin_check n j s =
    if s.stopped
    then unschedule j.input.match_id (drop_job n s)
    else record s { jobs = without_job n s.jobs ++ (record j { running = true } ∷ []) }

abbrev pub is_retryable : Observation → Bool
is_retryable o = elim o.kind [
  | ObservationKind.unverifiable ↦ elim o.reason [
    | some UnverifiableReason.identity_unmappable ↦ false
    | _ ↦ true
  ]
  | _ ↦ false
]

-- A check ends; `none`: it threw.
unfoldable pub end_check :
    ℕ
    → CheckJob
    → Option (DisagreementMonitor × Observation)
    → OutcomeDisagreementService
    → OutcomeDisagreementService
end_check n j none s = unschedule j.input.match_id (drop_job n s)
end_check n j (some r) s =
    let t = record (drop_job n s) { monitor = r.0 } in
    if (is_retryable r.1 && ltb j.attempt s.max_attempts) && not s.stopped
    then arm j.input (j.attempt + 1) t
    else unschedule j.input.match_id t

unfoldable pub stop : OutcomeDisagreementService → OutcomeDisagreementService
stop s = record s { jobs = keep (λ j. j.running) s.jobs; scheduled = []; stopped = true }
