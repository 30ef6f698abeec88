-- ===== src/Disagreement/Service/Examples.antt =====
-- A service with two attempts checks a match while the contract has no result, and is stopped.
use smile4money.Common.{
  ◌≡◌, ◌≤◌, ◌⊎◌, refl, true, false, none, some, List, [], ◌∷◌, if◌then◌else◌, All, arith,
}
use smile4money.Common.Keys.{nat_eq}
use smile4money.Common.OrderedSet.{member}
use smile4money.Common.Text.{text, text_eq}
use smile4money.Match.{player1_wins}
use smile4money.Disagreement.{MatchEvidenceInput, default_disagreement_monitor_config}
use smile4money.Disagreement.Service.{
  has_result, get_result, native_bool, native_array, native_record, native_text, item, no_items,
  entry, no_entries, ContractInvoker, ProviderFetchers, read_chain_result, decode_result_entry,
  decode_match_result, create_outcome_disagreement_service,
}
use smile4money.Disagreement.Service.Events.{
  Event, schedules, fires, ends, stops, reads, after_events, checks_of,
}
use smile4money.Disagreement.Service.Checks.{checks_are_single}

abbrev input : MatchEvidenceInput
input = record {
  match_id = 7;
  game_id = text "g1";
  platform = text "lichess";
  player1_username = text "Alice";
  player2_username = text "bob";
}

abbrev without_result : ContractInvoker
without_result has_result i = some (native_bool false)
without_result get_result i = none

abbrev with_result : ContractInvoker
with_result has_result i = some (native_bool true)
with_result get_result i = some (
    native_record (
      entry (text "result") (native_array (item (native_text (text "Player1Wins")) no_items))
        no_entries))

result_is_read : read_chain_result with_result 7 ≡ some (some player1_wins)
unfolding read_chain_result decode_result_entry decode_match_result
result_is_read = refl

abbrev fetchers : ProviderFetchers
fetchers = record { lichess = λ g. none; chessdotcom = λ p g. none }

abbrev events : List Event
events =
    schedules input
    ∷ schedules input
    ∷ fires 0
    ∷ ends 0 (reads without_result fetchers 1000 1000)
    ∷ fires 0
    ∷ stops
    ∷ []

checks_are_single_example :
    let s =
      after_events events
        (create_outcome_disagreement_service default_disagreement_monitor_config (some 2)) in
    (s.stopped ≡ true ⊎ (checks_of 7 s.jobs ≡ (if member 7 s.scheduled then 1 else 0)))
    × All (λ j. j.attempt ≤ 2) s.jobs
    × (s.stopped ≡ false ⊎ All (λ j. j.running ≡ true) s.jobs)
checks_are_single_example =
    checks_are_single default_disagreement_monitor_config 2 events 7 (omega arith)
