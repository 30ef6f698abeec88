-- ===== src/Disagreement/Examples.antt =====
-- A match that the provider reports with Bob as white, and an observation of it.
use smile4money.Common.{
  List, ◌++◌, ◌+◌, ◌≡◌, ◌≢◌, true, false, none, some, [], ◌∷◌, if◌then◌else◌, arith,
}
use smile4money.Common.Text.{text, text_eq, text_beq_iff, trim, to_lower_case}
use smile4money.Match.{player1_wins, GameResult}
use smile4money.Match.Identity.{normalize_username}
use smile4money.Disagreement.{
  Observation, disagree, default_disagreement_monitor_config, MatchEvidenceInput, given, observe,
}
use smile4money.Disagreement.Monitor.{
  review_raised, review_recovered, degraded_raised, degraded_recovered, new_monitor,
  DisagreementMonitor, compute_status, record_observation,
}
use smile4money.Disagreement.Transitions.{
  Event, observes, asks_status, after_events, count_signal, signals_alternate,
}
use smile4money.Disagreement.Window.{IsWindow, record_observation-IsWindow}

abbrev game : GameResult
game = record {
  game_id = text "g1";
  status = text "mate";
  white_player = text "Bob";
  black_player = text "alice";
  result = some player1_wins;
}

no_is_yes : false ≡ true → ⊥
no_is_yes h = ground arith

alice_not_bob : normalize_username (text "Alice") ≢ normalize_username (text "bob")
unfolding normalize_username trim to_lower_case
alice_not_bob h = no_is_yes ((text_beq_iff (text "alice") (text "bob")).1 h)

abbrev input : MatchEvidenceInput
input = record {
  match_id = 7;
  game_id = text "g1";
  platform = text "lichess";
  player1_username = text "Alice";
  player2_username = text "bob";
}

-- The chain says that Alice won.
abbrev observation : Observation
unfolding observe
observation = observe input (given player1_wins) (some game) 100

abbrev monitor : DisagreementMonitor
unfolding observation
monitor = record {
  config = default_disagreement_monitor_config;
  observations =
      record {
        match_id = 6;
        platform = text "lichess";
        kind = disagree;
        reason = none;
        provider_outcome = none;
        chain_outcome = none;
        observed_at = 50;
      }
      ∷ [];
  review_active = false;
  degraded_active = false;
}

record_observation-IsWindow_example : IsWindow 120 (record_observation 120 observation monitor).0
record_observation-IsWindow_example =
    record_observation-IsWindow 120 observation monitor (unfold monitor in (tt, tt))

abbrev earlier : List Event
earlier = observes 50 observation ∷ asks_status 80 ∷ observes 90 observation ∷ []

signals_alternate_example :
    let before = after_events earlier (new_monitor default_disagreement_monitor_config, []) in
    let m = (record_observation 120 observation before.0).0 in
    let signals = before.1 ++ (record_observation 120 observation before.0).1 in
    let s = compute_status m in
    (count_signal review_raised signals ≡ (
      if m.review_active
      then count_signal review_recovered signals + 1
      else count_signal review_recovered signals))
    × (count_signal degraded_raised signals ≡ (
        if m.degraded_active
        then count_signal degraded_recovered signals + 1
        else count_signal degraded_recovered signals))
    × (m.review_active ≡ s.review_required)
    × (m.degraded_active ≡ s.evidence_degraded)
    × (s.decided + s.unverifiable_ ≡ s.window_observations)
signals_alternate_example =
    signals_alternate default_disagreement_monitor_config earlier 120 observation
