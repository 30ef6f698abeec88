-- ===== src/Disagreement.antt =====
-- The monitor of outcomes that disagree with the provider:
-- apps/backend/src/services/outcome-disagreement-monitor.ts. The minimal rate is a fraction, and the
-- comparison with it is exact. The two sources are parameters that may throw.
pub mod Perspective
pub mod Monitor
pub mod Transitions
pub mod Window
pub mod Service
mod Examples
use smile4money.Common.{
  ℕ, ◌+◌, ◌*◌, ◌-◌, Bool, true, false, ◌&&◌, ◌||◌, not, ◌==◌, Option, none, some, List, [], ◌∷◌,
  ◌++◌, ltb, leb, length, keep, take_last, if◌then◌else◌, or_else,
}
use smile4money.Common.Keys.{◌===◌}
use smile4money.Common.OrderedMap.{OrderedMap, get, set}
use smile4money.Common.Text.{Text, text_eq, is_empty}
use smile4money.Match.{MatchResult, player1_wins, player2_wins, draw, GameResult}
use smile4money.Match.Identity.{normalize_username}

pub data ObservationKind : Type 0 where
  agree disagree unverifiable : ObservationKind

pub data UnverifiableReason : Type 0 where
  provider_error game_in_progress identity_unmappable chain_error no_chain_result :
      UnverifiableReason

pub record MatchEvidenceInput : Type 0 where
  pub match_id : ℕ
  pub game_id : Text
  pub platform : Text
  pub player1_username : Text
  pub player2_username : Text

pub record Observation : Type 0 where
  pub match_id : ℕ
  pub platform : Text
  pub kind : ObservationKind
  pub reason : Option UnverifiableReason
  pub provider_outcome : Option MatchResult
  pub chain_outcome : Option MatchResult
  pub observed_at : ℕ

pub record DisagreementMonitorConfig : Type 0 where
  pub window_size : ℕ
  pub max_age_ms : ℕ
  pub min_decided : ℕ
  pub min_disagreements : ℕ
  pub min_disagreement_rate : ℕ × ℕ

abbrev pub default_disagreement_monitor_config : DisagreementMonitorConfig
default_disagreement_monitor_config = record {
  window_size = 20;
  max_age_ms = 86400000;
  min_decided = 5;
  min_disagreements = 3;
  min_disagreement_rate = (1, 5);
}

-- Whether the configuration is accepted; the source throws where it is not.
unfoldable pub validate_config : DisagreementMonitorConfig → Bool
validate_config c =
    ltb 0 c.window_size
    && ltb 0 c.min_decided
    && ltb 0 c.min_disagreements
    && ltb 0 c.max_age_ms
    && ltb 0 c.min_disagreement_rate.0
    && leb c.min_disagreement_rate.0 c.min_disagreement_rate.1
    && leb c.min_decided c.window_size
    && leb c.min_disagreements c.window_size

unfoldable pub flip : MatchResult → MatchResult
flip player1_wins = player2_wins
flip player2_wins = player1_wins
flip draw = draw

unfoldable pub to_player1_perspective : GameResult → Text → Text → Option MatchResult
unfolding flip
to_player1_perspective game player1_username player2_username =
    let white = normalize_username game.white_player in
    let black = normalize_username game.black_player in
    let player1 = normalize_username player1_username in
    let player2 = normalize_username player2_username in
    elim game.result [
      | none ↦ none
      | some result ↦
          if is_empty white || is_empty black || is_empty player1 || is_empty player2
          then none
          else if (white === player1) && (black === player2)
          then some result
          else if (white === player2) && (black === player1)
          then some (flip result)
          else none
    ]

-- What a source gives: it throws, has nothing, or has a value.
pub data Evidence (A : Type 0) : Type 0 where
  threw : Evidence A
  absent : Evidence A
  given : A → Evidence A

abbrev pub unverified : MatchEvidenceInput → ℕ → UnverifiableReason → Observation
unverified i now reason = record {
  match_id = i.match_id;
  platform = i.platform;
  kind = unverifiable;
  reason = some reason;
  provider_outcome = none;
  chain_outcome = none;
  observed_at = now;
}

abbrev pub is_same : MatchResult → MatchResult → Bool
is_same player1_wins player1_wins = true
is_same player2_wins player2_wins = true
is_same draw draw = true
is_same _ _ = false

-- The observation that `checkMatch` records: the chain's result, and then the provider's game, which
-- is `none` where the call throws.
unfoldable pub observe :
    MatchEvidenceInput → Evidence MatchResult → Option GameResult → ℕ → Observation
unfolding to_player1_perspective
observe i threw game now = unverified i now chain_error
observe i absent game now = unverified i now no_chain_result
observe i (given chain) none now = unverified i now provider_error
observe i (given chain) (some game) now = elim game.result [
  | none ↦ unverified i now game_in_progress
  | some result ↦ elim (to_player1_perspective game i.player1_username i.player2_username) [
    | none ↦ unverified i now identity_unmappable
    | some provider ↦ record {
      match_id = i.match_id;
      platform = i.platform;
      kind = if is_same provider chain then agree else disagree;
      reason = none;
      provider_outcome = some provider;
      chain_outcome = some chain;
      observed_at = now;
    }
  ]
]
