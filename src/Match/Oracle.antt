-- ===== src/Match/Oracle.antt =====
-- Verifying a game's result before it may be submitted: apps/backend/src/services/oracle-service.ts.
-- The fetchers of the two platforms and SHA-256 are parameters; the time is an argument.
pub mod Soundness
use smile4money.Common.{
  ℕ, ◌<◌, ◌≡◌, refl, Bool, true, false, ◌||◌, ◌&&◌, not, Option, none, some, List, [], ◌∷◌, ◌++◌,
  ltb, ◌==◌, if◌then◌else◌, or_else, arith, Option-cases, Bool-cases, inl, inr, is_some, ◌≢◌, ◌↔◌,
}
use mathlib.Core.List.{append-nil}
use smile4money.Common.Keys.{◌===◌}
use smile4money.Common.Text.{
  Text, text, text_eq, text_beq_iff, is_empty, is_truthy, trim, to_lower_case,
}
use smile4money.Errors.{ErrorClass, not_found, validation, error_to_http_status}
use smile4money.Match.{
  MatchRecord, MatchResult, GameResult, CanonicalSettlementEvidence, Decision, verified,
  player_identity_mismatch, identity_hash_mismatch,
}
use smile4money.Match.Identity.{
  PlayerIdentityMap, VerificationError, verify_player_identities, verify_identity_hash,
}
use smile4money.Match.Store.{
  MatchStore, find_by_game_id, count, save_settlement_evidence, get_settlement_evidence_history,
}

pub data Fetch : Type 0 where
  fetched : GameResult → Fetch
  game_not_found : Fetch
  threw : Fetch

pub record SubmitResultInput : Type 0 where
  pub match_id : ℕ
  pub game_id : Text
  pub platform : Text
  pub username : Option Text

pub data InputError : Type 0 where
  bad_match_id no_game_id bad_platform no_username : InputError

-- The type tests on the request body are left out: the input has its types.
unfoldable pub validate_submit_result_input : SubmitResultInput → Option InputError
validate_submit_result_input i =
    if i.match_id == 0
    then some bad_match_id
    else if is_empty i.game_id
    then some no_game_id
    else if not (i.platform === text "lichess") && not (i.platform === text "chessdotcom")
    then some bad_platform
    else if (i.platform === text "chessdotcom") && not (is_truthy i.username)
    then some no_username
    else none

pub data OracleError : Type 0 where
  match_not_found : (persistence_loss_suspected : Bool) → OracleError
  identities_not_recorded platform_mismatch unknown_platform game_missing : OracleError
  identity_failed hash_failed : VerificationError → OracleError

abbrev pub error_class : OracleError → ErrorClass
error_class (match_not_found _) = not_found
error_class game_missing = not_found
error_class _ = validation

-- `failed` carries the status and the reason; `rethrown` is an error of the fetcher passed on.
pub data Outcome : Type 0 where
  accepted : MatchRecord → GameResult → Outcome
  failed : ℕ → OracleError → Outcome
  rethrown : Outcome

abbrev pub fail : OracleError → Outcome
fail e = failed (error_to_http_status (error_class e)) e

abbrev pub evidence_of : ℕ → MatchRecord → GameResult → Decision → CanonicalSettlementEvidence
evidence_of now m game decision = record {
  parser_version = text "chess-result-v1";
  evaluated_at = now;
  match_id = m.match_id;
  game_id = game.game_id;
  platform = m.platform;
  white_player = to_lower_case (trim game.white_player);
  black_player = to_lower_case (trim game.black_player);
  result = game.result;
  status = game.status;
  decision = decision;
}

abbrev pub identity_map : MatchRecord → Text → PlayerIdentityMap
identity_map m platform = record {
  player1_address = m.player1;
  player1_username = or_else m.player1_username [];
  player2_address = m.player2;
  player2_username = or_else m.player2_username [];
  platform = platform;
}

module _ (fetch_lichess_result : Text → Fetch)
    (fetch_chessdotcom_result : Option Text → Text → Fetch) where
  unfoldable pub fetch_for : Text → SubmitResultInput → Option Fetch
  fetch_for platform i =
      if platform === text "lichess"
      then some (fetch_lichess_result i.game_id)
      else if platform === text "chessdotcom"
      then some (fetch_chessdotcom_result i.username i.game_id)
      else none

module _ (sha256 : Text → Text) where
  -- The checks once the game is fetched, each with the evidence that it leaves.
  unfoldable pub judge :
      ℕ → SubmitResultInput → MatchRecord → GameResult → MatchStore → MatchStore × Outcome
  judge now i m game s = elim (verify_player_identities m game (identity_map m i.platform)) [
    | some e ↦ (
      save_settlement_evidence (evidence_of now m game player_identity_mismatch) s,
      fail (identity_failed e),
    )
    | none ↦ elim (verify_identity_hash sha256 m) [
      | some e ↦ (
        save_settlement_evidence (evidence_of now m game identity_hash_mismatch) s,
        fail (hash_failed e),
      )
      | none ↦ (save_settlement_evidence (evidence_of now m game verified) s, accepted m game)
    ]
  ]

module _ (sha256 : Text → Text) (fetch_lichess_result : Text → Fetch)
    (fetch_chessdotcom_result : Option Text → Text → Fetch) where
  unfoldable pub verify_game_result : ℕ → SubmitResultInput → MatchStore → MatchStore × Outcome
  verify_game_result now i s = elim (find_by_game_id i.game_id s) [
    | none ↦ (s, fail (match_not_found (count s == 0)))
    | some m ↦
        if not (is_truthy m.player1_username) || not (is_truthy m.player2_username)
        then (s, fail identities_not_recorded)
        else if not (i.platform === m.platform)
        then (s, fail platform_mismatch)
        else elim (fetch_for fetch_lichess_result fetch_chessdotcom_result m.platform i) [
          | none ↦ (s, fail unknown_platform)
          | some (fetched game) ↦ judge sha256 now i m game s
          | some game_not_found ↦ (s, fail game_missing)
          | some threw ↦ (s, rethrown)
        ]
  ]
