-- ===== src/Match.antt =====
-- Match records and what a game provider reports: apps/backend/src/store/match-store.ts and
-- apps/backend/src/fetchers/lichess.ts.
pub mod Identity
pub mod Store
pub mod SqliteStore
pub mod Creation
pub mod Listing
pub mod Oracle
mod Examples
use smile4money.Common.{ℕ, Bool, Option}
use smile4money.Common.Text.{Text}

pub data MatchState : Type 0 where
  pending : MatchState

pub data Decision : Type 0 where
  verified player_identity_mismatch identity_hash_mismatch : Decision

pub data MatchResult : Type 0 where
  player1_wins player2_wins draw : MatchResult

-- `result` is missing while the game is in progress. The provider names white's win
-- `player1_wins`.
pub record GameResult : Type 0 where
  pub game_id : Text
  pub status : Text
  pub white_player : Text
  pub black_player : Text
  pub result : Option MatchResult

pub record CanonicalSettlementEvidence : Type 0 where
  pub parser_version : Text
  pub evaluated_at : ℕ
  pub match_id : ℕ
  pub game_id : Text
  pub platform : Text
  pub white_player : Text
  pub black_player : Text
  pub result : Option MatchResult
  pub status : Text
  pub decision : Decision

pub record MatchRecord : Type 0 where
  pub match_id : ℕ
  pub player1 : Text
  pub player2 : Text
  pub player1_username : Option Text
  pub player2_username : Option Text
  pub stake_amount : ℕ
  pub token : Text
  pub game_id : Text
  pub platform : Text
  pub state : MatchState
  pub identity_hash : Option Text
  pub evidence : Option CanonicalSettlementEvidence

pub record CreateMatchPayload : Type 0 where
  pub player1 : Text
  pub player2 : Text
  pub player1_username : Option Text
  pub player2_username : Option Text
  pub stake_amount : ℕ
  pub token : Text
  pub game_id : Text
  pub platform : Text
