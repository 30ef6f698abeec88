-- ===== src/Fetchers.antt =====
-- The result of a game as the fetchers of the chess platforms normalise it:
-- apps/backend/src/fetchers/result.ts. `Fetchers.Lichess` and `Fetchers.ChessDotCom` have the fetchers. The hash of a
-- response is an argument, and a date is the number of its milliseconds.
pub mod ChessDotCom
pub mod Lichess
use smile4money.Common.{
  ℕ, ◌*◌, Bool, true, false, ◌&&◌, not, Option, none, some, leb, if◌then◌else◌,
}
use smile4money.Common.Text.{Text, text, is_empty, trim}
use smile4money.Match.{MatchResult}

pub record Evidence : Type 0 where
  pub provider : Text
  pub fetched_at : ℕ
  pub parser_version : Text
  pub response_hash : Text
  pub source : Text
  pub outcome : Option MatchResult
  pub ended_at : Option ℕ

pub record NormalizedGameResult : Type 0 where
  pub game_id : Text
  pub white_player : Text
  pub black_player : Text
  pub status : Text
  pub result : Option MatchResult
  pub ended_at : Option ℕ
  pub evidence : Evidence

-- The messages of an AmbiguousEvidenceError.
pub data Ambiguity : Type 0 where
  missing_identity invalid_timestamp mismatched_identity no_valid_outcome draw_conflict
        unknown_status invalid_archive duplicate_evidence conflicting_outcomes :
      Ambiguity

pub data FetchError : Type 0 where
  ambiguous : Ambiguity → Evidence → FetchError
  rate_limit : FetchError
  game_not_found : Text → FetchError
  api_error : ℕ → FetchError
  request_error : FetchError

pub data Fetched : Type 0 where
  returned : NormalizedGameResult → Fetched
  threw : FetchError → Fetched

abbrev pub evidence_for : Text → Text → Text → ℕ → Evidence
evidence_for provider source response_hash now = record {
  provider = provider;
  fetched_at = now;
  parser_version = text "2";
  response_hash = response_hash;
  source = source;
  outcome = none;
  ended_at = none;
}

pub data TimeUnit : Type 0 where
  seconds milliseconds : TimeUnit

abbrev pub in_milliseconds : TimeUnit → ℕ → ℕ
in_milliseconds seconds t = t * 1000
in_milliseconds milliseconds t = t

-- The last time that a Date can have.
abbrev pub max_date : ℕ
max_date = 8640000000000000

-- `none` also for a value that is no text.
abbrev pub is_name : Option Text → Bool
is_name none = false
is_name (some s) = not (is_empty (trim s))

abbrev pub end_date : TimeUnit → Option ℕ → Option ℕ
end_date unit none = none
end_date unit (some t) =
    let ms = in_milliseconds unit t in if leb ms max_date then some ms else none

abbrev pub finished : Text → Text → Text → MatchResult → ℕ → Evidence → NormalizedGameResult
finished game_id white black outcome ended_at e = record {
  game_id = game_id;
  white_player = white;
  black_player = black;
  status = text "finished";
  result = some outcome;
  ended_at = some ended_at;
  evidence = record e { outcome = some outcome; ended_at = some ended_at };
}

abbrev pub running : Text → Text → Text → Evidence → NormalizedGameResult
running game_id white black e = record {
  game_id = game_id;
  white_player = white;
  black_player = black;
  status = text "in_progress";
  result = none;
  ended_at = none;
  evidence = record e { outcome = none; ended_at = none };
}

unfoldable pub normalize_result :
    Text → Option Text → Option Text → Option MatchResult → Option ℕ → TimeUnit → Evidence → Fetched
normalize_result game_id (some white) (some black) outcome timestamp unit e =
    if (is_name (some game_id) && is_name (some white)) && is_name (some black)
    then elim outcome [
      | none ↦ returned (running game_id white black e)
      | some r ↦ elim (end_date unit timestamp) [
        | none ↦ threw (ambiguous invalid_timestamp e)
        | some ms ↦ returned (finished game_id white black r ms e)
      ]
    ]
    else threw (ambiguous missing_identity e)
normalize_result game_id _ _ outcome timestamp unit e = threw (ambiguous missing_identity e)
