-- ===== src/Polling/Poller.antt =====
-- The poller that asks the chess platforms: `ChessPlatformPoller.poll` of
-- apps/backend/src/services/game-poller.ts, as apps/backend/src/server.ts makes it, without a match
-- store and an evidence store. The fetchers are parameters. It catches every error.
pub mod Retried
mod Examples
use smile4money.Common.{
  ℕ, Bool, true, false, not, Option, none, some, List, [], ◌∷◌, ◌++◌, if◌then◌else◌, or_else,
}
use smile4money.Common.Text.{Text, text, is_truthy}
use smile4money.Match.{MatchResult, GameResult}
use smile4money.Polling.{
  Platform, lichess, chessdotcom, PollJob, PollJobStatus, PollState, completed, failed, in_progress,
}

-- The policy of an error. The worker never reads it.
pub data Action : Type 0 where
  stop_polling retry review : Action

-- What a fetcher throws, with the message.
pub data FetchError : Type 0 where
  provider_fetch_error : Action → Text → FetchError
  rate_limit_error : FetchError
  game_not_found_error other_error : Text → FetchError

pub data Fetch : Type 0 where
  fetched : GameResult → Fetch
  threw : FetchError → Fetch

pub record Fetchers : Type 0 where
  pub fetch_lichess_result : Text → Fetch
  pub fetch_chessdotcom_result : Text → Text → Fetch

pub record Answer : Type 0 where
  pub status : PollJobStatus
  pub action : Option Action

abbrev answer : PollState → Option MatchResult → Option Text → Option Action → Answer
answer state result reason action = record {
  status = record { status = state; decision_id = none; result = result; reason = reason };
  action = action;
}

unfoldable pub caught : FetchError → Answer
caught (provider_fetch_error policy message) = answer failed none (some message) (some policy)
caught rate_limit_error =
    answer in_progress none (some (text "Rate limited by API, will retry")) none
caught (game_not_found_error message) =
    answer failed none (some (text "Game not found: " ++ message)) (some stop_polling)
caught (other_error message) = answer failed none (some (text "API error: " ++ message)) none

unfoldable pub answer_of : Fetch → Answer
unfolding caught
answer_of (fetched game) = elim game.result [
  | none ↦ answer in_progress none none none
  | some result ↦ answer completed (some result) none none
]
answer_of (threw e) = caught e

-- `none`: the job has no username to ask Chess.com for.
unfoldable pub fetch : Fetchers → PollJob → Option Fetch
fetch f job = elim job.platform [
  | lichess ↦ some (f.fetch_lichess_result job.game_id)
  | chessdotcom ↦
      if not (is_truthy job.username)
      then none
      else some (f.fetch_chessdotcom_result (or_else job.username []) job.game_id)
]

unfoldable pub answer_for : Option Fetch → Answer
unfolding answer_of
answer_for none =
    answer failed none (some (text "Chess.com requires username; job missing username field")) none
answer_for (some r) = answer_of r

unfoldable pub poll : Fetchers → PollJob → Answer
unfolding fetch answer_for
poll f job = answer_for (fetch f job)
