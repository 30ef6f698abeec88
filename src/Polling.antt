-- ===== src/Polling.antt =====
-- The polling of games until they end: apps/backend/src/services/polling.ts. This file has the jobs
-- and their store, `Polling.Worker` the worker.
pub mod Worker
pub mod Index
pub mod Removal
pub mod Polls
pub mod Retries
pub mod Poller
mod Examples
use smile4money.Common.{
  ◌++◌, ℕ, ◌+◌, Bool, true, false, Option, none, some, List, [], ◌∷◌, String, if◌then◌else◌, ◌==◌,
  ◌&&◌, ◌≡◌, ◌↔◌, ==_iff, arith,
}
use smile4money.Common.Keys.{nat_eq, string_eq, is_value}
use smile4money.Common.OrderedMap.{OrderedMap, get, has, set, delete, values}
use smile4money.Common.Text.{Text, text_eq}
use smile4money.Common.Digits.{digits}
use smile4money.Match.{MatchResult}

pub data Platform : Type 0 where
  lichess chessdotcom : Platform

pub record PollJob : Type 0 where
  pub id : String
  pub match_id : ℕ
  pub game_id : Text
  pub platform : Platform
  pub username : Option Text
  pub polling_attempt : ℕ
  pub created_at : ℕ
  pub last_polled_at : Option ℕ
  pub created_at_ledger : Option ℕ
  pub timeout_ledgers : Option ℕ

pub data PollState : Type 0 where
  pending completed failed in_progress review_required : PollState

pub record PollJobStatus : Type 0 where
  pub status : PollState
  pub decision_id : Option ℕ
  pub result : Option MatchResult
  pub reason : Option Text

-- The template `${matchId}::${gameId}`.
unfoldable pub match_game_key : ℕ → Text → Text
unfolding digits
match_game_key match_id game_id = digits match_id ++ (b':' ∷ b':' ∷ game_id)

abbrev pub key_of : PollJob → Text
key_of job = match_game_key job.match_id job.game_id

pub record PollingJobStore : Type 0 where
  pub jobs : OrderedMap String PollJob
  pub match_id_to_job_id : OrderedMap ℕ String
  pub match_game_key_to_job_id : OrderedMap Text String

unfoldable pub empty_store : PollingJobStore
empty_store = record { jobs = []; match_id_to_job_id = []; match_game_key_to_job_id = [] }

-- The arguments of `createJob`, with the id and the time that it takes itself.
pub record NewJob : Type 0 where
  pub id : String
  pub now : ℕ
  pub match_id : ℕ
  pub game_id : Text
  pub platform : Platform
  pub username : Option Text
  pub created_at_ledger : Option ℕ
  pub timeout_ledgers : Option ℕ

abbrev pub new_job : NewJob → PollJob
new_job n = record {
  id = n.id;
  match_id = n.match_id;
  game_id = n.game_id;
  platform = n.platform;
  username = n.username;
  polling_attempt = 0;
  created_at = n.now;
  last_polled_at = none;
  created_at_ledger = n.created_at_ledger;
  timeout_ledgers = n.timeout_ledgers;
}

-- `none` where the source throws, since the job exists.
unfoldable pub create_job : NewJob → PollingJobStore → Option (PollingJobStore × PollJob)
create_job n s =
    if has (match_game_key n.match_id n.game_id) s.match_game_key_to_job_id
    then none
    else some (
      record {
        jobs = set n.id (new_job n) s.jobs;
        match_id_to_job_id = set n.match_id n.id s.match_id_to_job_id;
        match_game_key_to_job_id =
            set (match_game_key n.match_id n.game_id) n.id s.match_game_key_to_job_id;
      },
      new_job n,
    )

unfoldable pub get_job : String → PollingJobStore → Option PollJob
get_job id s = get id s.jobs

unfoldable pub get_job_by_match_id : ℕ → PollingJobStore → Option PollJob
get_job_by_match_id m s = elim (get m s.match_id_to_job_id) [
  | none ↦ none
  | some id ↦ get id s.jobs
]

unfoldable pub list_pending_jobs : PollingJobStore → List PollJob
list_pending_jobs s = values s.jobs

abbrev pub polled_once : ℕ → PollJob → PollJob
polled_once now job = record job {
  polling_attempt = job.polling_attempt + 1;
  last_polled_at = some now;
}

unfoldable pub increment_attempt : String → ℕ → PollingJobStore → PollingJobStore
increment_attempt id now s = elim (get id s.jobs) [
  | none ↦ s
  | some job ↦ record s { jobs = set id (polled_once now job) s.jobs }
]

unfoldable pub remove_job_indexes : PollJob → PollingJobStore → PollingJobStore
remove_job_indexes job s = record s {
  match_game_key_to_job_id =
      if is_value job.id (get (key_of job) s.match_game_key_to_job_id)
      then delete (key_of job) s.match_game_key_to_job_id
      else s.match_game_key_to_job_id;
  match_id_to_job_id =
      if is_value job.id (get job.match_id s.match_id_to_job_id)
      then delete job.match_id s.match_id_to_job_id
      else s.match_id_to_job_id;
}

unfoldable pub remove_job : String → PollingJobStore → PollingJobStore
remove_job id s = elim (get id s.jobs) [
  | none ↦ s
  | some job ↦ record (remove_job_indexes job s) { jobs = delete id s.jobs }
]

-- Completing a job removes it, and logs.
unfoldable pub complete_job : String → PollingJobStore → PollingJobStore
complete_job id s = elim (get id s.jobs) [
  | none ↦ s
  | some job ↦ record (remove_job_indexes job s) { jobs = delete id s.jobs }
]

unfoldable pub clear : PollingJobStore → PollingJobStore
clear s = record { jobs = []; match_id_to_job_id = []; match_game_key_to_job_id = [] }
