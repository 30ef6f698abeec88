-- ===== src/Polling/Examples.antt =====
-- Two jobs of one match: that of a cancelled game and that of the game which took its number.
use smile4money.Common.{true, false, ◌≡◌, ◌≢◌, refl, ◌↔◌, Option, none, some, String, arith}
use smile4money.Common.Keys.{nat_eq, string_eq}
use smile4money.Common.OrderedMap.{get, set, has, delete}
use smile4money.Common.Digits.{digits}
use smile4money.Common.Text.{text, text_eq}
use smile4money.Match.{player1_wins}
use smile4money.Polling.{
  PollJob, PollJobStatus, lichess, completed, NewJob, new_job, match_game_key, key_of,
  PollingJobStore, empty_store, create_job, get_job, get_job_by_match_id, remove_job, complete_job,
  increment_attempt, remove_job_indexes,
}
use smile4money.Polling.Index.{IsIndexed, empty_store-IsIndexed, added}
use smile4money.Polling.Removal.{remove_job_keeps}
use smile4money.Polling.Worker.{
  ledger, default_config, check_ledger_timeout, poll_job, handle_status,
}
use smile4money.Polling.Polls.{create_job_lem, callbacks}

abbrev first : NewJob
first = record {
  id = "a";
  now = 1;
  match_id = 7;
  game_id = text "g1";
  platform = lichess;
  username = none;
  created_at_ledger = some 50;
  timeout_ledgers = none;
}

abbrev second : NewJob
second = record first { id = "b"; game_id = text "g2" }

abbrev one_job : PollingJobStore
unfolding empty_store
one_job = added first empty_store

abbrev two_jobs : PollingJobStore
unfolding one_job
two_jobs = added second one_job

empty_has_none : (id : String) → get_job id empty_store ≡ none
unfolding get_job empty_store get
empty_has_none id = refl

first_created : create_job first empty_store ≡ some (one_job, new_job first)
unfolding create_job empty_store has one_job match_game_key digits
first_created = refl

one_job-IsIndexed : IsIndexed one_job
one_job-IsIndexed =
    ((create_job_lem first empty_store empty_store-IsIndexed (empty_has_none "a")).1 one_job
      (new_job first) first_created).0

second_is_new : get_job "b" one_job ≡ none
unfolding get_job one_job empty_store get set
second_is_new = refl

second_created : create_job second one_job ≡ some (two_jobs, new_job second)
unfolding create_job one_job empty_store has set two_jobs match_game_key digits
second_created = refl

create_job_lem_example :
    ((create_job second one_job ≡ none) ↔ (
      (job : PollJob) × (get_job job.id one_job ≡ some job)
      × (job.match_id ≡ second.match_id)
      × (job.game_id ≡ second.game_id)))
    × ((s' : PollingJobStore) (job : PollJob)
        → create_job second one_job ≡ some (s', job)
        → IsIndexed s' × (get_job job.id s' ≡ some job) × (get_job_by_match_id 7 s' ≡ some job))
create_job_lem_example = create_job_lem second one_job one_job-IsIndexed second_is_new

two_jobs-IsIndexed : IsIndexed two_jobs
two_jobs-IsIndexed =
    ((create_job_lem second one_job one_job-IsIndexed second_is_new).1 two_jobs (new_job second)
      second_created).0

first_found : get_job "a" two_jobs ≡ some (new_job first)
unfolding get_job two_jobs one_job empty_store get set
first_found = refl

second_found : get_job "b" two_jobs ≡ some (new_job second)
unfolding get_job two_jobs one_job empty_store get set
second_found = refl

no_is_yes : false ≡ true → ⊥
no_is_yes h = ground arith

names_differ : first.id ≢ second.id
names_differ h = no_is_yes ((string_eq.beq_iff first.id second.id).1 h)

remove_job_keeps_example :
    let r = remove_job "a" two_jobs in
    (complete_job "a" two_jobs ≡ r)
    × IsIndexed r
    × (get_job "a" r ≡ none)
    × (get_job "b" r ≡ some (new_job second))
    × (get (key_of (new_job second)) r.match_game_key_to_job_id ≡ some "b")
    × (get 7 two_jobs.match_id_to_job_id ≡ some "b"
        → get_job_by_match_id 7 r ≡ some (new_job second))
remove_job_keeps_example =
    remove_job_keeps two_jobs (new_job first) (new_job second) two_jobs-IsIndexed first_found
      second_found names_differ

abbrev answer : PollJobStatus
answer = record {
  status = completed;
  decision_id = some 3;
  result = some player1_wins;
  reason = none;
}

abbrev poll : PollJob → Option PollJobStatus
poll _ = some answer

-- A timer that polls the job once more after it is completed announces the game again.
announced_again :
    let poll = λ (_ : PollJob). some answer in
    let polled = poll_job default_config (ledger 60) poll 9 (new_job first) one_job in
    (get_job "a" polled.store ≡ none)
    × (callbacks polled.effects ≡ 1)
    × (callbacks (poll_job default_config (ledger 60) poll 10 (new_job first) polled.store).effects
        ≡ 1)
unfolding poll_job handle_status check_ledger_timeout increment_attempt complete_job remove_job
    remove_job_indexes get_job get set delete one_job empty_store match_game_key digits
announced_again = (refl, refl, refl)
