-- ===== src/Polling/Poller/Examples.antt =====
-- A job whose game Lichess does not know is polled until the limit.
use smile4money.Common.{ℕ, ◌*◌, ◌≡◌, refl, none, [], ◌∷◌}
use smile4money.Common.Keys.{string_eq}
use smile4money.Common.Text.{text}
use smile4money.Common.OrderedMap.{get}
use smile4money.Polling.{PollJob, lichess, PollingJobStore, get_job}
use smile4money.Polling.Worker.{PollingConfig, default_config, not_configured, check_ledger_timeout}
use smile4money.Polling.Polls.{callbacks}
use smile4money.Polling.Poller.{Fetchers, threw, game_not_found_error, other_error, fetch}
use smile4money.Polling.Poller.Retried.{platform_polls, platform_polls_lem}

abbrev job : PollJob
job = record {
  id = "a";
  match_id = 7;
  game_id = text "g1";
  platform = lichess;
  username = none;
  polling_attempt = 0;
  created_at = 1;
  last_polled_at = none;
  created_at_ledger = none;
  timeout_ledgers = none;
}

abbrev one_job : PollingJobStore
one_job = record { jobs = ("a", job) ∷ []; match_id_to_job_id = []; match_game_key_to_job_id = [] }

abbrev fetchers : Fetchers
fetchers = record {
  fetch_lichess_result = λ g. threw (game_not_found_error (text "no game"));
  fetch_chessdotcom_result = λ u g. threw (other_error (text "no answer"));
}

abbrev three_attempts : PollingConfig
three_attempts = record default_config { max_polling_attempts = 3 }

abbrev clock : ℕ → ℕ
clock n = 100 * n

given_up :
    callbacks (platform_polls three_attempts not_configured fetchers clock 5 "a" one_job).1 ≡ 1
unfolding get_job get check_ledger_timeout fetch
given_up =
    (platform_polls_lem three_attempts not_configured fetchers clock 5 job one_job refl refl refl).1
