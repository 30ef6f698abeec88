-- ===== src/Polling/Poller/Retried.antt =====
-- What becomes of a job that the worker polls again and again on the platforms (`pollJob` of
-- apps/backend/src/services/polling.ts with `poll` of apps/backend/src/services/game-poller.ts).
use smile4money.Common.{
  ℕ, zero, suc, ◌+◌, ◌≡◌, ◌∙◌, sym, subst, ap, refl, Bool, true, false, ◌&&◌, ◌||◌, not, Option,
  none, some, List, [], ◌∷◌, ◌++◌, String, if◌then◌else◌, arith, is_some, Option-cases, Bool-cases,
  inl, inr, leb, ltb,
}
use smile4money.Common.Keys.{string_eq}
use smile4money.Polling.{PollJob, PollJobStatus, PollingJobStore, get_job, polled_once}
use smile4money.Polling.Worker.{
  PollingConfig, Effect, game_completed, max_attempts_exceeded, poll_scheduled, cycle_scheduled,
  Ledger, not_configured, ledger_error, ledger, check_ledger_timeout, poll_job,
}
use smile4money.Polling.Polls.{ends, announces, callbacks, poll_job_lem}
use smile4money.Polling.Poller.{
  Fetch, fetched, threw, rate_limit_error, FetchError, Fetchers, fetch, poll, answer_of, answer_for,
  caught,
}

abbrev pub asks : Fetchers → PollJob → Option PollJobStatus
unfolding poll
asks f job = some (poll f job).status

-- A number of polls of a job while it is in the store, at the times given, with what they set off.
unfoldable pub platform_polls :
    PollingConfig
    → Ledger
    → Fetchers
    → (ℕ → ℕ)
    → ℕ
    → String
    → PollingJobStore
    → PollingJobStore × List Effect
platform_polls c l f clock zero id s = (s, [])
platform_polls c l f clock (suc n) id s = elim (get_job id s) [
  | none ↦ (s, [])
  | some job ↦
      let polled = poll_job c l (asks f) (clock n) job s in
      let rest = platform_polls c l f clock n id polled.store in (rest.0, polled.effects ++ rest.1)
]

-- The game has a result.
abbrev pub has_result : Option Fetch → Bool
has_result (some (fetched game)) = is_some game.result
has_result _ = false

-- The game runs, or the platform limits the rate.
abbrev pub is_waiting : Option Fetch → Bool
is_waiting (some (fetched game)) = not (is_some game.result)
is_waiting (some (threw rate_limit_error)) = true
is_waiting _ = false

abbrev pub is_settled : PollingConfig → ℕ → Option Fetch → PollJob → Bool
is_settled c n r job =
    (has_result r && ltb 0 n)
    || (not (is_waiting r) && leb c.max_polling_attempts (job.polling_attempt + n))

abbrev pub attempts_of : Option PollJob → Option ℕ
attempts_of none = none
attempts_of (some job) = some job.polling_attempt

callbacks-append : (es fs : List Effect) → callbacks (es ++ fs) ≡ callbacks es + callbacks fs
callbacks-append [] fs = ground arith
callbacks-append (game_completed _ _ _ ∷ es) fs = ground (arith, callbacks-append es fs)
callbacks-append (max_attempts_exceeded _ _ ∷ es) fs = ground (arith, callbacks-append es fs)
callbacks-append (poll_scheduled _ _ ∷ es) fs = callbacks-append es fs
callbacks-append (cycle_scheduled _ ∷ es) fs = callbacks-append es fs

module _ (c : PollingConfig) where
  answer_for_lem :
      (now : ℕ) (job : PollJob) (r : Option Fetch)
      → (ends c (polled_once now job) (some (answer_for r).status) ≡ is_settled c 1 r job)
        × (announces c (polled_once now job) (some (answer_for r).status) ≡ is_settled c 1 r job)
  unfolding answer_for answer_of caught
  answer_for_lem now job none = ground arith
  answer_for_lem now job (some (fetched game)) = elim (Option-cases game.result) [
    | inl e ↦ ground arith
    | inr (result, e) ↦ ground arith
  ]
  answer_for_lem now job (some (threw e)) = elim e [
    | FetchError.provider_fetch_error a m ↦ ground arith
    | rate_limit_error ↦ ground arith
    | FetchError.game_not_found_error m ↦ ground arith
    | FetchError.other_error m ↦ ground arith
  ]

  still_early :
      (l : Ledger) (now : ℕ) (job : PollJob)
      → check_ledger_timeout c l (polled_once now job) ≡ check_ledger_timeout c l job
  unfolding check_ledger_timeout
  still_early not_configured now job = refl
  still_early ledger_error now job = refl
  still_early (ledger n) now job = refl

module _ (c : PollingConfig) (l : Ledger) (f : Fetchers) where
  asked :
      (now : ℕ) (job : PollJob)
      → asks f (polled_once now job) ≡ some (answer_for (fetch f job)).status
  unfolding poll fetch
  asked now job = refl

  same_fetch : (now : ℕ) (job : PollJob) → fetch f (polled_once now job) ≡ fetch f job
  unfolding fetch
  same_fetch now job = refl

  one_poll :
      (now : ℕ) (job : PollJob) (s : PollingJobStore)
      → get_job job.id s ≡ some job
      → check_ledger_timeout c l job ≡ false
      → let p = poll_job c l (asks f) now job s in
        let settled = is_settled c 1 (fetch f job) job in
        (get_job job.id p.store ≡ (if settled then none else some (polled_once now job)))
        × (callbacks p.effects ≡ (if settled then 1 else 0))
  one_poll now job s here early =
      let counted = polled_once now job in
      let (e, a) = answer_for_lem c now job (fetch f job) in
      let (left, _, called) = poll_job_lem c l (asks f) now job s job.id here in
      let is_end : ends c counted (asks f counted) ≡ is_settled c 1 (fetch f job) job =
        ap (ends c counted) (asked now job) ∙ e in
      let is_call : announces c counted (asks f counted) ≡ is_settled c 1 (fetch f job) job =
        ap (announces c counted) (asked now job) ∙ a in
      (ground (arith, left, early, is_end), ground (arith, called, early, is_call))

  module _ (clock : ℕ → ℕ) where
    gone :
        (n : ℕ) (id : String) (s : PollingJobStore)
        → get_job id s ≡ none
        → platform_polls c l f clock n id s ≡ (s, [])
    unfolding platform_polls
    gone zero id s h = refl
    gone (suc n) id s h = ground (arith, h)

    first_poll :
        (n : ℕ) (job : PollJob) (s : PollingJobStore)
        → get_job job.id s ≡ some job
        → let polled = poll_job c l (asks f) (clock n) job s in
          let rest = platform_polls c l f clock n job.id polled.store in
          platform_polls c l f clock (suc n) job.id s ≡ (rest.0, polled.effects ++ rest.1)
    unfolding platform_polls
    first_poll n job s here = ground (arith, here)

    abbrev IsPolled : ℕ → PollJob → PollingJobStore × List Effect → Type 0
    IsPolled n job p =
        let settled = is_settled c n (fetch f job) job in
        (attempts_of (get_job job.id p.0)
          ≡ (if settled then none else some (job.polling_attempt + n)))
        × (callbacks p.1 ≡ (if settled then 1 else 0))

    pub platform_polls_lem :
        (n : ℕ) (job : PollJob) (s : PollingJobStore)
        → get_job job.id s ≡ some job
        → check_ledger_timeout c l job ≡ false
        → is_settled c 0 (fetch f job) job ≡ false
        → let p = platform_polls c l f clock n job.id s in
          let settled = is_settled c n (fetch f job) job in
          (attempts_of (get_job job.id p.0)
            ≡ (if settled then none else some (job.polling_attempt + n)))
          × (callbacks p.1 ≡ (if settled then 1 else 0))
    unfolding platform_polls
    platform_polls_lem zero job s here early open_ =
        (ground (arith, here, open_), ground (arith, open_))
    platform_polls_lem (suc n) job s here early open_ =
        let polled = poll_job c l (asks f) (clock n) job s in
        let (now_there, called) = one_poll (clock n) job s here early in
        subst (IsPolled (suc n) job) (sym (first_poll n job s here))
          (elim (Bool-cases (is_settled c 1 (fetch f job) job)) [
            | inl e ↦
                let left : get_job job.id polled.store ≡ none = ground (arith, now_there, e) in
                subst (λ r. IsPolled (suc n) job (r.0, polled.effects ++ r.1))
                  (sym (gone n job.id polled.store left))
                  (
                    ground (arith, left, e),
                    ground (arith, called, e, callbacks-append polled.effects []),
                  )
            | inr e ↦
                let counted = polled_once (clock n) job in
                let left : get_job job.id polled.store ≡ some counted =
                  ground (arith, now_there, e) in
                let same = same_fetch (clock n) job in
                let rest = platform_polls c l f clock n job.id polled.store in
                let more : IsPolled n counted rest =
                  platform_polls_lem n counted polled.store left
                    (still_early c l (clock n) job ∙ early) (ground (arith, e, same)) in
                (
                  ground (arith, more.0, e, same),
                  ground (arith, more.1, called, e, same, callbacks-append polled.effects rest.1),
                )
          ])
