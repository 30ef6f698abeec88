-- ===== src/Polling/Polls.antt =====
-- What a poll does to the jobs, and how often a job is polled (`createJob` and `pollJob` of
-- apps/backend/src/services/polling.ts).
use smile4money.Common.{
  ap, ℕ, suc, ◌≡◌, ◌≢◌, refl, subst, sym, ◌∙◌, ◌↔◌, Bool, true, false, ◌||◌, Option, none, some,
  List, [], ◌∷◌, String, if◌then◌else◌, arith, is_some, Option-cases, Bool-cases, inl, inr, leb,
}
use smile4money.Common.Keys.{nat_eq, string_eq, ◌===◌}
use smile4money.Common.OrderedMap.{get, has, get-set, get-delete, has-get, get-set_same}
use smile4money.Common.Text.{Text, text, text_eq}
use smile4money.Polling.{
  PollJob, PollJobStatus, completed, failed, in_progress, review_required, pending, NewJob, new_job,
  match_game_key, key_of, PollingJobStore, create_job, get_job, get_job_by_match_id,
  increment_attempt, polled_once, remove_job, complete_job, remove_job_indexes,
}
use smile4money.Polling.Index.{IsIndexed, match_game_key_injective, added, added-IsIndexed}
use smile4money.Polling.Worker.{
  PollingConfig, Effect, game_completed, max_attempts_exceeded, poll_scheduled, cycle_scheduled,
  Ledger, check_ledger_timeout, handle_status, poll_job, done,
}

added-found :
    (n : NewJob) (s s' : PollingJobStore) (job : PollJob)
    → IsIndexed (added n s)
    → (added n s ≡ s') × (new_job n ≡ job)
    → IsIndexed s' × (get_job job.id s' ≡ some job) × (get_job_by_match_id n.match_id s' ≡ some job)
unfolding get_job get_job_by_match_id
added-found n s s' job indexed (e, f) = (
  subst IsIndexed e indexed,
  subst (λ t. get job.id t.jobs ≡ some job) e
      (subst (λ j. get j.id (added n s).jobs ≡ some j) f
        (get-set_same n.id n.id s.jobs (new_job n))),
  subst (λ t. get_job_by_match_id n.match_id t ≡ some job) e
      (ground (
        arith,
        get-set_same n.match_id n.match_id s.match_id_to_job_id n.id,
        get-set_same n.id n.id s.jobs (new_job n),
      )),
)

-- A job is refused exactly when one with its match and game is there, whatever else uses its match.
-- Otherwise it is found by its id and by its match, and the indexes still agree with the jobs.
pub create_job_lem :
    (n : NewJob) (s : PollingJobStore)
    → IsIndexed s
    → get_job n.id s ≡ none
    → ((create_job n s ≡ none) ↔ (
        (job : PollJob) × (get_job job.id s ≡ some job)
        × (job.match_id ≡ n.match_id)
        × (job.game_id ≡ n.game_id)))
      × ((s' : PollingJobStore) (job : PollJob)
          → create_job n s ≡ some (s', job)
          → IsIndexed s'
            × (get_job job.id s' ≡ some job)
            × (get_job_by_match_id n.match_id s' ≡ some job))
unfolding create_job get_job get_job_by_match_id
create_job_lem n s g fresh =
    let key : Text = (match_game_key n.match_id n.game_id) in
    let keys = s.match_game_key_to_job_id in
    (
      (
        λ refused. elim (Option-cases (get key keys)) [
          | inl e ↦ absurd (ground (arith, has-get key keys))
          | inr (id, e) ↦
              let (job, here, same) = g.key_found key id e in
              let (same_match, same_game) =
                match_game_key_injective job.match_id n.match_id job.game_id n.game_id same in
              (
                job,
                subst (λ i. get i s.jobs ≡ some job) (sym (g.named id job here)) here,
                same_match,
                same_game,
              )
        ],
        λ (job, here, same_match, same_game).
            let same : key_of job ≡ key =
              ap (λ m. match_game_key m job.game_id) same_match
              ∙ ap (match_game_key n.match_id) same_game in
            let there = subst (λ k. get k keys ≡ some job.id) same (g.keyed job.id job here) in
            ground (arith, has-get key keys, there),
      ),
      λ s' job made. elim (Bool-cases (has key keys)) [
        | inl e ↦ absurd (ground arith)
        | inr e ↦ added-found n s s' job (added-IsIndexed n s g fresh e) (ground arith)
      ],
    )

-- Whether an answer ends the job.
abbrev pub ends : PollingConfig → PollJob → Option PollJobStatus → Bool
ends c job none = false
ends c job (some answer) = elim answer.status [
  | review_required ↦ true
  | in_progress ↦ false
  | completed ↦ is_some answer.result
  | failed ↦ leb c.max_polling_attempts job.polling_attempt
  | pending ↦ false
]

-- Whether it calls back: a review is not announced.
abbrev pub announces : PollingConfig → PollJob → Option PollJobStatus → Bool
announces c job none = false
announces c job (some answer) = elim answer.status [
  | review_required ↦ false
  | in_progress ↦ false
  | completed ↦ is_some answer.result
  | failed ↦ leb c.max_polling_attempts job.polling_attempt
  | pending ↦ false
]

abbrev pub callbacks : List Effect → ℕ
callbacks [] = 0
callbacks (game_completed _ _ _ ∷ es) = suc (callbacks es)
callbacks (max_attempts_exceeded _ _ ∷ es) = suc (callbacks es)
callbacks (poll_scheduled _ _ ∷ es) = callbacks es
callbacks (cycle_scheduled _ ∷ es) = callbacks es

get-remove_job :
    (id i : String) (s : PollingJobStore)
    → get i (remove_job id s).jobs ≡ (if id === i then none else get i s.jobs)
unfolding remove_job remove_job_indexes
get-remove_job id i s = elim (Option-cases (get id s.jobs)) [
  | inl e ↦ ground (arith, string_eq.beq_iff id i)
  | inr (job, e) ↦ ground (arith, get-delete id i s.jobs)
]

get-complete_job :
    (id i : String) (s : PollingJobStore)
    → get i (complete_job id s).jobs ≡ (if id === i then none else get i s.jobs)
unfolding complete_job remove_job
get-complete_job id i s = get-remove_job id i s

pub get-increment_attempt :
    (id i : String) (now : ℕ) (s : PollingJobStore) (job : PollJob)
    → get id s.jobs ≡ some job
    → get i (increment_attempt id now s).jobs
      ≡ (if id === i then some (polled_once now job) else get i s.jobs)
unfolding increment_attempt
get-increment_attempt id i now s job h = ground (arith, get-set id i (polled_once now job) s.jobs)

handled :
    (c : PollingConfig) (job : PollJob) (answer : PollJobStatus) (s : PollingJobStore) (i : String)
    → get job.id s.jobs ≡ some job
    → let p = handle_status c job answer s in
      (get job.id p.store.jobs ≡ (if ends c job (some answer) then none else some job))
      × (job.id ≢ i → get i p.store.jobs ≡ get i s.jobs)
      × (callbacks p.effects ≡ (if announces c job (some answer) then 1 else 0))
unfolding handle_status
handled c job answer s i here = (
  ground (
    arith,
    get-remove_job job.id job.id s,
    get-complete_job job.id job.id s,
    string_eq.beq_iff job.id job.id,
  ),
  λ ne.
      ground
        (arith, get-remove_job job.id i s, get-complete_job job.id i s, string_eq.beq_iff job.id i),
  ground arith,
)

module _ (c : PollingConfig) (l : Ledger) (poll : PollJob → Option PollJobStatus) (now : ℕ) where
  late_poll :
      (job : PollJob) (s : PollingJobStore)
      → check_ledger_timeout c l job ≡ true
      → poll_job c l poll now job s
        ≡ done (remove_job job.id s) (max_attempts_exceeded job (some (text "TIMED_OUT")) ∷ [])
  unfolding poll_job
  late_poll job s late = ground arith

  silent_poll :
      (job : PollJob) (s : PollingJobStore)
      → check_ledger_timeout c l job ≡ false
      → get job.id (increment_attempt job.id now s).jobs ≡ some (polled_once now job)
      → poll (polled_once now job) ≡ none
      → poll_job c l poll now job s
        ≡ record { store = increment_attempt job.id now s; effects = []; threw = true }
  unfolding poll_job
  silent_poll job s early found e = ground arith

  answered_poll :
      (job : PollJob) (s : PollingJobStore) (answer : PollJobStatus)
      → check_ledger_timeout c l job ≡ false
      → get job.id (increment_attempt job.id now s).jobs ≡ some (polled_once now job)
      → poll (polled_once now job) ≡ some answer
      → poll_job c l poll now job s
        ≡ handle_status c (polled_once now job) answer (increment_attempt job.id now s)
  unfolding poll_job
  answered_poll job s answer early found e = ground arith

  pub poll_job_lem :
      (job : PollJob) (s : PollingJobStore) (i : String)
      → get_job job.id s ≡ some job
      → let counted = polled_once now job in
        let late = check_ledger_timeout c l job in
        let p = poll_job c l poll now job s in
        (get_job job.id p.store
          ≡ (if late || ends c counted (poll counted) then none else some counted))
        × (job.id ≢ i → get_job i p.store ≡ get_job i s)
        × (callbacks p.effects ≡ (if late || announces c counted (poll counted) then 1 else 0))
  unfolding get_job
  poll_job_lem job s i here = elim (Bool-cases (check_ledger_timeout c l job)) [
    | inl late ↦
        rw (late, late_poll job s late)
          (
            ground (arith, get-remove_job job.id job.id s, string_eq.beq_iff job.id job.id),
            λ ne. ground (arith, get-remove_job job.id i s, string_eq.beq_iff job.id i),
            refl,
          )
    | inr early ↦
        let counted = polled_once now job in
        let after = increment_attempt job.id now s in
        let found : get job.id after.jobs ≡ some counted = ground (
          arith,
          get-increment_attempt job.id job.id now s job here,
          string_eq.beq_iff job.id job.id,
        ) in
        let kept : job.id ≢ i → get i after.jobs ≡ get i s.jobs = λ ne.
          ground
            (arith, get-increment_attempt job.id i now s job here, string_eq.beq_iff job.id i) in
        elim (Option-cases (poll counted)) [
          | inl e ↦ rw (early, e, silent_poll job s early found e) (found, kept, refl)
          | inr (answer, e) ↦
              let h = handled c counted answer after i found in
              rw (early, e, answered_poll job s answer early found e)
                (h.0, λ ne. h.1 ne ∙ kept ne, h.2)
        ]
  ]
