-- ===== src/Disagreement/Service/Checks.antt =====
-- The checks of a service in every order of calls, timers and answers
-- (`createOutcomeDisagreementService` of apps/backend/src/services/outcome-disagreement-service.ts).
use smile4money.Common.{
  ℕ, zero, suc, ◌+◌, ◌≡◌, ◌≤◌, ◌⊎◌, refl, sym, ap, subst, true, false, ◌&&◌, ◌||◌, not, Option,
  none, some, List, [], ◌∷◌, ◌++◌, ltb, if◌then◌else◌, keep, All, All-append, arith, Bool-cases,
  Option-cases, inl, inr,
}
use smile4money.Common.Keys.{◌===◌, nat_eq}
use smile4money.Common.OrderedSet.{member, member-insert, member-remove}
use smile4money.Disagreement.{MatchEvidenceInput, Observation, DisagreementMonitorConfig}
use smile4money.Disagreement.Monitor.{DisagreementMonitor}
use smile4money.Disagreement.Service.{
  CheckJob, OutcomeDisagreementService, create_outcome_disagreement_service, arm, schedule_check,
  job_at, without_job, unschedule, drop_job, begin_check, is_retryable, end_check, stop,
}
use smile4money.Disagreement.Service.Events.{
  Event, ending, step, after_events, checks_of, schedules, fires, ends, stops,
}

checks_of-append :
    (i : ℕ) (js : List CheckJob) (j : CheckJob)
    → checks_of i (js ++ (j ∷ []))
      ≡ (if j.input.match_id === i then checks_of i js + 1 else checks_of i js)
unfolding checks_of
checks_of-append i [] j = refl
checks_of-append i (k ∷ js) j = ground (arith, checks_of-append i js j)

checks_of-without :
    (i n : ℕ) (js : List CheckJob) (j : CheckJob)
    → job_at n js ≡ some j
    → checks_of i js ≡ (
        if j.input.match_id === i
        then checks_of i (without_job n js) + 1
        else checks_of i (without_job n js))
unfolding checks_of
checks_of-without i n [] j h = ground arith
checks_of-without i zero (k ∷ js) j h = ground arith
checks_of-without i (suc n) (k ∷ js) j h = ground (arith, checks_of-without i n js j h)

All-without :
    (Q : CheckJob → Type 0) (n : ℕ) (js : List CheckJob) → All Q js → All Q (without_job n js)
All-without Q n [] h = tt
All-without Q zero (j ∷ js) h = h.1
All-without Q (suc n) (j ∷ js) h = (h.0, All-without Q n js h.1)

All-at :
    (Q : CheckJob → Type 0) (n : ℕ) (js : List CheckJob) (j : CheckJob)
    → All Q js
    → job_at n js ≡ some j
    → Q j
All-at Q n [] j h e = ground arith
All-at Q zero (k ∷ js) j h e = let same : k ≡ j = ground arith in subst Q same h.0
All-at Q (suc n) (k ∷ js) j h e = All-at Q n js j h.1 e

abbrev IsTried : ℕ → CheckJob → Type 0
IsTried most j = (1 ≤ j.attempt) × (j.attempt ≤ most)

-- Until the service is stopped, a match has a check exactly while it is scheduled, and then one; no
-- attempt is above the limit; and once it is stopped, no check waits.
record IsOrderly (most : ℕ) (s : OutcomeDisagreementService) : Type 0 where
  same_limit : s.max_attempts ≡ most
  single :
      s.stopped ≡ false → (i : ℕ) → checks_of i s.jobs ≡ (if member i s.scheduled then 1 else 0)
  tried : All (IsTried most) s.jobs
  quiet : s.stopped ≡ true → All (λ j. j.running ≡ true) s.jobs

all_running : (js : List CheckJob) → All (λ j. j.running ≡ true) (keep (λ j. j.running) js)
all_running [] = tt
all_running (j ∷ js) = ground (arith, all_running js)

keep-IsTried :
    (most : ℕ) (js : List CheckJob)
    → All (IsTried most) js
    → All (IsTried most) (keep (λ j. j.running) js)
keep-IsTried most [] h = tt
keep-IsTried most (j ∷ js) h = ground (arith, keep-IsTried most js h.1)

module _ (most : ℕ) (s : OutcomeDisagreementService) where
  schedule-IsOrderly :
      (i : MatchEvidenceInput) → 1 ≤ most → IsOrderly most s → IsOrderly most (schedule_check i s)
  unfolding schedule_check arm
  schedule-IsOrderly i pos o = elim (Bool-cases (s.stopped || member i.match_id s.scheduled)) [
    | inl e ↦ rw e o
    | inr e ↦
        let open_ : s.stopped ≡ false = ground arith in
        let new : member i.match_id s.scheduled ≡ false = ground arith in
        let j : CheckJob = record { input = i; attempt = 1; running = false } in
        rw e (record {
          same_limit = o.same_limit;
          single = λ h k. ground (
            arith,
            o.single open_ k,
            checks_of-append k s.jobs j,
            member-insert i.match_id k s.scheduled,
            nat_eq.beq_iff i.match_id k,
          );
          tried = All-append (IsTried most) s.jobs (j ∷ []) o.tried ((omega arith, pos), tt);
          quiet = λ h. ground (arith, h, open_);
        })
  ]

  stop-IsOrderly : IsOrderly most s → IsOrderly most (stop s)
  unfolding stop
  stop-IsOrderly o = record {
    same_limit = o.same_limit;
    single = λ h. ground (arith, h);
    tried = keep-IsTried most s.jobs o.tried;
    quiet = λ h. all_running s.jobs;
  }

  module _ (n : ℕ) (j : CheckJob) (here : job_at n s.jobs ≡ some j) (o : IsOrderly most s) where
    -- The job is gone, and its match is no longer scheduled.
    dropped :
        (m : DisagreementMonitor)
        → IsOrderly most (unschedule j.input.match_id (record (drop_job n s) { monitor = m }))
    dropped m = record {
      same_limit = o.same_limit;
      single = λ h k. ground (
        arith,
        o.single h k,
        checks_of-without k n s.jobs j here,
        member-remove j.input.match_id k s.scheduled,
        nat_eq.beq_iff j.input.match_id k,
      );
      tried = All-without (IsTried most) n s.jobs o.tried;
      quiet = λ h. All-without (λ j. j.running ≡ true) n s.jobs (o.quiet h);
    }

    -- The job is replaced by another of the same match.
    replaced :
        (k : CheckJob) (m : DisagreementMonitor)
        → k.input ≡ j.input
        → IsTried most k
        → s.stopped ≡ false
        → IsOrderly most (record s { jobs = without_job n s.jobs ++ (k ∷ []); monitor = m })
    replaced k m same t going = record {
      same_limit = o.same_limit;
      single = λ h i. ground (
        arith,
        o.single h i,
        checks_of-without i n s.jobs j here,
        checks_of-append i (without_job n s.jobs) k,
        ap (λ x. x.match_id) same,
      );
      tried =
          All-append (IsTried most) (without_job n s.jobs) (k ∷ [])
            (All-without (IsTried most) n s.jobs o.tried) (t, tt);
      quiet = λ h. ground (arith, h, going);
    }

    begin_stopped :
        s.stopped ≡ true → begin_check n j s ≡ unschedule j.input.match_id (drop_job n s)
    unfolding begin_check
    begin_stopped e = rw e refl

    begin_going :
        s.stopped ≡ false
        → begin_check n j s
          ≡ record s { jobs = without_job n s.jobs ++ (record j { running = true } ∷ []) }
    unfolding begin_check
    begin_going e = rw e refl

    begin-IsOrderly : IsOrderly most (begin_check n j s)
    begin-IsOrderly = elim (Bool-cases s.stopped) [
      | inl e ↦ subst (IsOrderly most) (sym (begin_stopped e)) (dropped s.monitor)
      | inr e ↦ subst (IsOrderly most) (sym (begin_going e)) (
          replaced (record j { running = true }) s.monitor refl
            (All-at (IsTried most) n s.jobs j o.tried here) e)
    ]

    end-IsOrderly :
        (r : Option (DisagreementMonitor × Observation)) → IsOrderly most (end_check n j r s)
    unfolding end_check arm
    end-IsOrderly none = dropped s.monitor
    end-IsOrderly (some r) =
        elim (Bool-cases ((is_retryable r.1 && ltb j.attempt s.max_attempts) && not s.stopped)) [
          | inl e ↦
              let going : s.stopped ≡ false = ground arith in
              let more : j.attempt + 1 ≤ most = ground (arith, o.same_limit) in
              rw e (
                replaced (record { input = j.input; attempt = j.attempt + 1; running = false }) r.0
                  refl (omega arith, more) going)
          | inr e ↦ rw e (dropped r.0)
        ]

module _ (most : ℕ) where
  step-IsOrderly :
      (e : Event) (s : OutcomeDisagreementService)
      → 1 ≤ most
      → IsOrderly most s
      → IsOrderly most (step e s)
  unfolding step begin_check end_check
  step-IsOrderly (schedules i) s pos o = schedule-IsOrderly most s i pos o
  step-IsOrderly stops s pos o = stop-IsOrderly most s o
  step-IsOrderly (fires n) s pos o = elim (Option-cases (job_at n s.jobs)) [
    | inl e ↦ rw e o
    | inr (j, e) ↦ rw e (elim (Bool-cases j.running) [
      | inl r ↦ rw r o
      | inr r ↦ rw r (begin-IsOrderly most s n j e o)
    ])
  ]
  step-IsOrderly (ends n a) s pos o = elim (Option-cases (job_at n s.jobs)) [
    | inl e ↦ rw e o
    | inr (j, e) ↦ rw e (elim (Bool-cases j.running) [
      | inl r ↦ rw r (end-IsOrderly most s n j e o (ending j a s.monitor))
      | inr r ↦ rw r o
    ])
  ]

  events-IsOrderly :
      (es : List Event) (s : OutcomeDisagreementService)
      → 1 ≤ most
      → IsOrderly most s
      → IsOrderly most (after_events es s)
  unfolding after_events
  events-IsOrderly [] s pos o = o
  events-IsOrderly (e ∷ es) s pos o = events-IsOrderly es (step e s) pos (step-IsOrderly e s pos o)

new-IsOrderly :
    (config : DisagreementMonitorConfig) (most : ℕ)
    → IsOrderly most (create_outcome_disagreement_service config (some most))
unfolding create_outcome_disagreement_service
new-IsOrderly config most = record {
  same_limit = refl;
  single = λ h i. unfold checks_of member in refl;
  tried = tt;
  quiet = λ h. tt;
}

-- In every order of calls, timers and answers: until the service is stopped, a match has one check that
-- waits or runs while it is scheduled, and none otherwise; no check is tried more often than configured;
-- and once it is stopped, no check waits.
pub checks_are_single :
    (config : DisagreementMonitorConfig) (most : ℕ) (es : List Event) (i : ℕ)
    → 1 ≤ most
    → let s = after_events es (create_outcome_disagreement_service config (some most)) in
      (s.stopped ≡ true ⊎ (checks_of i s.jobs ≡ (if member i s.scheduled then 1 else 0)))
      × All (λ j. j.attempt ≤ most) s.jobs
      × (s.stopped ≡ false ⊎ All (λ j. j.running ≡ true) s.jobs)
checks_are_single config most es i pos =
    let s = after_events es (create_outcome_disagreement_service config (some most)) in
    let o =
      events-IsOrderly most es (create_outcome_disagreement_service config (some most)) pos
        (new-IsOrderly config most) in
    elim (Bool-cases s.stopped) [
      | inl e ↦ (inl e, within most s.jobs o.tried, inr (o.quiet e))
      | inr e ↦ (inr (o.single e i), within most s.jobs o.tried, inl e)
    ]
  where
    within :
        (most : ℕ) (js : List CheckJob) → All (IsTried most) js → All (λ j. j.attempt ≤ most) js
    within most [] h = tt
    within most (j ∷ js) h = (h.0.1, within most js h.1)
