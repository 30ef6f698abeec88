-- ===== src/Polling/Removal.antt =====
-- What the removal of a job does to the indexes of the job store (`removeJobIndexes` of
-- apps/backend/src/services/polling.ts).
use smile4money.Common.{
  ℕ, ◌≡◌, ◌≢◌, refl, sym, ◌∙◌, ap, ◌↔◌, true, Option, none, some, String, arith, or_else,
  Option-cases, Bool-cases, inl, inr,
}
use smile4money.Common.Keys.{nat_eq, string_eq, is_value}
use smile4money.Common.OrderedMap.{
  get, delete, get-delete_other, get-delete_cases, get-delete, delete-Distinct,
}
use smile4money.Common.Text.{Text, text_eq}
use smile4money.Polling.{
  PollJob, key_of, PollingJobStore, get_job, get_job_by_match_id, remove_job_indexes, remove_job,
  complete_job,
}
use smile4money.Polling.Index.{IsIndexed}

same_value {ℓ} : {A : Type ℓ} {a b : A} → some a ≡ some b → a ≡ b
same_value {a = a} h = ap (λ o. or_else o a) h

-- What a job leaves behind when it is removed.
abbrev removed : String → PollJob → PollingJobStore → PollingJobStore
unfolding remove_job_indexes
removed id job s = record (remove_job_indexes job s) { jobs = delete id s.jobs }

is_value_iff : (a : String) (o : Option String) → (is_value a o ≡ true) ↔ (o ≡ some a)
is_value_iff a none = ground arith
is_value_iff a (some b) = ground (arith, string_eq.beq_iff b a)

module _ (id : String) (job : PollJob) (s : PollingJobStore) (g : IsIndexed s)
    (here : get id s.jobs ≡ some job) where
  jobs_left :
      (i : String) (j : PollJob)
      → get i (delete id s.jobs) ≡ some j
      → (id ≢ i) × (get i s.jobs ≡ some j)
  jobs_left i j h = get-delete_cases id i s.jobs j h

  -- The key of the job leads to no other job, so it is deleted, and the others stay.
  key_left :
      (k : Text) (i : String)
      → get k (removed id job s).match_game_key_to_job_id ≡ some i
      → (key_of job ≢ k) × (get k s.match_game_key_to_job_id ≡ some i)
  unfolding removed
  key_left k i h =
      let own =
        (is_value_iff job.id (get (key_of job) s.match_game_key_to_job_id)).1
          (g.keyed id job here ∙ ap some (sym (g.named id job here))) in
      get-delete_cases (key_of job) k s.match_game_key_to_job_id i (ground arith)

  key_kept :
      (k : Text)
      → key_of job ≢ k
      → get k (removed id job s).match_game_key_to_job_id ≡ get k s.match_game_key_to_job_id
  unfolding removed
  key_kept k ne = ground (arith, get-delete_other (key_of job) k s.match_game_key_to_job_id ne)

  -- A match id that leads to the job is its own.
  own_match : (m : ℕ) → get m s.match_id_to_job_id ≡ some id → job.match_id ≡ m
  own_match m h = let (j, there, same) = g.match_found m id h in ground (arith, there, same, here)

  match_left :
      (m : ℕ) (i : String)
      → get m (removed id job s).match_id_to_job_id ≡ some i
      → (id ≢ i) × (get m s.match_id_to_job_id ≡ some i)
  unfolding removed
  match_left m i h = elim (Bool-cases (is_value job.id (get job.match_id s.match_id_to_job_id))) [
    | inl e ↦
        let (ne, f) = get-delete_cases job.match_id m s.match_id_to_job_id i (ground arith) in
        (λ same. ne (own_match m (f ∙ ap some (sym same))), f)
    | inr e ↦
        let f : get m s.match_id_to_job_id ≡ some i = ground arith in
        (
          λ same. ground (
            arith,
            own_match m (f ∙ ap some (sym same)),
            f,
            g.named id job here,
            is_value_iff job.id (get job.match_id s.match_id_to_job_id),
          ),
          f,
        )
  ]

  match_kept :
      (m : ℕ) (i : String)
      → id ≢ i
      → get m s.match_id_to_job_id ≡ some i
      → get m (removed id job s).match_id_to_job_id ≡ some i
  unfolding removed
  match_kept m i ne h = ground (
    arith,
    get-delete_other job.match_id m s.match_id_to_job_id,
    is_value_iff job.id (get job.match_id s.match_id_to_job_id),
    g.named id job here,
  )

  removed-IsIndexed : IsIndexed (removed id job s)
  unfolding removed
  removed-IsIndexed = record {
    distinct = delete-Distinct id s.jobs g.distinct;
    named = λ i j h. g.named i j (jobs_left i j h).1;
    keyed = λ i j h.
        let (ne, f) = jobs_left i j h in key_kept (key_of j) (other_job i j ne f) ∙ g.keyed i j f;
    key_found = λ k i h.
        let (ne, f) = key_left k i h in
        let (j, there, same) = g.key_found k i f in
        (j, get-delete_other id i s.jobs (other_id k i j ne there same) ∙ there, same);
    match_found = λ m i h.
        let (ne, f) = match_left m i h in
        let (j, there, same) = g.match_found m i f in
        (j, get-delete_other id i s.jobs ne ∙ there, same);
  }
    where
      other_job :
          (i : String) (j : PollJob) → id ≢ i → get i s.jobs ≡ some j → key_of job ≢ key_of j
      other_job i j ne f same = ne (
          same_value (
            sym (g.keyed id job here)
            ∙ ap (λ k. get k s.match_game_key_to_job_id) same
            ∙ g.keyed i j f))

      other_id :
          (k : Text) (i : String) (j : PollJob)
          → key_of job ≢ k
          → get i s.jobs ≡ some j
          → key_of j ≡ k
          → id ≢ i
      other_id k i j ne there same eq =
          ne (ap key_of (same_value (sym here ∙ ap (λ a. get a s.jobs) eq ∙ there)) ∙ same)

pub remove_job-IsIndexed :
    (id : String) (s : PollingJobStore) → IsIndexed s → IsIndexed (remove_job id s)
unfolding remove_job removed
remove_job-IsIndexed id s g = elim (Option-cases (get id s.jobs)) [
  | inl e ↦ rw (e, remove_job) g
  | inr (job, e) ↦ rw (e, remove_job) (removed-IsIndexed id job s g e)
]

pub complete_job-IsIndexed :
    (id : String) (s : PollingJobStore) → IsIndexed s → IsIndexed (complete_job id s)
unfolding complete_job remove_job
complete_job-IsIndexed id s g = remove_job-IsIndexed id s g

-- Removing or completing a job leaves every other job findable: by its id, by its match and game,
-- for which no second job can be created, and by its match alone if it was.
pub remove_job_keeps :
    (s : PollingJobStore) (job other : PollJob)
    → IsIndexed s
    → get_job job.id s ≡ some job
    → get_job other.id s ≡ some other
    → job.id ≢ other.id
    → let r = remove_job job.id s in
      (complete_job job.id s ≡ r)
      × IsIndexed r
      × (get_job job.id r ≡ none)
      × (get_job other.id r ≡ some other)
      × (get (key_of other) r.match_game_key_to_job_id ≡ some other.id)
      × (get other.match_id s.match_id_to_job_id ≡ some other.id
          → get_job_by_match_id other.match_id r ≡ some other)
unfolding get_job
remove_job_keeps s job other g here there ne =
    let h = get-delete_other job.id other.id s.jobs ne ∙ there in
    let r = remove_job-IsIndexed job.id s g in
    let same : remove_job job.id s ≡ removed job.id job s =
      unfold remove_job removed in rw (here, remove_job) refl in
    (
      unfold complete_job remove_job in refl,
      r,
      rw same (unfold removed in gone),
      rw same (unfold removed in h),
      r.keyed other.id other (rw same (unfold removed in h)),
      λ e. rw same (
          unfold get_job_by_match_id removed in
          ground (arith, match_kept job.id job s g here other.match_id other.id ne e, h)),
    )
  where
    gone : get job.id (delete job.id s.jobs) ≡ none
    gone = ground (arith, get-delete job.id job.id s.jobs, string_eq.beq_iff job.id job.id)
