-- ===== src/Polling/Index.antt =====
-- The jobs of the store and its indexes (`PollingJobStore` of
-- apps/backend/src/services/polling.ts).
use smile4money.Common.{
  ◌∷◌, ℕ, ◌≡◌, ◌≢◌, subst, sym, ◌∙◌, ap, false, none, some, String, arith, inl, inr,
}
use smile4money.Common.Keys.{nat_eq, string_eq}
use smile4money.Common.OrderedMap.{
  get, has, set, Distinct, get-set_same, get-set_other, get-set_cases, has-none, set-Distinct,
}
use smile4money.Common.Text.{Text, text_eq, split_unique}
use smile4money.Common.Digits.{digits, value, value-digits, digits-IsFree}
use smile4money.Polling.{
  PollJob, NewJob, new_job, match_game_key, key_of, PollingJobStore, empty_store,
}

-- A key stands for one match and one game: no digit is a colon.
pub match_game_key_injective :
    (m n : ℕ) (g h : Text) → match_game_key m g ≡ match_game_key n h → (m ≡ n) × (g ≡ h)
unfolding match_game_key
match_game_key_injective m n g h e =
    let (same, rest) =
      split_unique b':' (digits m) (digits n) (b':' ∷ g) (b':' ∷ h) (digits-IsFree m)
        (digits-IsFree n) e in
    (sym (value-digits m) ∙ ap (value 0) same ∙ value-digits n, ground (arith, rest))

pub record IsIndexed (s : PollingJobStore) : Type 0 where
  pub distinct : Distinct s.jobs
  pub named : (id : String) (job : PollJob) → get id s.jobs ≡ some job → job.id ≡ id
  pub keyed :
      (id : String) (job : PollJob)
      → get id s.jobs ≡ some job
      → get (key_of job) s.match_game_key_to_job_id ≡ some id
  pub key_found :
      (k : Text) (id : String)
      → get k s.match_game_key_to_job_id ≡ some id
      → (job : PollJob) × (get id s.jobs ≡ some job) × (key_of job ≡ k)
  pub match_found :
      (m : ℕ) (id : String)
      → get m s.match_id_to_job_id ≡ some id
      → (job : PollJob) × (get id s.jobs ≡ some job) × (job.match_id ≡ m)

pub empty_store-IsIndexed : IsIndexed empty_store
unfolding empty_store get
empty_store-IsIndexed = record {
  distinct = tt;
  named = λ id job h. absurd (ground arith);
  keyed = λ id job h. absurd (ground arith);
  key_found = λ k id h. absurd (ground arith);
  match_found = λ m id h. absurd (ground arith);
}

-- The store with a new job, whose id and key are not in use.
abbrev pub added : NewJob → PollingJobStore → PollingJobStore
added n s = record {
  jobs = set n.id (new_job n) s.jobs;
  match_id_to_job_id = set n.match_id n.id s.match_id_to_job_id;
  match_game_key_to_job_id =
      set (match_game_key n.match_id n.game_id) n.id s.match_game_key_to_job_id;
}

module _ (n : NewJob) (s : PollingJobStore) (g : IsIndexed s) (new_id : get n.id s.jobs ≡ none)
    (new_key : has (match_game_key n.match_id n.game_id) s.match_game_key_to_job_id ≡ false) where
  pub added-IsIndexed : IsIndexed (added n s)
  added-IsIndexed = record {
    distinct = set-Distinct n.id (new_job n) s.jobs g.distinct;
    named = λ id job h. elim (get-set_cases n.id id s.jobs (new_job n) job h) [
      | inl (e, f) ↦ ap (λ j. j.id) (sym f) ∙ e
      | inr (ne, f) ↦ g.named id job f
    ];
    keyed = λ id job h. elim (get-set_cases n.id id s.jobs (new_job n) job h) [
      | inl (e, f) ↦
          subst (λ j. get (key_of j) (added n s).match_game_key_to_job_id ≡ some id) f
            (get-set_same (match_game_key n.match_id n.game_id)
                (match_game_key n.match_id n.game_id) s.match_game_key_to_job_id n.id
              ∙ ap some e)
      | inr (ne, f) ↦
          get-set_other (match_game_key n.match_id n.game_id) (key_of job)
            s.match_game_key_to_job_id n.id (other_key id job f)
          ∙ g.keyed id job f
    ];
    key_found = λ k id h.
        elim (get-set_cases (match_game_key n.match_id n.game_id) k s.match_game_key_to_job_id n.id
          id h) [
            | inl (e, f) ↦ (
              new_job n,
              subst (λ i. get i (added n s).jobs ≡ some (new_job n)) f
                  (get-set_same n.id n.id s.jobs (new_job n)),
              e,
            )
            | inr (ne, f) ↦
                let (job, here, key) = g.key_found k id f in (job, kept id job here, key)
          ];
    match_found = λ m id h. elim (get-set_cases n.match_id m s.match_id_to_job_id n.id id h) [
      | inl (e, f) ↦ (
        new_job n,
        subst (λ i. get i (added n s).jobs ≡ some (new_job n)) f
            (get-set_same n.id n.id s.jobs (new_job n)),
        e,
      )
      | inr (ne, f) ↦ let (job, here, key) = g.match_found m id f in (job, kept id job here, key)
    ];
  }
    where
      other_key :
          (id : String) (job : PollJob)
          → get id s.jobs ≡ some job
          → (match_game_key n.match_id n.game_id) ≢ key_of job
      other_key id job f same = ground (
        arith,
        has-none (match_game_key n.match_id n.game_id) (match_game_key n.match_id n.game_id)
            s.match_game_key_to_job_id new_key,
        subst (λ k. get k s.match_game_key_to_job_id ≡ some id) (sym same) (g.keyed id job f),
      )

      kept :
          (id : String) (job : PollJob)
          → get id s.jobs ≡ some job
          → get id (added n s).jobs ≡ some job
      kept id job f =
          get-set_other n.id id s.jobs (new_job n)
            (λ same. ground (arith, new_id, subst (λ i. get i s.jobs ≡ some job) (sym same) f))
          ∙ f
