-- ===== src/Dlq/Retention.antt =====
-- What a retry pass does to each entry of the queue (apps/backend/src/queue.ts).
use smile4money.Common.{
  ℕ, ◌+◌, ◌≡◌, refl, sym, subst, ◌∙◌, inl, inr, true, false, Option, none, some, List, [], ◌∷◌,
  String, Option-cases, Bool-cases, All, arith,
}
use smile4money.Common.Keys.{◌===◌, string_eq}
use smile4money.Breaker.{CircuitBreaker, record_success, record_failure, allow_request}
use smile4money.Dlq.{DlqEntry, IsFresh, IsDistinct, QueueStore}
use smile4money.Dlq.Worker.{
  Outcome, is_rpc_error, attempt_updates, attempted, retry_entries, retry_pass,
}

-- What may become of an entry: it stays, is stored with one more attempt, or is gone because the
-- handler succeeded on that attempt.
pub data Fate {P : Type 0} (handler : DlqEntry P → ℕ → Outcome) (e : DlqEntry P)
    : Option (DlqEntry P) → Type 0 where
  untouched : Fate handler e (some e)
  retried : (t : ℕ) → Fate handler e (some (attempted t e))
  resolved : (t : ℕ) → (handler (attempted t e) t).error ≡ none → Fate handler e none

module _ {P : Type 0} (q : QueueStore P) (handler : DlqEntry P → ℕ → Outcome) where
  open q use {
    Store, IsGood, get_all, remove, update, find, find-remove, find-update, get_all-IsDistinct,
    listing_found,
  }

  abbrev AllFound : Store → List (DlqEntry P) → Type 0
  AllFound s es = All (λ e. find e.id s ≡ some e) es

  -- The store once the attempt on `e` is recorded.
  abbrev tried_store : DlqEntry P → ℕ → Store → Store
  tried_store e now s = update e.id (attempt_updates (e.attempts + 1) now) s

  retry_cases {ℓ} :
      (R : CircuitBreaker × Store → Type ℓ) (e : DlqEntry P) (es : List (DlqEntry P)) (now : ℕ)
      (b : CircuitBreaker) (s : Store)
      → ((handler (attempted now e) now).error ≡ none
          → R (
              retry_entries q handler es
                (handler (attempted now e) now).ended_at
                (record_success b)
                (remove e.id (tried_store e now s))))
      → ((c : CircuitBreaker) → R (c, tried_store e now s))
      → ((c : CircuitBreaker)
          → R (
              retry_entries q handler es
                (handler (attempted now e) now).ended_at
                c
                (tried_store e now s)))
      → R (retry_entries q handler (e ∷ es) now b s)
  unfolding retry_entries
  retry_cases R e es now b s done broke more =
      elim (Option-cases (handler (attempted now e) now).error) [
        | inl h ↦ rw (h, retry_entries) (done h)
        | inr (err, h) ↦ elim (Bool-cases (is_rpc_error err)) [
          | inr other ↦ rw (h, retry_entries, other) (more b)
          | inl rpc ↦
              elim (Bool-cases (record_failure b (handler (attempted now e) now).ended_at).1) [
                | inl opened ↦ rw (h, retry_entries, rpc, opened) (broke _)
                | inr shut ↦ rw (h, retry_entries, rpc, shut) (more _)
              ]
        ]
      ]

  find-tried_other :
      (i : String) (e : DlqEntry P) (now : ℕ) (s : Store)
      → e.id === i ≡ false
      → find i (tried_store e now s) ≡ find i s
  find-tried_other i e now s h =
      ground (arith, find-update i e.id (attempt_updates (e.attempts + 1) now) s)

  find-tried_self :
      (e : DlqEntry P) (now : ℕ) (s : Store)
      → find e.id s ≡ some e
      → find e.id (tried_store e now s) ≡ some (attempted now e)
  find-tried_self e now s h = ground (
    arith,
    find-update e.id e.id (attempt_updates (e.attempts + 1) now) s,
    string_eq.beq_iff e.id e.id,
  )

  ne_comm : (a b : String) → a === b ≡ false → b === a ≡ false
  ne_comm a b h = ground (arith, string_eq.beq_iff a b, string_eq.beq_iff b a)

  find-resolved_other :
      (i : String) (e : DlqEntry P) (now : ℕ) (s : Store)
      → e.id === i ≡ false
      → find i (remove e.id (tried_store e now s)) ≡ find i s
  find-resolved_other i e now s h =
      ground (arith, find-remove i e.id (tried_store e now s), find-tried_other i e now s h)

  AllFound-frame :
      (e : DlqEntry P) (s t : Store) (es : List (DlqEntry P))
      → ((i : String) → e.id === i ≡ false → find i t ≡ find i s)
      → IsFresh e.id es
      → AllFound s es
      → AllFound t es
  AllFound-frame e s t [] same f a = tt
  AllFound-frame e s t (x ∷ es) same f a =
      (same x.id (ne_comm x.id e.id f.0) ∙ a.0, AllFound-frame e s t es same f.1 a.1)

  -- Entries that are not in the pass keep what is stored under their ids.
  retry_entries_fresh :
      (i : String) (es : List (DlqEntry P)) (now : ℕ) (b : CircuitBreaker) (s : Store)
      → IsFresh i es
      → find i (retry_entries q handler es now b s).1 ≡ find i s
  retry_entries_fresh i [] now b s f = unfold retry_entries in refl
  retry_entries_fresh i (e ∷ es) now b s f =
      retry_cases (λ r. find i r.1 ≡ find i s) e es now b s
        (λ done. retry_entries_fresh i es _ _ _ f.1 ∙ find-resolved_other i e now s f.0)
        (λ c. find-tried_other i e now s f.0)
        (λ c. retry_entries_fresh i es _ _ _ f.1 ∙ find-tried_other i e now s f.0)

  same_entry :
      (x e : DlqEntry P) (s : Store)
      → x.id === e.id ≡ true
      → find x.id s ≡ some x
      → find e.id s ≡ some e
      → x ≡ e
  same_entry x e s same hx he = ground (arith, string_eq.beq_iff x.id e.id)

  outcome_at :
      {e : DlqEntry P} {o o' : Option (DlqEntry P)} → o ≡ o' → Fate handler e o' → Fate handler e o
  outcome_at {e} p f = subst (Fate handler e) (sym p) f

  head-Fate :
      (e : DlqEntry P) (es : List (DlqEntry P)) (now : ℕ) (b : CircuitBreaker) (s : Store)
      → IsFresh e.id es
      → find e.id s ≡ some e
      → Fate handler e (find e.id (retry_entries q handler (e ∷ es) now b s).1)
  head-Fate e es now b s f h =
      retry_cases (λ r. Fate handler e (find e.id r.1)) e es now b s
        (λ done. outcome_at (retry_entries_fresh e.id es _ _ _ f ∙ gone) (resolved now done))
        (λ c. outcome_at (find-tried_self e now s h) (retried now))
        (λ c.
          outcome_at (retry_entries_fresh e.id es _ _ _ f ∙ find-tried_self e now s h)
            (retried now))
    where
      gone : find e.id (remove e.id (tried_store e now s)) ≡ none
      gone =
          ground (arith, find-remove e.id e.id (tried_store e now s), string_eq.beq_iff e.id e.id)

  retry_entries-Fate :
      (e : DlqEntry P) (es : List (DlqEntry P)) (now : ℕ) (b : CircuitBreaker) (s : Store)
      → IsDistinct es
      → AllFound s es
      → find e.id s ≡ some e
      → Fate handler e (find e.id (retry_entries q handler es now b s).1)
  retry_entries-Fate e [] now b s d a h = unfold retry_entries in rw h untouched
  retry_entries-Fate e (x ∷ es) now b s d a h = elim (Bool-cases (x.id === e.id)) [
    | inr other ↦
        retry_cases (λ r. Fate handler e (find e.id r.1)) x es now b s
          (λ done.
            retry_entries-Fate e es _ _ _ d.1
              (AllFound-frame x s _ es (λ i. find-resolved_other i x now s) d.0 a.1)
              (find-resolved_other e.id x now s other ∙ h))
          (λ c. rw (find-tried_other e.id x now s other ∙ h) untouched)
          (λ c.
            retry_entries-Fate e es _ _ _ d.1
              (AllFound-frame x s _ es (λ i. find-tried_other i x now s) d.0 a.1)
              (find-tried_other e.id x now s other ∙ h))
    | inl same ↦
        subst (λ y. Fate handler y (find y.id (retry_entries q handler (x ∷ es) now b s).1))
          (same_entry x e s same a.0 h) (head-Fate x es now b s d.0 a.0)
  ]

  listed-Fate :
      (es : List (DlqEntry P)) (now : ℕ) (b : CircuitBreaker) (s : Store) (e : DlqEntry P)
      → get_all s ≡ es
      → IsDistinct es
      → AllFound s es
      → find e.id s ≡ some e
      → Fate handler e (find e.id (retry_pass q handler now b s).1)
  unfolding retry_pass
  listed-Fate [] now b s e p d a h = rw (p, retry_pass) (outcome_at h untouched)
  listed-Fate (x ∷ es) now b s e p d a h = elim (Bool-cases (allow_request b now).1) [
    | inl go ↦ rw (p, retry_pass, go) (retry_entries-Fate e (x ∷ es) now _ s d a h)
    | inr paused ↦ rw (p, retry_pass, paused) (outcome_at h untouched)
  ]

  -- In a retry pass over a store in good order, each stored entry stays as it is, is kept with one
  -- more attempt and the time of that attempt, or is removed, and then the handler succeeded on
  -- that attempt. So a failing handler never loses an entry, whatever the breaker does.
  pub retry_pass-Fate :
      (now : ℕ) (b : CircuitBreaker) (s : Store) (e : DlqEntry P)
      → IsGood s
      → find e.id s ≡ some e
      → Fate handler e (find e.id (retry_pass q handler now b s).1)
  retry_pass-Fate now b s e g h =
      listed-Fate (get_all s) now b s e refl (get_all-IsDistinct s g) (listing_found s g) h
