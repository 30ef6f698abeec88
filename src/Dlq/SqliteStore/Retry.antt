-- ===== src/Dlq/SqliteStore/Retry.antt =====
-- How often a call of the database is tried and how long it waits (`withRetry` of
-- apps/backend/src/store/sqlite-queue-store.ts).
use native.Mathlib.Nat.{pow-succ', two-mul, mul-add, mul-sub}
use smile4money.Common.{
  ℕ, zero, suc, ◌+◌, ◌-◌, ◌*◌, ◌^◌, ◌≡◌, ◌≤◌, refl, sym, ap, subst, ◌∙◌, Bool, true, false, List,
  [], ◌∷◌, ◌⊎◌, inl, inr, arith, if◌then◌else◌, Bool-cases,
}
use smile4money.Dlq.SqliteStore.{
  Outcome, resolved, rejected, is_retryable_sqlite_error, retry_from, with_retry,
}

-- Whether an attempt ends the call.
unfoldable pub is_final : {A : Type 0} → Outcome A → Bool
unfolding is_retryable_sqlite_error
is_final (resolved a) = true
is_final (rejected code) = if is_retryable_sqlite_error code then false else true

-- None of `k` attempts from a given one on ends the call.
abbrev pub IsBusy : {A : Type 0} → ℕ → ℕ → (ℕ → Outcome A) → Type 0
IsBusy zero from operation = Unit
IsBusy (suc k) from operation = (is_final (operation from) ≡ false) × IsBusy k (from + 1) operation

unfoldable pub waits : ℕ → ℕ → ℕ → List ℕ
waits base zero from = []
waits base (suc k) from = (base * 2 ^ from) ∷ waits base k (from + 1)

unfoldable pub total : List ℕ → ℕ
total [] = 0
total (n ∷ ns) = n + total ns

mul-two : (b x : ℕ) → b * (2 * x) ≡ b * x + b * x
mul-two b x = ap (λ n. b * n) (two-mul x) ∙ mul-add b x x

total-waits :
    (base k from : ℕ) → total (waits base k from) + base * 2 ^ from ≡ base * 2 ^ (from + k)
unfolding total waits
total-waits base zero from =
    let same : from + 0 ≡ from = omega arith in omega (arith, ap (λ n. base * 2 ^ n) (sym same))
total-waits base (suc k) from =
    let next : from + suc k ≡ from + 1 + k = omega arith in
    let one : from + 1 ≡ suc from = omega arith in
    let doubled : base * 2 ^ (from + 1) ≡ base * 2 ^ from + base * 2 ^ from =
      ap (λ n. base * 2 ^ n) one
      ∙ ap (λ n. base * n) (pow-succ' 2 from)
      ∙ mul-two base (2 ^ from) in
    omega (arith, total-waits base k (from + 1), doubled, ap (λ n. base * 2 ^ n) next)

module _ {A : Type 0} (operation : ℕ → Outcome A) (base : ℕ) where
  -- The call ends with the first attempt that ends it, or with the last one that is left.
  abbrev Ends : ℕ → ℕ → Outcome A × List ℕ → Type 0
  Ends left from r =
      (k : ℕ) × (k ≤ left)
      × IsBusy k from operation
      × ((is_final (operation (from + k)) ≡ true) ⊎ (k ≡ left))
      × (r ≡ (operation (from + k), waits base k from))

  ended :
      (left from : ℕ) (o : Outcome A)
      → operation from ≡ o
      → is_final o ≡ true
      → retry_from (suc left) from base operation ≡ (o, [])
  unfolding retry_from is_final
  ended left from (resolved a) e h = rw (e, retry_from) refl
  ended left from (rejected code) e h = elim (Bool-cases (is_retryable_sqlite_error code)) [
    | inl r ↦ ground (arith, r)
    | inr r ↦ rw (e, retry_from, r) refl
  ]

  goes_on :
      (left from : ℕ) (o : Outcome A)
      → operation from ≡ o
      → is_final o ≡ false
      → let rest = retry_from left (from + 1) base operation in
        retry_from (suc left) from base operation ≡ (rest.0, (base * 2 ^ from) ∷ rest.1)
  unfolding retry_from is_final
  goes_on left from (resolved a) e h = ground arith
  goes_on left from (rejected code) e h = elim (Bool-cases (is_retryable_sqlite_error code)) [
    | inl r ↦ rw (e, retry_from, r) refl
    | inr r ↦ ground (arith, r)
  ]

  at_once :
      (left from : ℕ) (r : Outcome A × List ℕ)
      → (is_final (operation from) ≡ true) ⊎ (0 ≡ left)
      → r ≡ (operation from, [])
      → Ends left from r
  unfolding waits
  at_once left from r h e =
      let same : from + 0 ≡ from = omega arith in (0, omega arith, tt, rw same h, rw same e)

  one_later :
      (left from : ℕ) (r : Outcome A × List ℕ)
      → is_final (operation from) ≡ false
      → Ends left (from + 1) r
      → Ends (suc left) from (r.0, (base * 2 ^ from) ∷ r.1)
  unfolding waits
  one_later left from r busy (k, le, busy_then, last, e) =
      let same : from + suc k ≡ from + 1 + k = omega arith in
      (
        suc k,
        omega (arith, le),
        (busy, busy_then),
        rw same (next_last last),
        rw same (ap (λ q. (q.0, (base * 2 ^ from) ∷ q.1)) e),
      )
    where
      next_last : {k : ℕ} {P : Type 0} → P ⊎ (k ≡ left) → P ⊎ (suc k ≡ suc left)
      next_last (inl h) = inl h
      next_last (inr h) = inr (ap suc h)

  ends : (left from : ℕ) → Ends left from (retry_from left from base operation)
  ends zero from = unfold retry_from in at_once zero from (operation from, []) (inr refl) refl
  ends (suc left) from = elim (Bool-cases (is_final (operation from))) [
    | inl h ↦
        at_once (suc left) from (retry_from (suc left) from base operation) (inl h)
          (ended left from (operation from) refl h)
    | inr h ↦
        rw (goes_on left from (operation from) refl h)
          (one_later left from (retry_from left (from + 1) base operation) h (ends left (from + 1)))
  ]

  reaches :
      (k left from : ℕ)
      → k ≤ left
      → IsBusy k from operation
      → is_final (operation (from + k)) ≡ true
      → (retry_from left from base operation).0 ≡ operation (from + k)
  reaches zero zero from le busy h =
      let same : from + 0 ≡ from = omega arith in unfold retry_from in ap operation (sym same)
  reaches zero (suc left) from le busy h =
      let same : from + 0 ≡ from = omega arith in
      rw (ended left from (operation from) refl (subst (λ n. is_final (operation n) ≡ true) same h))
        (ap operation (sym same))
  reaches (suc k) zero from le busy h = absurd (omega (arith, le))
  reaches (suc k) (suc left) from le busy h =
      let same : from + suc k ≡ from + 1 + k = omega arith in
      rw (goes_on left from (operation from) refl busy.0, same)
        (reaches k left (from + 1) (omega (arith, le)) busy.1
          (subst (λ n. is_final (operation n) ≡ true) same h))

-- Every call ends: after `k` errors of a held lock, at most as many as retries are allowed, with the
-- first attempt that meets no such error, or with the error of the last one; by then it has slept
-- base · (2 ^ k - 1) milliseconds.
pub with_retry-ends :
    {A : Type 0} (max_retries base : ℕ) (operation : ℕ → Outcome A)
    → let r = with_retry max_retries base operation in
      (k : ℕ) × (k ≤ max_retries)
      × IsBusy k 0 operation
      × ((is_final (operation k) ≡ true) ⊎ (k ≡ max_retries))
      × (r.0 ≡ operation k)
      × (total r.1 ≡ base * (2 ^ k - 1))
unfolding with_retry
with_retry-ends max_retries base operation =
    let (k, le, busy, last, e) = ends operation base max_retries 0 in
    let same : 0 + k ≡ k = omega arith in
    (
      k,
      le,
      busy,
      subst (λ n. (is_final (operation n) ≡ true) ⊎ (k ≡ max_retries)) same last,
      ap (λ r. r.0) e ∙ ap operation same,
      ap (λ r. total r.1) e
          ∙ omega
              (arith, total-waits base k 0, mul-sub base (2 ^ k) 1, ap (λ n. base * 2 ^ n) same),
    )

-- A call that finds the lock free within its retries ends as if it had been free at once.
pub with_retry-reaches :
    {A : Type 0} (max_retries base k : ℕ) (operation : ℕ → Outcome A)
    → k ≤ max_retries
    → IsBusy k 0 operation
    → is_final (operation k) ≡ true
    → (with_retry max_retries base operation).0 ≡ operation k
unfolding with_retry
with_retry-reaches max_retries base k operation le busy h =
    let same : 0 + k ≡ k = omega arith in
    reaches operation base k max_retries 0 le busy
      (subst (λ n. is_final (operation n) ≡ true) (sym same) h)
    ∙ ap operation same
