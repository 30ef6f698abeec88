-- ===== src/Dlq/SqliteStore/Locks.antt =====
-- Statements that wait for the lock of the file (`withRetry` around each call of
-- apps/backend/src/store/sqlite-queue-store.ts).
use smile4money.Common.{
  ℕ, zero, suc, ◌+◌, ◌≡◌, ◌≤◌, refl, sym, ap, ◌∙◌, true, Option, none, some, String, arith,
}
use smile4money.Common.Keys.{string_eq}
use smile4money.Dlq.SqliteStore.{
  Outcome, LockRetries, is_retryable_sqlite_error, under_lock, execute,
}
use smile4money.Dlq.SqliteStore.Retry.{is_final, IsBusy, with_retry-reaches}

abbrev pub Locks : Type 0
Locks = ℕ → Option String

-- The lock is held for some attempts and then free.
abbrev pub FreeAfter : ℕ → ℕ → Locks → Type 0
FreeAfter zero from locks = locks from ≡ none
FreeAfter (suc k) from locks =
    ((code : String) × (locks from ≡ some code) × (is_retryable_sqlite_error (some code) ≡ true))
    × FreeAfter k (from + 1) locks

-- The lock gets free within the retries.
abbrev pub IsPatient : LockRetries → Locks → Type 0
IsPatient c locks = (k : ℕ) × (k ≤ c.max_retries) × FreeAfter k 0 locks

module _ {A : Type 0} (c : LockRetries) (statement : Outcome A) where
  until_free :
      (k from : ℕ) (locks : Locks)
      → FreeAfter k from locks
      → IsBusy k from (under_lock locks statement)
  unfolding is_final
  until_free zero from locks h = tt
  until_free (suc k) from locks ((code, e, r), h) =
      (rw (e, under_lock, r) refl, until_free k (from + 1) locks h)

  free_at :
      (k from : ℕ) (locks : Locks)
      → FreeAfter k from locks
      → under_lock locks statement (from + k) ≡ statement
  free_at zero from locks h =
      let same : from + 0 ≡ from = omega arith in rw (same, h, under_lock) refl
  free_at (suc k) from locks h =
      let same : from + suc k ≡ from + 1 + k = omega arith in
      rw same (free_at k (from + 1) locks h.1)

  pub execute-statement :
      (locks : Locks)
      → IsPatient c locks
      → is_final statement ≡ true
      → execute c locks statement ≡ statement
  execute-statement locks (k, le, h) final =
      let same : 0 + k ≡ k = omega arith in
      let free : under_lock locks statement k ≡ statement =
        ap (under_lock locks statement) (sym same) ∙ free_at k 0 locks h in
      with_retry-reaches c.max_retries c.base_delay_ms k (under_lock locks statement) le
        (until_free k 0 locks h) (ap is_final free ∙ final)
      ∙ free
