-- ===== src/Dlq/SqliteStore.antt =====
-- The queue store on SQLite: apps/backend/src/store/sqlite-queue-store.ts. A table is the list of its
-- rows in the order of their insertion, in which rows of the same `createdAt` are listed. Payloads are
-- JSON values, which come back from their text as they were.
pub mod Retry
pub mod Rows
pub mod Locks
pub mod Calls
pub mod Refinement
mod Examples
use smile4money.Common.{
  ℕ, zero, suc, ◌+◌, ◌-◌, ◌*◌, ◌^◌, Bool, true, false, ◌&&◌, ◌||◌, not, Option, none, some, List,
  [], ◌∷◌, ◌++◌, String, length, ltb, leb, ◌==◌, if◌then◌else◌, or_else, keep, map, or_try, is_some,
}
use smile4money.Common.Keys.{◌===◌, string_eq}
use smile4money.Common.Text.{Text, trim_start, is_digit}
use smile4money.Common.Digits.{value}
use smile4money.Dlq.{DlqEntry, Updates}

-- A call of the driver ends with a result or with an error and its code, if it has one.
pub data Outcome (A : Type 0) : Type 0 where
  resolved : A → Outcome A
  rejected : Option String → Outcome A

unfoldable pub is_retryable_sqlite_error : Option String → Bool
is_retryable_sqlite_error none = false
is_retryable_sqlite_error (some code) = code === "SQLITE_BUSY" || code === "SQLITE_LOCKED"

abbrev pub default_max_retries : ℕ
default_max_retries = 5

abbrev pub default_base_delay_ms : ℕ
default_base_delay_ms = 50

abbrev pub max_safe_integer : ℕ
max_safe_integer = 9007199254740991

-- The digits that a text starts with.
unfoldable pub leading_digits : Text → Text
leading_digits [] = []
leading_digits (c ∷ s) = if is_digit c then c ∷ leading_digits s else []

abbrev pub without_plus : Text → Text
without_plus [] = []
without_plus (c ∷ s) = if c == b'+' then s else c ∷ s

-- `Number.parseInt(value ?? "", 10)`; what is negative or no number is no positive number.
unfoldable pub read_positive_int : Option Text → ℕ → ℕ
unfolding trim_start leading_digits value
read_positive_int raw fallback =
    let parsed = value 0 (leading_digits (without_plus (trim_start (or_else raw [])))) in
    if leb parsed max_safe_integer && ltb 0 parsed then parsed else fallback

-- The outcome, and the delays that were slept. `operation` says how each attempt ends.
unfoldable pub retry_from : {A : Type 0} → ℕ → ℕ → ℕ → (ℕ → Outcome A) → Outcome A × List ℕ
retry_from zero attempt base operation = (operation attempt, [])
retry_from (suc left) attempt base operation =
    let rest = retry_from left (attempt + 1) base operation in
    elim (operation attempt) [
      | resolved a ↦ (resolved a, [])
      | rejected code ↦
          if is_retryable_sqlite_error code
          then (rest.0, (base * 2 ^ attempt) ∷ rest.1)
          else (rejected code, [])
    ]

unfoldable pub with_retry : {A : Type 0} → ℕ → ℕ → (ℕ → Outcome A) → Outcome A × List ℕ
unfolding retry_from
with_retry max_retries base operation = retry_from max_retries 0 base operation

pub record Row (P : Type 0) : Type 0 where
  pub id : String
  pub payload : P
  pub failure_reason : String
  pub attempts : ℕ
  pub created_at : ℕ
  pub last_attempt_at : Option ℕ
  pub expire_at : ℕ

-- `row.lastAttemptAt || null`.
abbrev pub truthy_time : Option ℕ → Option ℕ
truthy_time none = none
truthy_time (some n) = if ltb 0 n then some n else none

module _ {P : Type 0} where
  unfoldable pub row_of : DlqEntry P → ℕ → Row P
  row_of e expire_at = record {
    id = e.id;
    payload = e.payload;
    failure_reason = e.failure_reason;
    attempts = e.attempts;
    created_at = e.created_at;
    last_attempt_at = e.last_attempt_at;
    expire_at = expire_at;
  }

  unfoldable pub entry_of : Row P → DlqEntry P
  entry_of r = record {
    id = r.id;
    payload = r.payload;
    failure_reason = r.failure_reason;
    attempts = r.attempts;
    created_at = r.created_at;
    last_attempt_at = truthy_time r.last_attempt_at;
    trace_context = none;
  }

  -- The statements. An id that is taken violates the primary key.
  abbrev pub is_taken : String → List (Row P) → Bool
  is_taken i [] = false
  is_taken i (r ∷ t) = r.id === i || is_taken i t

  unfoldable pub insert_row : Row P → List (Row P) → Outcome (List (Row P))
  insert_row r t =
      if is_taken r.id t then rejected (some "SQLITE_CONSTRAINT") else resolved (t ++ (r ∷ []))

  unfoldable pub delete_expired : ℕ → List (Row P) → List (Row P)
  delete_expired now t = keep (λ r. leb now r.expire_at) t

  unfoldable pub delete_row : String → List (Row P) → List (Row P)
  delete_row i t = keep (λ r. not (r.id === i)) t

  -- `ORDER BY createdAt ASC`.
  unfoldable pub insert_created : Row P → List (Row P) → List (Row P)
  insert_created r [] = r ∷ []
  insert_created r (q ∷ t) =
      if leb r.created_at q.created_at then r ∷ q ∷ t else q ∷ insert_created r t

  unfoldable pub by_created : List (Row P) → List (Row P)
  unfolding insert_created
  by_created [] = []
  by_created (r ∷ t) = insert_created r (by_created t)

  unfoldable pub update_rows : String → (Row P → Row P) → List (Row P) → List (Row P)
  update_rows i f [] = []
  update_rows i f (r ∷ t) = if r.id === i then f r ∷ update_rows i f t else r ∷ update_rows i f t

  abbrev pub set_columns : Updates P → Row P → Row P
  set_columns u r = record r {
    attempts = or_else u.attempts r.attempts;
    last_attempt_at = or_else u.last_attempt_at r.last_attempt_at;
  }

  abbrev pub count_rows : ℕ → List (Row P) → ℕ
  count_rows now t = length (keep (λ r. ltb now r.expire_at) t)

-- How often and how long the store waits for the lock of the file.
pub record LockRetries : Type 0 where
  pub max_retries : ℕ
  pub base_delay_ms : ℕ

-- A statement under the lock: `locks` gives the error code of each attempt that finds it held.
abbrev pub under_lock : {A : Type 0} → (ℕ → Option String) → Outcome A → ℕ → Outcome A
under_lock locks statement n = elim (locks n) [
  | none ↦ statement
  | some code ↦ rejected (some code)
]

abbrev pub execute : {A : Type 0} → LockRetries → (ℕ → Option String) → Outcome A → Outcome A
execute c locks statement =
    (with_retry c.max_retries c.base_delay_ms (under_lock locks statement)).0

abbrev pub thirty_days : ℕ
thirty_days = 30 * 24 * 60 * 60 * 1000

module _ {P : Type 0} (c : LockRetries) where
  unfoldable pub add : (ℕ → Option String) → DlqEntry P → ℕ → List (Row P) → Outcome (List (Row P))
  unfolding with_retry row_of insert_row
  add locks e now t = execute c locks (insert_row (row_of e (now + thirty_days)) t)

  -- Each of the two statements has its locks. The expired rows are gone even if the second fails.
  unfoldable pub get_all :
      (ℕ → Option String)
      → (ℕ → Option String)
      → ℕ
      → List (Row P)
      → List (Row P) × Outcome (List (DlqEntry P))
  unfolding with_retry delete_expired by_created entry_of
  get_all locks select_locks now t = elim (execute c locks (resolved (delete_expired now t))) [
    | rejected code ↦ (t, rejected code)
    | resolved left ↦ (left, execute c select_locks (resolved (map entry_of (by_created left))))
  ]

  unfoldable pub remove : (ℕ → Option String) → String → List (Row P) → Outcome (List (Row P))
  unfolding with_retry delete_row
  remove locks i t = execute c locks (resolved (delete_row i t))

  -- Without a column to set, no statement is run.
  unfoldable pub update :
      (ℕ → Option String) → String → Updates P → List (Row P) → Outcome (List (Row P))
  unfolding with_retry update_rows
  update locks i u t =
      if is_some u.attempts || is_some u.last_attempt_at
      then execute c locks (resolved (update_rows i (set_columns u) t))
      else resolved t

  unfoldable pub count : (ℕ → Option String) → ℕ → List (Row P) → Outcome ℕ
  unfolding with_retry
  count locks now t = execute c locks (resolved (count_rows now t))

  unfoldable pub clear : (ℕ → Option String) → List (Row P) → Outcome (List (Row P))
  unfolding with_retry
  clear locks t = execute c locks (resolved [])
