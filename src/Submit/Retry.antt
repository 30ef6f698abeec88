-- ===== src/Submit/Retry.antt =====
-- How often the retry loop calls the handler, how long it waits, and what it writes
-- (apps/backend/src/services/oracle-submit.ts).
use smile4money.Common.{
  ℕ, zero, suc, ◌+◌, ◌-◌, ◌≤◌, ◌<◌, ◌≡◌, refl, inl, inr, true, Option, none, some, is_some, List,
  [], ◌∷◌, String, arith, Option-cases, Bool-cases, sym, ◌==◌, ==_iff,
}
use smile4money.Common.Keys.{string_eq}
use smile4money.Dlq.{DlqEntry, QueueStore}
use smile4money.Dlq.Worker.{write_to_dlq}
use smile4money.Submit.{
  RetryConfig, OracleSubmission, Wait, Ending, delivered, exhausted, calculate_backoff_delay,
  submit_attempts, Submitted, submit_with_retry,
}

-- The first of `left` attempts from `attempt` on that the handler accepts.
abbrev pub FirstSuccess : (ℕ → Option String) → ℕ → ℕ → ℕ → Type 0
FirstSuccess handler attempt left n =
    (attempt ≤ n)
    × (n < attempt + left)
    × (handler n ≡ none)
    × ((m : ℕ) → attempt ≤ m → m < n → is_some (handler m) ≡ true)

abbrev pub AllFail : (ℕ → Option String) → ℕ → ℕ → Type 0
AllFail handler attempt left =
    (m : ℕ) → attempt ≤ m → m < attempt + left → is_some (handler m) ≡ true

-- The waits after `k` failures from `attempt` on.
abbrev pub waits_from : RetryConfig → ℕ → ℕ → List Wait
waits_from c attempt zero = []
waits_from c attempt (suc k) =
    record {
      logged_ms = calculate_backoff_delay (attempt + 1) c;
      slept_ms = calculate_backoff_delay attempt c;
    }
    ∷ waits_from c (attempt + 1) k

-- What the result of `left + 1` attempts says of the handler.
abbrev pub Explains : (ℕ → Option String) → RetryConfig → ℕ → ℕ → List Wait → Ending → Type 0
Explains handler c attempt left waits (delivered n) =
    FirstSuccess handler attempt (suc left) n × (waits ≡ waits_from c attempt (n - attempt))
Explains handler c attempt left waits (exhausted e) =
    AllFail handler attempt (suc left)
    × (e ≡ handler (attempt + left))
    × (waits ≡ waits_from c attempt left)

at_end : (n : ℕ) → n + 0 ≡ n
at_end n = omega arith

from_zero : (n : ℕ) → n - 0 ≡ n
from_zero n = omega arith

zero_plus : (n : ℕ) → 0 + n ≡ n
zero_plus n = omega arith

sub_self : (n : ℕ) → n - n ≡ 0
sub_self n = omega arith

count_down : (n attempt : ℕ) → attempt + 1 ≤ n → n - attempt ≡ suc (n - (attempt + 1))
count_down n attempt h = omega arith

shift_one : (attempt left : ℕ) → attempt + 1 + left ≡ attempt + suc left
shift_one attempt left = omega arith

failed_before :
    (handler : ℕ → Option String) (attempt bound : ℕ)
    → is_some (handler attempt) ≡ true
    → ((m : ℕ) → attempt + 1 ≤ m → m < bound → is_some (handler m) ≡ true)
    → (m : ℕ) → attempt ≤ m
    → m < bound
    → is_some (handler m) ≡ true
failed_before handler attempt bound h rest m le lt = elim (Bool-cases (m == attempt)) [
  | inl same ↦ rw ((==_iff m attempt).0 same) h
  | inr other ↦ rest m (ground arith) lt
]

module _ (handler : ℕ → Option String) (c : RetryConfig) where
  stops :
      (left attempt : ℕ) (last : Option String)
      → handler attempt ≡ none
      → submit_attempts handler c (suc left) attempt last ≡ ([], delivered attempt)
  unfolding submit_attempts
  stops left attempt last h = ground arith

  gives_up :
      (attempt : ℕ) (last : Option String) (err : String)
      → handler attempt ≡ some err
      → attempt ≡ c.max_retries
      → submit_attempts handler c 1 attempt last ≡ ([], exhausted (some err))
  unfolding submit_attempts
  gives_up attempt last err h e = ground arith

  goes_on :
      (left attempt : ℕ) (last : Option String) (err : String)
      → handler attempt ≡ some err
      → attempt < c.max_retries
      → submit_attempts handler c (suc left) attempt last ≡ (
        record {
          logged_ms = calculate_backoff_delay (attempt + 1) c;
          slept_ms = calculate_backoff_delay attempt c;
        }
            ∷ (submit_attempts handler c left (attempt + 1) (some err)).0,
        (submit_attempts handler c left (attempt + 1) (some err)).1,
      )
  unfolding submit_attempts
  goes_on left attempt last err h lt = ground arith

  Explains-stops :
      (left attempt : ℕ)
      → handler attempt ≡ none
      → Explains handler c attempt left [] (delivered attempt)
  Explains-stops left attempt h =
      ((omega arith, omega arith, h, λ m le lt. absurd (omega arith)), rw (sub_self attempt) refl)

  Explains-gives_up :
      (attempt : ℕ) (err : String)
      → handler attempt ≡ some err
      → Explains handler c attempt 0 [] (exhausted (some err))
  Explains-gives_up attempt err h = (
    failed_before handler attempt (attempt + 1) (rw h refl) (λ m le lt. absurd (omega arith)),
    rw (at_end attempt) (sym h),
    refl,
  )

  Explains-goes_on :
      (left attempt : ℕ) (err : String) (waits : List Wait) (e : Ending)
      → handler attempt ≡ some err
      → Explains handler c (attempt + 1) left waits e
      → Explains handler c attempt
          (suc left)
          (record {
            logged_ms = calculate_backoff_delay (attempt + 1) c;
            slept_ms = calculate_backoff_delay attempt c;
          }
            ∷ waits)
          e
  Explains-goes_on left attempt err waits (delivered n) h x = (
    (
      omega (arith, x.0.0),
      omega (arith, x.0.1),
      x.0.2,
      failed_before handler attempt n (rw h refl) x.0.3,
    ),
    rw (count_down n attempt x.0.0, x.1) refl,
  )
  Explains-goes_on left attempt err waits (exhausted o) h x = (
    failed_before handler attempt (attempt + suc (suc left)) (rw h refl)
        (λ m le lt. x.0 m le (omega arith)),
    rw (x.1, shift_one attempt left) refl,
    rw x.2 refl,
  )

  submit_attempts-Explains :
      (left attempt : ℕ) (last : Option String)
      → attempt + left ≡ c.max_retries
      → let r = submit_attempts handler c (suc left) attempt last in
        Explains handler c attempt left r.0 r.1
  submit_attempts-Explains zero attempt last h = elim (Option-cases (handler attempt)) [
    | inl e ↦ rw (stops 0 attempt last e) (Explains-stops 0 attempt e)
    | inr (err, e) ↦
        rw (gives_up attempt last err e (omega arith)) (Explains-gives_up attempt err e)
  ]
  submit_attempts-Explains (suc left) attempt last h = elim (Option-cases (handler attempt)) [
    | inl e ↦ rw (stops (suc left) attempt last e) (Explains-stops (suc left) attempt e)
    | inr (err, e) ↦ rw (goes_on (suc left) attempt last err e (omega arith)) (
        Explains-goes_on left attempt err _ _ e
          (submit_attempts-Explains left (attempt + 1) (some err) (omega arith)))
  ]

-- How a submission ends, as a description of the handler: the first success after some failures,
-- with nothing written; or `max_retries + 1` failures, with the last error written.
pub data Result {S : Type 0} (handler : ℕ → Option String) (c : RetryConfig) (s : S)
    (write : String → S × DlqEntry OracleSubmission) (r : Submitted S) : Type 0 where
  succeeded :
      (n : ℕ)
      → FirstSuccess handler 0 (suc c.max_retries) n
      → r ≡ record { waits = waits_from c 0 n; store = s; dlq_entry = none }
      → Result handler c s write r
  dead_lettered :
      (err : String)
      → AllFail handler 0 (suc c.max_retries)
      → handler c.max_retries ≡ some err
      → r ≡ record {
        waits = waits_from c 0 c.max_retries;
        store = (write err).0;
        dlq_entry = some (write err).1;
      }
      → Result handler c s write r

module _ (q : QueueStore OracleSubmission) where
  open q use {Store}

  ending-Result :
      (submission : OracleSubmission) (handler : ℕ → Option String) (c : RetryConfig) (id : String)
      (now : ℕ) (s : Store) (a : List Wait × Ending)
      → submit_attempts handler c (suc c.max_retries) 0 none ≡ a
      → Explains handler c 0 c.max_retries a.0 a.1
      → Result handler c s
          (λ err. write_to_dlq q id now submission err s)
          (submit_with_retry q submission handler c id now s)
  unfolding submit_with_retry
  ending-Result submission handler c id now s (waits, delivered n) e x =
      succeeded n x.0 (ground (arith, x.1, from_zero n))
  ending-Result submission handler c id now s (waits, exhausted o) e x =
      elim (Option-cases (handler c.max_retries)) [
        | inl f ↦ absurd (ground (arith, x.0 c.max_retries))
        | inr (err, f) ↦ dead_lettered err x.0 f (ground (arith, x.1, x.2, zero_plus c.max_retries))
      ]

  -- A submission calls the handler until it first succeeds, and then writes nothing; or, after
  -- `max_retries + 1` failures, writes the submission with the last error to the dead-letter queue
  -- and returns that entry. Between two attempts it sleeps, with exponentially growing delays.
  pub submit_with_retry-Result :
      (submission : OracleSubmission) (handler : ℕ → Option String) (c : RetryConfig) (id : String)
      (now : ℕ) (s : Store)
      → Result handler c s
          (λ err. write_to_dlq q id now submission err s)
          (submit_with_retry q submission handler c id now s)
  submit_with_retry-Result submission handler c id now s =
      ending-Result submission handler c id now s _ refl
        (submit_attempts-Explains handler c c.max_retries 0 none (omega arith))
