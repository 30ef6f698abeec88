-- ===== src/Dlq/SqliteStore/Examples.antt =====
-- A queue of settlements while a backup holds the file for two attempts.
use smile4money.Common.{
  ℕ, zero, suc, ◌-◌, ◌*◌, ◌^◌, ◌≡◌, ◌≤◌, ◌⊎◌, refl, true, none, some, List, [], ◌∷◌, String, arith,
}
use smile4money.Dlq.{DlqEntry, Updates}
use smile4money.Dlq.Memory
use smile4money.Dlq.SqliteStore.{Outcome, resolved, rejected, LockRetries, with_retry}
use smile4money.Dlq.SqliteStore.Retry.{is_final, IsBusy, total, with_retry-ends}
use smile4money.Dlq.SqliteStore.Locks.{Locks, IsPatient}
use smile4money.Dlq.SqliteStore.Calls.{Call, adds, removes, updates}

abbrev config : LockRetries
config = record { max_retries = 5; base_delay_ms = 50 }

-- Held for two attempts.
abbrev backup : Locks
backup zero = some "SQLITE_BUSY"
backup (suc zero) = some "SQLITE_LOCKED"
backup (suc (suc n)) = none

abbrev free : Locks
free n = none

abbrev entry : String → ℕ → DlqEntry ℕ
entry i n = record {
  id = i;
  payload = n;
  failure_reason = "timeout";
  attempts = 0;
  created_at = n;
  last_attempt_at = none;
  trace_context = none;
}

abbrev attempt : Updates ℕ
attempt = record {
  payload = none;
  failure_reason = none;
  attempts = some 1;
  created_at = none;
  last_attempt_at = some (some 9000);
  trace_context = none;
}

abbrev calls : List (Call ℕ)
calls =
    adds (entry "a" 1000) 1000 free
    ∷ adds (entry "b" 2000) 2001 backup
    ∷ updates "a" attempt backup
    ∷ removes "b" free
    ∷ []

abbrev free-IsPatient : IsPatient config free
free-IsPatient = (0, omega arith, refl)

abbrev attempts : ℕ → Outcome String
attempts n = elim (backup n) [ none ↦ resolved "row" | some code ↦ rejected (some code) ]

with_retry-ends_example :
    (k : ℕ) × (k ≤ 5)
    × IsBusy k 0 attempts
    × ((is_final (attempts k) ≡ true) ⊎ (k ≡ 5))
    × ((with_retry 5 50 attempts).0 ≡ attempts k)
    × (total (with_retry 5 50 attempts).1 ≡ 50 * (2 ^ k - 1))
with_retry-ends_example = with_retry-ends 5 50 attempts
