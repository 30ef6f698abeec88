-- ===== src/Dlq/SqliteStore/Refinement.antt =====
-- The store on SQLite beside the one in memory: the calls of
-- apps/backend/src/store/sqlite-queue-store.ts on the contract of
-- apps/backend/src/store/persistent-queue-store.ts.
use smile4money.Common.{ℕ, ◌+◌, ◌≡◌, ◌≤◌, List, All}
use smile4money.Common.Keys.{string_eq}
use smile4money.Dlq.Memory
use smile4money.Dlq.SqliteStore.{resolved, LockRetries, Row, thirty_days}
use smile4money.Dlq.SqliteStore.Rows.{entries, IsAscending}
use smile4money.Dlq.SqliteStore.Locks.{Locks}
use smile4money.Dlq.SqliteStore.Calls.{Call, on_sqlite, in_memory, latest_after}

module _ {P : Type 0} where
  -- What the uses keep of the table.
  abbrev IsTidy : ℕ → ℕ → List (Row P) → Type 0
  IsTidy start latest t =
      Memory.IsGood (entries t)
      × IsAscending t
      × All (λ r. r.created_at ≤ latest) t
      × All (λ r. start + thirty_days ≤ r.expire_at) t

  -- The call succeeds and does to the entries what it does to those in memory.
  abbrev Simulates : LockRetries → ℕ → ℕ → Call P → List (Row P) → Type 0
  Simulates c start latest call t =
      (u : List (Row P)) × (on_sqlite c call t ≡ resolved u)
      × (entries u ≡ in_memory call (entries t))
      × IsTidy start (latest_after latest call) u
