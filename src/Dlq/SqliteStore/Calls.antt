-- ===== src/Dlq/SqliteStore/Calls.antt =====
-- The calls of the queue on the store on SQLite and on the one in memory: the methods of
-- apps/backend/src/store/sqlite-queue-store.ts and
-- apps/backend/src/store/in-memory-queue-store.ts.
use smile4money.Common.{ℕ, ◌≡◌, ◌≢◌, ◌≤◌, false, none, some, List, [], ◌∷◌, String}
use smile4money.Common.Keys.{string_eq}
use smile4money.Common.OrderedMap.{OrderedMap, has}
use smile4money.Dlq.{DlqEntry, Updates}
use smile4money.Dlq.Memory
use smile4money.Dlq.SqliteStore.{Outcome, resolved, rejected, LockRetries, Row, add, remove, update}
use smile4money.Dlq.SqliteStore.Rows.{IsAttempt}
use smile4money.Dlq.SqliteStore.Locks.{Locks, IsPatient}

-- A call that changes the queue, with its time and the locks that it meets.
pub data Call (P : Type 0) : Type 0 where
  adds : DlqEntry P → ℕ → Locks → Call P
  removes : String → Locks → Call P
  updates : String → Updates P → Locks → Call P

module _ {P : Type 0} where
  unfoldable pub on_sqlite : LockRetries → Call P → List (Row P) → Outcome (List (Row P))
  on_sqlite c (adds e now locks) t = add c locks e now t
  on_sqlite c (removes i locks) t = remove c locks i t
  on_sqlite c (updates i u locks) t = update c locks i u t

  unfoldable pub in_memory :
      Call P → OrderedMap String (DlqEntry P) → OrderedMap String (DlqEntry P)
  in_memory (adds e now locks) m = Memory.add e m
  in_memory (removes i locks) m = Memory.remove i m
  in_memory (updates i u locks) m = Memory.update i u m

  -- The calls one after the other; one that throws ends them.
  unfoldable pub all_on_sqlite : LockRetries → List (Call P) → List (Row P) → Outcome (List (Row P))
  all_on_sqlite c [] t = resolved t
  all_on_sqlite c (call ∷ calls) t = elim (on_sqlite c call t) [
    | rejected code ↦ rejected code
    | resolved u ↦ all_on_sqlite c calls u
  ]

  unfoldable pub all_in_memory :
      List (Call P) → OrderedMap String (DlqEntry P) → OrderedMap String (DlqEntry P)
  all_in_memory [] m = m
  all_in_memory (call ∷ calls) m = all_in_memory calls (in_memory call m)

  -- The calls that the queue makes: ids are fresh, entries come in the order of their creation and from
  -- `start` on, hold no trace context and no time 0, and the lock gets free within the retries.
  abbrev pub IsUse : LockRetries → ℕ → ℕ → Call P → OrderedMap String (DlqEntry P) → Type 0
  IsUse c start latest (adds e now locks) m =
      (has e.id m ≡ false)
      × (latest ≤ e.created_at)
      × (start ≤ now)
      × (e.trace_context ≡ none)
      × (e.last_attempt_at ≢ some 0)
      × IsPatient c locks
  IsUse c start latest (removes i locks) m = IsPatient c locks
  IsUse c start latest (updates i u locks) m = IsAttempt u × IsPatient c locks

  abbrev pub latest_after : ℕ → Call P → ℕ
  latest_after latest (adds e now locks) = e.created_at
  latest_after latest (removes i locks) = latest
  latest_after latest (updates i u locks) = latest

  abbrev pub AreUses : LockRetries → ℕ → ℕ → List (Call P) → OrderedMap String (DlqEntry P) → Type 0
  AreUses c start latest [] m = Unit
  AreUses c start latest (call ∷ calls) m =
      IsUse c start latest call m
      × AreUses c start (latest_after latest call) calls (in_memory call m)
