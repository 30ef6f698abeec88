-- ===== src/Dlq.antt =====
-- The dead-letter queue's entries and the contract of its stores:
-- apps/backend/src/store/persistent-queue-store.ts.
pub mod Memory
pub mod SqliteStore
pub mod Worker
pub mod Retention
pub mod Eviction
mod Examples
use smile4money.Common.{
  ℕ, ◌≡◌, Bool, true, false, Option, none, some, List, [], ◌∷◌, String, length, All, if◌then◌else◌,
  or_else,
}
use smile4money.Common.Keys.{◌===◌, string_eq}

pub record TraceContext : Type 0 where
  pub traceparent : String
  pub tracestate : Option String

-- `P` is the type of the payload, which the queue never looks into.
pub record DlqEntry (P : Type 0) : Type 0 where
  pub id : String
  pub payload : P
  pub failure_reason : String
  pub attempts : ℕ
  pub created_at : ℕ
  pub last_attempt_at : Option ℕ
  pub trace_context : Option TraceContext

-- `Partial<DlqEntry>`, but for the id, which no caller changes.
pub record Updates (P : Type 0) : Type 0 where
  pub payload : Option P
  pub failure_reason : Option String
  pub attempts : Option ℕ
  pub created_at : Option ℕ
  pub last_attempt_at : Option (Option ℕ)
  pub trace_context : Option (Option TraceContext)

-- `{ ...existing, ...updates }`.
abbrev pub merge : {P : Type 0} → DlqEntry P → Updates P → DlqEntry P
merge e u = record {
  id = e.id;
  payload = or_else u.payload e.payload;
  failure_reason = or_else u.failure_reason e.failure_reason;
  attempts = or_else u.attempts e.attempts;
  created_at = or_else u.created_at e.created_at;
  last_attempt_at = or_else u.last_attempt_at e.last_attempt_at;
  trace_context = or_else u.trace_context e.trace_context;
}

abbrev pub map_entry :
    {P : Type 0} → (DlqEntry P → DlqEntry P) → Option (DlqEntry P) → Option (DlqEntry P)
map_entry f none = none
map_entry f (some e) = some (f e)

-- `id` stands in none of the entries.
abbrev pub IsFresh : {P : Type 0} → String → List (DlqEntry P) → Type 0
IsFresh i [] = Unit
IsFresh i (e ∷ es) = (e.id === i ≡ false) × IsFresh i es

abbrev pub IsDistinct : {P : Type 0} → List (DlqEntry P) → Type 0
IsDistinct [] = Unit
IsDistinct (e ∷ es) = IsFresh e.id es × IsDistinct es

-- What a store promises its clients. `find` says what is stored under an id; it is no operation of
-- the source, but the view through which the others are described. The laws are asked of the
-- states that the operations keep (`IsGood`).
pub record QueueStore (P : Type 0) : Type 1 where
  pub Store : Type 0
  pub IsGood : Store → Type 0
  pub add : DlqEntry P → Store → Store
  pub get_all : Store → List (DlqEntry P)
  pub remove : String → Store → Store
  pub update : String → Updates P → Store → Store
  pub count : Store → ℕ
  pub find : String → Store → Option (DlqEntry P)
  pub find-add :
      (i : String) (e : DlqEntry P) (s : Store)
      → find i (add e s) ≡ (if e.id === i then some e else find i s)
  pub find-remove :
      (i j : String) (s : Store) → find i (remove j s) ≡ (if j === i then none else find i s)
  pub find-update :
      (i j : String) (u : Updates P) (s : Store)
      → find i (update j u s)
        ≡ (if j === i then map_entry (λ e. merge e u) (find i s) else find i s)
  pub listing_found : (s : Store) → IsGood s → All (λ e. find e.id s ≡ some e) (get_all s)
  pub find-get_all : (i : String) (s : Store) → IsGood s → IsFresh i (get_all s) → find i s ≡ none
  pub get_all-IsDistinct : (s : Store) → IsGood s → IsDistinct (get_all s)
  pub count-get_all : (s : Store) → count s ≡ length (get_all s)
  pub add-IsGood : (e : DlqEntry P) (s : Store) → IsGood s → IsGood (add e s)
  pub remove-IsGood : (i : String) (s : Store) → IsGood s → IsGood (remove i s)
  pub update-IsGood : (i : String) (u : Updates P) (s : Store) → IsGood s → IsGood (update i u s)
