-- ===== src/Dlq/Worker.antt =====
-- The queue's functions and the retry worker: apps/backend/src/queue.ts. The store is a parameter
-- whose calls succeed. The handler of a retry is a parameter too: it is given the entry and the
-- time, and returns the error that it throws, if it does, and the time at which it ends.
use text.Mathlib.Text.{find? as index_of?}
use smile4money.Common.{
  ℕ, ◌+◌, ◌*◌, Bool, true, false, ◌||◌, Option, none, some, List, [], ◌∷◌, String, is_some, ltb,
  length, keep,
}
use smile4money.Breaker.{CircuitBreaker, allow_request, record_success, record_failure}
use smile4money.Dlq.{DlqEntry, Updates, QueueStore}

pub record Outcome : Type 0 where
  pub error : Option String
  pub ended_at : ℕ

abbrev pub includes : String → String → Bool
includes text part = is_some (index_of? text part)

unfoldable pub is_rpc_error : String → Bool
is_rpc_error err = includes err "RPC" || includes err "Network"

abbrev pub attempt_updates : {P : Type 0} → ℕ → ℕ → Updates P
attempt_updates attempts now = record {
  payload = none;
  failure_reason = none;
  attempts = some attempts;
  created_at = none;
  last_attempt_at = some (some now);
  trace_context = none;
}

-- The entry as the worker has it while the handler runs.
abbrev pub attempted : {P : Type 0} → ℕ → DlqEntry P → DlqEntry P
attempted now e = record e { attempts = e.attempts + 1; last_attempt_at = some now }

module _ {P : Type 0} (q : QueueStore P) where
  open q use {Store, add, get_all, remove, update}

  -- The id is built from the time and a random number, and is given.
  unfoldable pub write_to_dlq : String → ℕ → P → String → Store → Store × DlqEntry P
  write_to_dlq id now payload failure_reason s =
      let entry : DlqEntry P = record {
        id = id;
        payload = payload;
        failure_reason = failure_reason;
        attempts = 0;
        created_at = now;
        last_attempt_at = none;
        trace_context = none;
      } in
      (add entry s, entry)

  -- The loop of one retry pass, with the entries still to be tried.
  unfoldable pub retry_entries :
      (DlqEntry P → ℕ → Outcome)
      → List (DlqEntry P)
      → ℕ
      → CircuitBreaker
      → Store
      → CircuitBreaker × Store
  retry_entries handler [] now b s = (b, s)
  retry_entries handler (e ∷ es) now b s =
      let entry = attempted now e in
      let tried = update e.id (attempt_updates entry.attempts now) s in
      let outcome = handler entry now in
      elim outcome.error [
        | none ↦ retry_entries handler es outcome.ended_at (record_success b) (remove e.id tried)
        | some err ↦ elim (is_rpc_error err) [
          | true ↦ elim (record_failure b outcome.ended_at).1 [
            | true ↦ ((record_failure b outcome.ended_at).0, tried)
            | false ↦
                retry_entries handler es outcome.ended_at (record_failure b outcome.ended_at).0
                  tried
          ]
          | false ↦ retry_entries handler es outcome.ended_at b tried
        ]
      ]

  -- What the worker's timer does.
  unfoldable pub retry_pass :
      (DlqEntry P → ℕ → Outcome) → ℕ → CircuitBreaker → Store → CircuitBreaker × Store
  retry_pass handler now b s = elim (get_all s) [
    | [] ↦ (b, s)
    | e ∷ es ↦ elim (allow_request b now).1 [
      | true ↦ retry_entries handler (e ∷ es) now (allow_request b now).0 s
      | false ↦ ((allow_request b now).0, s)
    ]
  ]

  unfoldable pub remove_entries : List (DlqEntry P) → Store → Store
  remove_entries [] s = s
  remove_entries (e ∷ es) s = remove_entries es (remove e.id s)

  -- `createdAt < now - ttlDays * 24h`, without the subtraction.
  abbrev pub is_expired : ℕ → ℕ → DlqEntry P → Bool
  is_expired ttl_days now e = ltb (e.created_at + ttl_days * 24 * 60 * 60 * 1000) now

  unfoldable pub evict_expired_dlq_entries : ℕ → ℕ → Store → Store × ℕ
  unfolding remove_entries
  evict_expired_dlq_entries ttl_days now s =
      let expired = keep (is_expired ttl_days now) (get_all s) in
      (remove_entries expired s, length expired)
