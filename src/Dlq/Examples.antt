-- ===== src/Dlq/Examples.antt =====
-- Two failed submissions in the in-memory store, a retry pass and an eviction.
use smile4money.Common.{ℕ, ◌≡◌, refl, none, some, [], ◌∷◌, String, if◌then◌else◌, ◌==◌}
use smile4money.Common.Keys.{string_eq}
use smile4money.Common.OrderedMap.{OrderedMap, get, has, set, delete}
use smile4money.Breaker.{new, default_config, allow_request, record_success, record_failure}
use smile4money.Dlq.{DlqEntry}
use smile4money.Dlq.Memory.{memory, get_all, remove, update, IsGood}
use smile4money.Dlq.Worker.{Outcome, is_rpc_error, attempted, retry_entries, retry_pass}
use smile4money.Dlq.Retention.{Fate, retry_pass-Fate}

abbrev entry_a : DlqEntry ℕ
entry_a = record {
  id = "a";
  payload = 7;
  failure_reason = "RPC timeout";
  attempts = 0;
  created_at = 5;
  last_attempt_at = none;
  trace_context = none;
}

abbrev entry_b : DlqEntry ℕ
entry_b = record entry_a { id = "b"; payload = 8; created_at = 700000000 }

abbrev store : OrderedMap String (DlqEntry ℕ)
store = ("a", entry_a) ∷ ("b", entry_b) ∷ []

-- Payload 7 meets a failing network, all else succeeds.
abbrev handler : DlqEntry ℕ → ℕ → Outcome
handler e now = record {
  error = if e.payload == 7 then some "Network down" else none;
  ended_at = now;
}

after_pass :
    (retry_pass (memory ℕ) handler 100 (new default_config) store).1
    ≡ ("a", attempted 100 entry_a) ∷ []
unfolding retry_pass retry_entries is_rpc_error get_all update remove get set delete new
    allow_request record_failure record_success
after_pass = refl

store-IsGood : IsGood store
unfolding has
store-IsGood = ((refl, (refl, tt)), (refl, (refl, tt)))

retry_pass-Fate_example :
    Fate handler entry_a (get "a" (retry_pass (memory ℕ) handler 100 (new default_config) store).1)
unfolding get
retry_pass-Fate_example =
    retry_pass-Fate (memory ℕ) handler 100 (new default_config) store entry_a store-IsGood refl
