-- ===== src/RateLimit.antt =====
-- The token bucket that limits requests: apps/backend/src/middleware/rate-limit.ts. The refill
-- interval and the capacity are positive, as at all its uses.
pub mod Budget
pub mod Cleanup
pub mod Admission
mod Examples
use smile4money.Common.{
  ℕ, ◌+◌, ◌-◌, ◌*◌, ◌/◌, min, max, Bool, true, false, ◌&&◌, ◌||◌, Option, none, some, List, [], ◌∷◌,
  String, ltb, if◌then◌else◌, or_else, ◌==◌,
}
use smile4money.Common.Keys.{nat_eq, string_eq, ◌===◌}
use smile4money.Common.OrderedMap.{OrderedMap, get, set}
use smile4money.Common.Text.{Text, text, text_eq, to_lower_case, trim, is_truthy}

pub record ClientBucket : Type 0 where
  pub tokens : ℕ
  pub last_refill : ℕ

-- `retry_after_seconds` is there exactly when the request is refused.
pub record RateLimitResult : Type 0 where
  pub allowed : Bool
  pub retry_after_seconds : Option ℕ

pub record RateLimitStore : Type 0 where
  pub buckets : OrderedMap String ClientBucket
  pub capacity : ℕ
  pub refill_interval_ms : ℕ
  pub refill_amount : ℕ

unfoldable pub new_store : ℕ → ℕ → ℕ → RateLimitStore
new_store capacity interval amount = record {
  buckets = [];
  capacity = capacity;
  refill_interval_ms = interval;
  refill_amount = amount;
}

abbrev pub refills : RateLimitStore → ClientBucket → ℕ → ℕ
refills s b now = (now - b.last_refill) / s.refill_interval_ms

unfoldable pub refilled : RateLimitStore → ℕ → ClientBucket → ClientBucket
refilled s now b =
    if ltb 0 (refills s b now)
    then record {
      tokens = min s.capacity (b.tokens + refills s b now * s.refill_amount);
      last_refill = now;
    }
    else b

abbrev pub seconds_left : RateLimitStore → ℕ → ClientBucket → ℕ
seconds_left s now b = max 1 ((s.refill_interval_ms - (now - b.last_refill) + 999) / 1000)

abbrev pub put : String → ClientBucket → RateLimitStore → RateLimitStore
put client b s = record s { buckets = set client b s.buckets }

unfoldable pub is_allowed : String → ℕ → RateLimitStore → RateLimitStore × RateLimitResult
unfolding refilled
is_allowed client now s = elim (get client s.buckets) [
  | none ↦ (
    put client (record { tokens = s.capacity - 1; last_refill = now }) s,
    record { allowed = true; retry_after_seconds = none },
  )
  | some b ↦
      let c = refilled s now b in
      if ltb 0 c.tokens
      then (
        put client (record c { tokens = c.tokens - 1 }) s,
        record { allowed = true; retry_after_seconds = none },
      )
      else (
        put client c s,
        record { allowed = false; retry_after_seconds = some (seconds_left s now c) },
      )
]

unfoldable pub get_remaining_tokens : String → ℕ → RateLimitStore → ℕ
get_remaining_tokens client now s = elim (get client s.buckets) [
  | none ↦ s.capacity
  | some b ↦ min s.capacity (b.tokens + refills s b now * s.refill_amount)
]

unfoldable pub without_stale : ℕ → OrderedMap String ClientBucket → OrderedMap String ClientBucket
without_stale now [] = []
without_stale now ((client, b) ∷ m) =
    if ltb (30 * 60 * 1000) (now - b.last_refill)
    then without_stale now m
    else (client, b) ∷ without_stale now m

unfoldable pub cleanup : ℕ → RateLimitStore → RateLimitStore
cleanup now s = record s { buckets = without_stale now s.buckets }

pub data RateLimitStoreType : Type 0 where
  memory sqlite : RateLimitStoreType

unfoldable pub resolve_rate_limit_store_type : Option Text → RateLimitStoreType
resolve_rate_limit_store_type raw =
    let requested = to_lower_case (if is_truthy raw then or_else raw [] else text "memory") in
    if requested === text "sqlite" || requested === text "redis" then sqlite else memory

-- The part before the first comma.
abbrev pub first_part : Text → Text
first_part [] = []
first_part (c ∷ s) = if c == b',' then [] else c ∷ first_part s

abbrev pub includes : List Text → Text → Bool
includes [] t = false
includes (s ∷ ss) t = s === t || includes ss t

-- The address that a request is counted under: the peer's, and the header's value if there is one.
unfoldable pub get_client_ip : Option Text → Option Text → List Text → Text
get_client_ip remote forwarded trusted_proxies =
    let remote_address = if is_truthy remote then or_else remote [] else text "unknown" in
    if includes trusted_proxies remote_address && is_truthy forwarded
    then trim (first_part (or_else forwarded []))
    else remote_address
