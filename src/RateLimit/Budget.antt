-- ===== src/RateLimit/Budget.antt =====
-- What a token bucket may still admit, and the requests that are counted (`isAllowed` of
-- apps/backend/src/middleware/rate-limit.ts).
use native.Mathlib.Nat.{
  le-div_iff_mul-le, div-mul-le_self, add-mul, mul-add, mul-le-mul_left, mul_comm,
}
use smile4money.Common.{
  ℕ, ◌+◌, ◌-◌, ◌*◌, ◌/◌, ◌≤◌, ◌<◌, ◌≡◌, ap, suc, true, false, ◌&&◌, some, List, [], ◌∷◌, String,
  ltb, if◌then◌else◌, arith, Option-cases, Bool-cases, inl, inr,
}
use smile4money.Common.Keys.{string_eq, ◌===◌}
use smile4money.Common.OrderedMap.{get, get-set, Distinct, set-Distinct}
use smile4money.RateLimit.{ClientBucket, RateLimitStore, refills, refilled, is_allowed, cleanup}

-- Two spans contain no more whole intervals than the span they make up.
div-add-le : (i a b : ℕ) → 0 < i → a / i + b / i ≤ (a + b) / i
div-add-le i a b pos =
    (le-div_iff_mul-le pos).1
      (omega (arith, add-mul (a / i) (b / i) i, div-mul-le_self a i, div-mul-le_self b i))

-- A request of a client, or a run of the timer that removes stale buckets.
pub data Event : Type 0 where
  requests : String → Event
  cleans_up : Event

-- The times of the events, from one time to another, do not go back.
abbrev pub IsOrdered : ℕ → List (Event × ℕ) → ℕ → Type 0
IsOrdered from [] until = from ≤ until
IsOrdered from ((e, t) ∷ es) until = (from ≤ t) × IsOrdered t es until

-- How many requests of a client are admitted while those of all clients are served in turn and stale
-- buckets are removed in between.
unfoldable pub admitted : String → List (Event × ℕ) → RateLimitStore → ℕ
admitted client [] s = 0
admitted client ((cleans_up, t) ∷ es) s = admitted client es (cleanup t s)
admitted client ((requests c, t) ∷ es) s =
    let r = is_allowed c t s in
    let rest = admitted client es r.0 in if (c === client) && r.1.allowed then rest + 1 else rest

pub ordered_le :
    (from : ℕ) (es : List (Event × ℕ)) (until : ℕ) → IsOrdered from es until → from ≤ until
ordered_le from [] until h = h
ordered_le from ((e, t) ∷ es) until h = omega (arith, h.0, ordered_le t es until h.1)

pub keeps_settings :
    (client : String) (now : ℕ) (s : RateLimitStore)
    → let s' = (is_allowed client now s).0 in
      (s'.capacity ≡ s.capacity)
      × (s'.refill_interval_ms ≡ s.refill_interval_ms)
      × (s'.refill_amount ≡ s.refill_amount)
unfolding is_allowed
keeps_settings client now s = ground arith

pub other_client :
    (client other : String) (now : ℕ) (s : RateLimitStore)
    → (other === client) ≡ false
    → get client (is_allowed other now s).0.buckets ≡ get client s.buckets
unfolding is_allowed
other_client client other now s ne = elim (Option-cases (get other s.buckets)) [
  | inl e ↦ ground (
    arith,
    get-set other client (record { tokens = s.capacity - 1; last_refill = now }) s.buckets,
  )
  | inr (b, e) ↦
      let c = refilled s now b in
      ground (
        arith,
        get-set other client c s.buckets,
        get-set other client (record c { tokens = c.tokens - 1 }) s.buckets,
      )
]

-- What the clock promises over two spans, it promises over the span that they make up.
pub spread :
    (amount i from now until : ℕ)
    → 0 < i
    → from ≤ now
    → now ≤ until
    → amount * ((now - from) / i) + amount * ((until - now) / i) ≤ amount * ((until - from) / i)
spread amount i from now until pos h k =
    let sum : (now - from) + (until - now) ≡ until - from = omega arith in
    omega (
      arith,
      mul-add amount ((now - from) / i) ((until - now) / i),
      mul-le-mul_left amount (div-add-le i (now - from) (until - now) pos),
      ap (λ d. amount * (d / i)) sum,
    )

-- What is left in the bucket and what the clock can still add.
abbrev pub budget : ℕ → ℕ → ClientBucket → ℕ → ℕ
budget amount i b until = b.tokens + amount * ((until - b.last_refill) / i)

-- Refilling adds to the budget nothing that the clock had not promised.
pub budget-refilled :
    (s : RateLimitStore) (b : ClientBucket) (now until : ℕ)
    → 0 < s.refill_interval_ms
    → b.last_refill ≤ now
    → now ≤ until
    → (budget s.refill_amount s.refill_interval_ms (refilled s now b) until
        ≤ budget s.refill_amount s.refill_interval_ms b until)
      × ((refilled s now b).last_refill ≤ now)
unfolding refilled
budget-refilled s b now until pos h k = elim (Bool-cases (ltb 0 (refills s b now))) [
  | inl e ↦
      rw (e, refilled)
        (
          omega (
            arith,
            spread s.refill_amount s.refill_interval_ms b.last_refill now until pos h k,
            mul_comm (refills s b now) s.refill_amount,
          ),
          omega arith,
        )
  | inr e ↦ rw (e, refilled) (omega arith, h)
]

pub serve_known :
    (client : String) (now : ℕ) (s : RateLimitStore) (b : ClientBucket)
    → get client s.buckets ≡ some b
    → let c = refilled s now b in
      let r = is_allowed client now s in
      (r.1.allowed ≡ ltb 0 c.tokens)
      × (get client r.0.buckets
          ≡ some (if ltb 0 c.tokens then record c { tokens = c.tokens - 1 } else c))
unfolding is_allowed
serve_known client now s b h =
    let c = refilled s now b in
    ground (
      arith,
      get-set client client c s.buckets,
      get-set client client (record c { tokens = c.tokens - 1 }) s.buckets,
      string_eq.beq_iff client client,
    )

-- The next request of the list, as one of the client or not.
pub admitted-own :
    (client c : String) (t : ℕ) (es : List (Event × ℕ)) (s : RateLimitStore)
    → (c === client) ≡ true
    → admitted client ((requests c, t) ∷ es) s ≡ (
        if (is_allowed client t s).1.allowed
        then suc (admitted client es (is_allowed client t s).0)
        else admitted client es (is_allowed client t s).0)
unfolding admitted
admitted-own client c t es s own = ground (arith, string_eq.beq_iff c client)

pub admitted-other :
    (client c : String) (t : ℕ) (es : List (Event × ℕ)) (s : RateLimitStore)
    → (c === client) ≡ false
    → admitted client ((requests c, t) ∷ es) s ≡ admitted client es (is_allowed c t s).0
unfolding admitted
admitted-other client c t es s other = ground arith

pub is_allowed-Distinct :
    (client : String) (now : ℕ) (s : RateLimitStore)
    → Distinct s.buckets
    → Distinct (is_allowed client now s).0.buckets
unfolding is_allowed
is_allowed-Distinct client now s d = elim (Option-cases (get client s.buckets)) [
  | inl e ↦ ground (
    arith,
    e,
    set-Distinct client (record { tokens = s.capacity - 1; last_refill = now }) s.buckets d,
  )
  | inr (b, e) ↦
      let c = refilled s now b in
      ground (
        arith,
        e,
        set-Distinct client c s.buckets d,
        set-Distinct client (record c { tokens = c.tokens - 1 }) s.buckets d,
      )
]
