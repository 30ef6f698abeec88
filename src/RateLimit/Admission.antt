-- ===== src/RateLimit/Admission.antt =====
-- How many requests the token bucket admits (`isAllowed` of
-- apps/backend/src/middleware/rate-limit.ts).
use smile4money.Common.{
  if◌then◌else◌, Option, ℕ, ◌+◌, ◌-◌, ◌*◌, ◌/◌, ◌≤◌, ◌<◌, ◌≡◌, refl, sym, ap, suc, subst, ◌∙◌,
  ltb→lt, true, none, some, List, [], ◌∷◌, String, ltb, arith, Bool-cases, inl, inr,
}
use smile4money.Common.Keys.{string_eq, ◌===◌}
use smile4money.Common.OrderedMap.{get, get-set, Distinct}
use native.Mathlib.Nat.{mul-le-mul_left, le-div_iff_mul-le, div-mul-le_self}
use smile4money.RateLimit.{ClientBucket, RateLimitStore, refilled, is_allowed, cleanup}
use smile4money.RateLimit.Cleanup.{is_stale, if_fresh, get-without_stale, without_stale-Distinct}
use smile4money.RateLimit.Budget.{
  Event, requests, cleans_up, is_allowed-Distinct, IsOrdered, admitted, ordered_le, keeps_settings,
  other_client, spread, budget, budget-refilled, serve_known, admitted-own, admitted-other,
}

serve_new :
    (client : String) (now : ℕ) (s : RateLimitStore)
    → get client s.buckets ≡ none
    → let r = is_allowed client now s in
      (r.1.allowed ≡ true)
      × (get client r.0.buckets ≡ some (record { tokens = s.capacity - 1; last_refill = now }))
unfolding is_allowed
serve_new client now s h = ground (
  arith,
  get-set client client (record { tokens = s.capacity - 1; last_refill = now }) s.buckets,
  string_eq.beq_iff client client,
)

-- What a client can still be given until a time: `capacity` with a new bucket, or what is left in its
-- own; and what the clock adds.
abbrev allowance : ℕ → ℕ → ℕ → ℕ → ℕ → Option ClientBucket → ℕ
allowance capacity amount i from until none = capacity + amount * ((until - from) / i)
allowance capacity amount i from until (some b) = budget amount i b until

abbrev Precedes : ℕ → Option ClientBucket → Type 0
Precedes from none = Unit
Precedes from (some b) = b.last_refill ≤ from

module _ (capacity amount i until : ℕ) (pos : 0 < i) (room : 0 < capacity)
    (full : capacity ≤ amount * ((30 * 60 * 1000) / i)) (client : String) where
  abbrev HasSettings : RateLimitStore → Type 0
  HasSettings s = (s.capacity ≡ capacity) × (s.refill_interval_ms ≡ i) × (s.refill_amount ≡ amount)

  kept_settings :
      (c : String) (t : ℕ) (s : RateLimitStore) → HasSettings s → HasSettings (is_allowed c t s).0
  kept_settings c t s h = let k = keeps_settings c t s in (k.0 ∙ h.0, k.1 ∙ h.1, k.2 ∙ h.2)

  -- A bucket that is removed would be full by now.
  removed :
      (t : ℕ) (b : ClientBucket)
      → is_stale t b ≡ true
      → t ≤ until
      → allowance capacity amount i t until none ≤ budget amount i b until
  removed t b e le =
      let idle : 30 * 60 * 1000 ≤ t - b.last_refill = omega (arith, ltb→lt _ _ e) in
      let whole : (30 * 60 * 1000) / i ≤ (t - b.last_refill) / i =
        (le-div_iff_mul-le pos).1 (omega (arith, div-mul-le_self (30 * 60 * 1000) i, idle)) in
      omega (
        arith,
        full,
        mul-le-mul_left amount whole,
        spread amount i b.last_refill t until pos (omega (arith, idle)) le,
      )

  abbrev IsBounded : List (Event × ℕ) → ℕ → RateLimitStore → Option ClientBucket → Type 0
  IsBounded es from s o = admitted client es s ≤ allowance capacity amount i from until o

  cleaned :
      (t from : ℕ) (es : List (Event × ℕ)) (s : RateLimitStore) (o : Option ClientBucket)
      → from ≤ t
      → t ≤ until
      → Precedes from o
      → IsBounded es t (cleanup t s) (if_fresh t o)
      → IsBounded ((cleans_up, t) ∷ es) from s o
  unfolding admitted
  cleaned t from es s none h k p rest = omega (arith, rest, spread amount i from t until pos h k)
  cleaned t from es s (some b) h k p rest = elim (Bool-cases (is_stale t b)) [
    | inl e ↦
        let rest' : IsBounded es t (cleanup t s) none = ground (arith, rest, e) in
        omega (arith, rest', removed t b e k)
    | inr e ↦
        let rest' : IsBounded es t (cleanup t s) (some b) = ground (arith, rest, e) in
        omega (arith, rest')
  ]

  -- The settings and the clock of a refill, as the parameters name them.
  refill_bound :
      (t : ℕ) (s : RateLimitStore) (b : ClientBucket)
      → HasSettings s
      → b.last_refill ≤ t
      → t ≤ until
      → (budget amount i (refilled s t b) until ≤ budget amount i b until)
        × ((refilled s t b).last_refill ≤ t)
  refill_bound t s b h p k =
      let refill = budget-refilled s b t until (subst (λ j. 0 < j) (sym h.1) pos) p k in
      let d = refilled s t b in
      (
        subst (λ j. budget amount j d until ≤ budget amount j b until) h.1
            (subst
              (λ a. budget a s.refill_interval_ms d until ≤ budget a s.refill_interval_ms b until)
              h.2 refill.0),
        refill.1,
      )

  -- The client's own request, with what is admitted of the rest.
  served :
      (t from : ℕ) (es : List (Event × ℕ)) (s : RateLimitStore) (o : Option ClientBucket)
      → get client s.buckets ≡ o
      → HasSettings s
      → Precedes from o
      → from ≤ t
      → t ≤ until
      → ((c : ClientBucket)
          → get client (is_allowed client t s).0.buckets ≡ some c
          → c.last_refill ≤ t
          → IsBounded es t (is_allowed client t s).0 (some c))
      → (if (is_allowed client t s).1.allowed
          then suc (admitted client es (is_allowed client t s).0)
          else admitted client es (is_allowed client t s).0)
        ≤ allowance capacity amount i from until o
  served t from es s none known h p le k rest =
      let (answer, stored) = serve_new client t s known in
      let more = rest (record { tokens = s.capacity - 1; last_refill = t }) stored (omega arith) in
      rw answer (omega (arith, more, h.0, room, spread amount i from t until pos le k))
  served t from es s (some b) known h p le k rest =
      let d = refilled s t b in
      let (answer, stored) = serve_known client t s b known in
      let (bound, past) = refill_bound t s b h (omega (arith, p, le)) k in
      elim (Bool-cases (ltb 0 d.tokens)) [
        | inl left ↦
            let more = rest (record d { tokens = d.tokens - 1 }) (stored ∙ ground arith) past in
            rw (answer ∙ left) (omega (arith, more, bound, ltb→lt 0 d.tokens left))
        | inr empty ↦
            let more = rest d (stored ∙ ground arith) past in
            rw (answer ∙ empty) (omega (arith, more, bound))
      ]

  cleanup-Distinct :
      (t : ℕ) (s : RateLimitStore) → Distinct s.buckets → Distinct (cleanup t s).buckets
  unfolding cleanup
  cleanup-Distinct t s d = without_stale-Distinct t s.buckets d

  get-cleanup :
      (t : ℕ) (s : RateLimitStore)
      → Distinct s.buckets
      → get client (cleanup t s).buckets ≡ if_fresh t (get client s.buckets)
  unfolding cleanup
  get-cleanup t s d = get-without_stale t client s.buckets d

  later_past : (t from : ℕ) (o : Option ClientBucket) → from ≤ t → Precedes from o → Precedes t o
  later_past t from none le p = tt
  later_past t from (some b) le p = omega (arith, le, p)

  still_past :
      (t from : ℕ) (o : Option ClientBucket)
      → from ≤ t
      → Precedes from o
      → Precedes t (if_fresh t o)
  still_past t from none le p = tt
  still_past t from (some b) le p = elim (Bool-cases (is_stale t b)) [
    | inl e ↦ rw e tt
    | inr e ↦ rw e (later_past t from (some b) le p)
  ]

  waited :
      (t from : ℕ) (o : Option ClientBucket) (n : ℕ)
      → from ≤ t
      → t ≤ until
      → n ≤ allowance capacity amount i t until o
      → n ≤ allowance capacity amount i from until o
  waited t from none n h k le = omega (arith, le, spread amount i from t until pos h k)
  waited t from (some b) n h k le = le

  bounded :
      (es : List (Event × ℕ)) (s : RateLimitStore) (o : Option ClientBucket) (from : ℕ)
      → HasSettings s
      → Distinct s.buckets
      → get client s.buckets ≡ o
      → Precedes from o
      → IsOrdered from es until
      → IsBounded es from s o
  unfolding admitted
  bounded [] s none from h d g p o = omega arith
  bounded [] s (some b) from h d g p o = omega arith
  bounded ((cleans_up, t) ∷ es) s b from h d g p o =
      cleaned t from es s b o.0 (ordered_le t es until o.1) p (
        bounded es (cleanup t s) (if_fresh t b) t (unfold cleanup in h) (cleanup-Distinct t s d)
          (get-cleanup t s d ∙ ap (if_fresh t) g) (still_past t from b o.0 p) o.1)
  bounded ((requests c, t) ∷ es) s b from h d g p o = elim (Bool-cases (c === client)) [
    | inr other ↦
        let rest =
          bounded es (is_allowed c t s).0 b t (kept_settings c t s h) (is_allowed-Distinct c t s d)
            (other_client client c t s other ∙ g) (later_past t from b o.0 p) o.1 in
        rw (admitted-other client c t es s other) (
          waited t from b (admitted client es (is_allowed c t s).0) o.0 (ordered_le t es until o.1)
            rest)
    | inl own ↦
        let rest =
          λ (k : ClientBucket) (e : get client (is_allowed client t s).0.buckets ≡ some k)
              (q : k.last_refill ≤ t).
            bounded es (is_allowed client t s).0 (some k) t (kept_settings client t s h)
              (is_allowed-Distinct client t s d) e q o.1 in
        rw (admitted-own client c t es s own)
          (served t from es s b g h p o.0 (ordered_le t es until o.1) rest)
  ]

-- Of the requests of all clients in some span of time, in order and with stale buckets removed in
-- between at any times, a client that is new gets at most `capacity` admitted, and `refill_amount` more
-- for every whole refill interval of the span, if 30 minutes refill an empty bucket. At its one use the
-- store has 100 tokens and adds 100 each minute.
pub admission_bound :
    (client : String) (es : List (Event × ℕ)) (s : RateLimitStore) (from until : ℕ)
    → 0 < s.refill_interval_ms
    → 0 < s.capacity
    → s.capacity ≤ s.refill_amount * ((30 * 60 * 1000) / s.refill_interval_ms)
    → Distinct s.buckets
    → get client s.buckets ≡ none
    → IsOrdered from es until
    → admitted client es s ≤ s.capacity + s.refill_amount * ((until - from) / s.refill_interval_ms)
admission_bound client es s from until pos room full d new o =
    bounded s.capacity s.refill_amount s.refill_interval_ms until pos room full client es s none
      from (refl, refl, refl) d new tt o
