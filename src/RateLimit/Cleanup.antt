-- ===== src/RateLimit/Cleanup.antt =====
-- What the removal of stale buckets leaves (`cleanup` of
-- apps/backend/src/middleware/rate-limit.ts).
use smile4money.Common.{
  ℕ, ◌-◌, ◌*◌, ◌≡◌, refl, Bool, false, Option, none, some, [], ◌∷◌, String, ltb, if◌then◌else◌,
  arith, Bool-cases, inl, inr,
}
use smile4money.Common.Keys.{string_eq}
use smile4money.Common.OrderedMap.{OrderedMap, get, has, Distinct, has-none}
use smile4money.RateLimit.{ClientBucket, without_stale}

-- No refill in the last 30 minutes.
abbrev pub is_stale : ℕ → ClientBucket → Bool
is_stale now b = ltb (30 * 60 * 1000) (now - b.last_refill)

abbrev pub if_fresh : ℕ → Option ClientBucket → Option ClientBucket
if_fresh now none = none
if_fresh now (some b) = if is_stale now b then none else some b

module _ (now : ℕ) where
  has-without_stale :
      (client : String) (m : OrderedMap String ClientBucket)
      → has client m ≡ false
      → has client (without_stale now m) ≡ false
  unfolding without_stale has
  has-without_stale client [] h = refl
  has-without_stale client ((c, b) ∷ m) h = ground (arith, has-without_stale client m)

  pub without_stale-Distinct :
      (m : OrderedMap String ClientBucket) → Distinct m → Distinct (without_stale now m)
  unfolding without_stale
  without_stale-Distinct [] d = tt
  without_stale-Distinct ((c, b) ∷ m) d = elim (Bool-cases (is_stale now b)) [
    | inl e ↦ rw e (without_stale-Distinct m d.1)
    | inr e ↦ rw e (has-without_stale c m d.0, without_stale-Distinct m d.1)
  ]

  pub get-without_stale :
      (client : String) (m : OrderedMap String ClientBucket)
      → Distinct m
      → get client (without_stale now m) ≡ if_fresh now (get client m)
  unfolding without_stale get
  get-without_stale client [] d = refl
  get-without_stale client ((c, b) ∷ m) d = ground (
    arith,
    get-without_stale client m d.1,
    has-without_stale c m d.0,
    has-none c c (without_stale now m) (has-without_stale c m d.0),
    string_eq.beq_iff c client,
  )
