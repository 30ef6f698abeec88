-- ===== src/RateLimit/Examples.antt =====
-- Two clients and a bucket for two requests that gains one each minute.
use smile4money.Common.{ℕ, ◌+◌, ◌-◌, ◌*◌, ◌/◌, ◌≤◌, ◌≡◌, refl, List, [], ◌∷◌, arith}
use smile4money.Common.OrderedMap.{get, set}
use smile4money.RateLimit.{RateLimitStore, new_store, is_allowed, refilled, cleanup, without_stale}
use smile4money.RateLimit.Budget.{Event, requests, cleans_up, admitted}
use smile4money.RateLimit.Admission.{admission_bound}

abbrev events : List (Event × ℕ)
events =
    (requests "a", 1000)
    ∷ (requests "b", 1500)
    ∷ (requests "a", 2000)
    ∷ (requests "a", 3000)
    ∷ (requests "b", 61000)
    ∷ (cleans_up, 600000)
    ∷ (requests "a", 600000)
    ∷ (cleans_up, 2600000)
    ∷ (requests "a", 2600001)
    ∷ (requests "a", 2600002)
    ∷ []

abbrev store : RateLimitStore
unfolding new_store
store = new_store 2 60000 1

admission_bound_example : admitted "a" events store ≤ 2 + 1 * ((2600002 - 1000) / 60000)
unfolding store
admission_bound_example =
    admission_bound "a" events store 1000 2600002 (unfold store in omega arith)
      (unfold store in omega arith) (unfold store in omega arith) (unfold store in tt)
      (unfold get store in refl) (omega arith)

-- With a bucket that gains one each hour, the removal of a stale bucket gives a client a new one.
abbrev slow_store : RateLimitStore
unfolding new_store
slow_store = new_store 2 3600000 1

given_anew :
    admitted "a"
      ((requests "a", 0)
        ∷ (requests "a", 1)
        ∷ (cleans_up, 1800001)
        ∷ (requests "a", 1800002)
        ∷ (requests "a", 1800003)
        ∷ [])
      slow_store
    ≡ 4
unfolding admitted is_allowed refilled cleanup without_stale get set slow_store
given_anew = refl
