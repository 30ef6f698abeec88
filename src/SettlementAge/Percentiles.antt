-- ===== src/SettlementAge/Percentiles.antt =====
-- The percentiles of apps/backend/src/services/settlement-age-monitor.ts.
use smile4money.Common.{
  ℕ, zero, suc, ◌-◌, ◌≤◌, ◌<◌, ◌≡◌, refl, some, List, [], ◌∷◌, length, arith, All, leb, Bool-cases,
  inl, inr,
}
use smile4money.SettlementAge.Snapshot.{
  SegmentStats, entry, percentile, percentile_index, insert_ascending, sort_ascending, summarize,
}
use smile4money.SettlementAge.Alerts.{length-sort_ascending}

-- Each entry is at most the next.
abbrev pub IsAscending : List ℕ → Type 0
IsAscending [] = Unit
IsAscending (x ∷ xs) = All (λ y. x ≤ y) xs × IsAscending xs

All-insert :
    (b x : ℕ) (xs : List ℕ) → b ≤ x → All (λ y. b ≤ y) xs → All (λ y. b ≤ y) (insert_ascending x xs)
unfolding insert_ascending
All-insert b x [] h a = (h, tt)
All-insert b x (y ∷ xs) h a = ground (arith, All-insert b x xs h a.1)

All-below : (b c : ℕ) (xs : List ℕ) → b ≤ c → All (λ y. c ≤ y) xs → All (λ y. b ≤ y) xs
All-below b c [] h a = tt
All-below b c (x ∷ xs) h a = (omega (arith, a.0), All-below b c xs h a.1)

insert_ascending-IsAscending :
    (x : ℕ) (xs : List ℕ) → IsAscending xs → IsAscending (insert_ascending x xs)
unfolding insert_ascending
insert_ascending-IsAscending x [] h = (tt, tt)
insert_ascending-IsAscending x (y ∷ xs) h = elim (Bool-cases (leb x y)) [
  | inl le ↦ ground (arith, All-below x y xs (ground arith) h.0)
  | inr gt ↦
      ground (arith, All-insert y x xs (ground arith) h.0, insert_ascending-IsAscending x xs h.1)
]

sort_ascending-IsAscending : (xs : List ℕ) → IsAscending (sort_ascending xs)
unfolding sort_ascending
sort_ascending-IsAscending [] = tt
sort_ascending-IsAscending (x ∷ xs) =
    insert_ascending-IsAscending x (sort_ascending xs) (sort_ascending-IsAscending xs)

entry-All : (b i v : ℕ) (xs : List ℕ) → All (λ y. b ≤ y) xs → entry i xs ≡ some v → b ≤ v
entry-All b i v [] a h = absurd (ground arith)
entry-All b zero v (x ∷ xs) a h = ground (arith, a.0)
entry-All b (suc i) v (x ∷ xs) a h = entry-All b i v xs a.1 h

-- A later entry of an ascending list is at least as great.
entry_monotone :
    (i j v w : ℕ) (xs : List ℕ)
    → IsAscending xs
    → i ≤ j
    → entry i xs ≡ some v
    → entry j xs ≡ some w
    → v ≤ w
entry_monotone i j v w [] a h e f = absurd (ground arith)
entry_monotone zero zero v w (x ∷ xs) a h e f = ground arith
entry_monotone zero (suc j) v w (x ∷ xs) a h e f = entry-All v j w xs (ground arith) f
entry_monotone (suc i) zero v w (x ∷ xs) a h e f = absurd (omega arith)
entry_monotone (suc i) (suc j) v w (x ∷ xs) a h e f =
    entry_monotone i j v w xs a.1 (omega arith) e f

entry_exists : (i : ℕ) (xs : List ℕ) → i < length xs → (v : ℕ) × (entry i xs ≡ some v)
entry_exists i [] h = absurd (omega arith)
entry_exists zero (x ∷ xs) h = (x, refl)
entry_exists (suc i) (x ∷ xs) h = entry_exists i xs (omega arith)

-- The metrics of one segment, in order.
pub record Ordered (s : SegmentStats) : Type 0 where
  pub v50 : ℕ
  pub v90 : ℕ
  pub v95 : ℕ
  pub v99 : ℕ
  pub greatest : ℕ
  pub is_p50 : s.p50 ≡ some v50
  pub is_p90 : s.p90 ≡ some v90
  pub is_p95 : s.p95 ≡ some v95
  pub is_p99 : s.p99 ≡ some v99
  pub is_max : s.max_ ≡ some greatest
  pub in_order : (v50 ≤ v90) × (v90 ≤ v95) × (v95 ≤ v99) × (v99 ≤ greatest)

-- For any values, at least one, the published percentiles exist and rise from the median to the
-- maximum.
pub summarize-Ordered : (values : List ℕ) → 0 < length values → Ordered (summarize values)
unfolding summarize percentile
summarize-Ordered values h =
    let sorted = sort_ascending values in
    let n = length sorted in
    let a = sort_ascending-IsAscending values in
    let pos : 0 < n = omega (arith, length-sort_ascending values) in
    let (v50, e50) = entry_exists (percentile_index n 50) sorted (omega arith) in
    let (v90, e90) = entry_exists (percentile_index n 90) sorted (omega arith) in
    let (v95, e95) = entry_exists (percentile_index n 95) sorted (omega arith) in
    let (v99, e99) = entry_exists (percentile_index n 99) sorted (omega arith) in
    let (greatest, e) = entry_exists (n - 1) sorted (omega arith) in
    record {
      v50 = v50;
      v90 = v90;
      v95 = v95;
      v99 = v99;
      greatest = greatest;
      is_p50 = e50;
      is_p90 = e90;
      is_p95 = e95;
      is_p99 = e99;
      is_max = e;
      in_order = (
        entry_monotone (percentile_index n 50) (percentile_index n 90) v50 v90 sorted a
            (omega arith) e50 e90,
        entry_monotone (percentile_index n 90) (percentile_index n 95) v90 v95 sorted a
            (omega arith) e90 e95,
        entry_monotone (percentile_index n 95) (percentile_index n 99) v95 v99 sorted a
            (omega arith) e95 e99,
        entry_monotone (percentile_index n 99) (n - 1) v99 greatest sorted a (omega arith) e99 e,
      );
    }
