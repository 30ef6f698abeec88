-- ===== src/SettlementAge/Snapshot.antt =====
-- The metrics and alerts of the settlement age monitor: `percentile`, `summarize`,
-- `summarizeOpen`, `getSnapshot` and `evaluate` of
-- apps/backend/src/services/settlement-age-monitor.ts. The products of the percentile's rank are
-- exact here.
use smile4money.Common.{
  ℕ, zero, suc, ◌+◌, ◌-◌, ◌*◌, ◌/◌, min, Bool, true, false, ◌&&◌, Option, none, some, List, [], ◌∷◌,
  ◌++◌, ltb, leb, length, if◌then◌else◌, take, keep, map, is_some, or_else,
}
use smile4money.Common.OrderedMap.{values}
use smile4money.SettlementAge.{
  Segment, provider_wait, submission_lag, chain_delay, total, SettlementAgeConfig, Timeline,
  PerSegment, AlertKind, stuck, slow_p95, SettlementAgeMonitor, start_of,
}

pub record SegmentStats : Type 0 where
  pub count : ℕ
  pub p50 : Option ℕ
  pub p90 : Option ℕ
  pub p95 : Option ℕ
  pub p99 : Option ℕ
  pub max_ : Option ℕ

pub record AgeEntry : Type 0 where
  pub match_id : ℕ
  pub age_ms : ℕ

pub record OpenSegmentStats : Type 0 where
  pub stats : SegmentStats
  pub over_threshold : ℕ
  pub stuck_match_ids : List ℕ

pub record SettlementAlert : Type 0 where
  pub kind : AlertKind
  pub segment : Segment
  pub threshold_ms : ℕ
  pub observed_ms : ℕ
  pub count : ℕ
  pub match_ids : List ℕ

abbrev pub alert_id : SettlementAlert → AlertKind × Segment
alert_id a = (a.kind, a.segment)

-- The entry at an index.
abbrev pub entry : ℕ → List ℕ → Option ℕ
entry i [] = none
entry zero (x ∷ xs) = some x
entry (suc i) (x ∷ xs) = entry i xs

-- The least index, at or above `0` and below the length, of the nearest rank.
abbrev pub percentile_index : ℕ → ℕ → ℕ
percentile_index n p = min (n - 1) ((p * n + 99) / 100 - 1)

unfoldable pub percentile : List ℕ → ℕ → Option ℕ
percentile sorted p = entry (percentile_index (length sorted) p) sorted

-- Sorting with a stable insertion: `sort` with `a - b`.
unfoldable pub insert_ascending : ℕ → List ℕ → List ℕ
insert_ascending x [] = x ∷ []
insert_ascending x (y ∷ ys) = if leb x y then x ∷ y ∷ ys else y ∷ insert_ascending x ys

unfoldable pub sort_ascending : List ℕ → List ℕ
sort_ascending [] = []
sort_ascending (x ∷ xs) = insert_ascending x (sort_ascending xs)

-- The same for `b.ageMs - a.ageMs`.
unfoldable pub insert_oldest : AgeEntry → List AgeEntry → List AgeEntry
insert_oldest e [] = e ∷ []
insert_oldest e (f ∷ es) = if leb f.age_ms e.age_ms then e ∷ f ∷ es else f ∷ insert_oldest e es

unfoldable pub sort_oldest : List AgeEntry → List AgeEntry
sort_oldest [] = []
sort_oldest (e ∷ es) = insert_oldest e (sort_oldest es)

unfoldable pub summarize : List ℕ → SegmentStats
summarize ages =
    let sorted = sort_ascending ages in
    record {
      count = length sorted;
      p50 = percentile sorted 50;
      p90 = percentile sorted 90;
      p95 = percentile sorted 95;
      p99 = percentile sorted 99;
      max_ = entry (length sorted - 1) sorted;
    }

abbrev pub is_over : ℕ → AgeEntry → Bool
is_over threshold e = ltb threshold e.age_ms

abbrev pub max_reported_match_ids : ℕ
max_reported_match_ids = 5

unfoldable pub summarize_open : List AgeEntry → ℕ → OpenSegmentStats
summarize_open entries threshold =
    let over = sort_oldest (keep (is_over threshold) entries) in
    record {
      stats = summarize (map (λ e. e.age_ms) entries);
      over_threshold = length over;
      stuck_match_ids = map (λ e. e.match_id) (take max_reported_match_ids over);
    }

-- The segment in which a match waits, and since when.
unfoldable pub current_segment : Timeline → Segment × Option ℕ
current_segment l = elim l.submission_started_at [
  | some t ↦ (chain_delay, some t)
  | none ↦ elim l.provider_result_at [
    | some t ↦ (submission_lag, some t)
    | none ↦ (provider_wait, l.activated_at)
  ]
]

abbrev pub age_entry : ℕ → ℕ → Option ℕ → List AgeEntry
age_entry id now none = []
age_entry id now (some since) = record { match_id = id; age_ms = now - since } ∷ []

abbrev pub is_segment : Segment → Segment → Bool
is_segment provider_wait provider_wait = true
is_segment submission_lag submission_lag = true
is_segment chain_delay chain_delay = true
is_segment total total = true
is_segment _ _ = false

-- The ages that a match adds to a segment's list.
unfoldable pub ages_of : ℕ → Segment → Timeline → List AgeEntry
ages_of now total l = age_entry l.match_id now (start_of l)
ages_of now segment l =
    let current = current_segment l in
    if is_segment segment current.0 then age_entry l.match_id now current.1 else []

unfoldable pub ages : ℕ → Segment → List Timeline → List AgeEntry
ages now segment [] = []
ages now segment (l ∷ ls) = ages_of now segment l ++ ages now segment ls

abbrev pub of_segment : {A : Type 0} → PerSegment A → Segment → A
of_segment r provider_wait = r.provider_wait
of_segment r submission_lag = r.submission_lag
of_segment r chain_delay = r.chain_delay
of_segment r total = r.total

unfoldable pub threshold_for : SettlementAgeConfig → Segment → ℕ
threshold_for c provider_wait = c.provider_wait_ms
threshold_for c submission_lag = c.submission_lag_ms
threshold_for c chain_delay = c.chain_delay_ms
threshold_for c total = c.total_ms

unfoldable pub stuck_alerts : Segment → ℕ → OpenSegmentStats → List SettlementAlert
stuck_alerts segment threshold o =
    if ltb 0 o.over_threshold && is_some o.stats.max_
    then record {
      kind = stuck;
      segment = segment;
      threshold_ms = threshold;
      observed_ms = or_else o.stats.max_ 0;
      count = o.over_threshold;
      match_ids = o.stuck_match_ids;
    }
      ∷ []
    else []

unfoldable pub slow_alerts : Segment → ℕ → ℕ → SegmentStats → List SettlementAlert
slow_alerts segment threshold min_samples d =
    if leb min_samples d.count && is_some d.p95 && ltb threshold (or_else d.p95 0)
    then record {
      kind = slow_p95;
      segment = segment;
      threshold_ms = threshold;
      observed_ms = or_else d.p95 0;
      count = d.count;
      match_ids = [];
    }
      ∷ []
    else []

pub record SettlementSnapshot : Type 0 where
  pub generated_at : ℕ
  pub open_matches : ℕ
  pub completed_in_window : ℕ
  pub abandoned : ℕ
  pub evicted : ℕ
  pub completed : PerSegment SegmentStats
  pub open_ : PerSegment OpenSegmentStats
  pub alerts : List SettlementAlert
  pub thresholds : SettlementAgeConfig

abbrev pub each_segment : {A : Type 0} → (Segment → A) → PerSegment A
each_segment f = record {
  provider_wait = f provider_wait;
  submission_lag = f submission_lag;
  chain_delay = f chain_delay;
  total = f total;
}

unfoldable pub open_stats : ℕ → SettlementAgeMonitor → Segment → OpenSegmentStats
open_stats now m segment =
    summarize_open (ages now segment (values m.open_)) (threshold_for m.config segment)

unfoldable pub completed_stats : SettlementAgeMonitor → Segment → SegmentStats
completed_stats m segment = summarize (of_segment m.completed segment)

unfoldable pub alerts_of : ℕ → SettlementAgeMonitor → Segment → List SettlementAlert
alerts_of now m segment =
    let threshold = threshold_for m.config segment in
    stuck_alerts segment threshold (open_stats now m segment)
    ++ slow_alerts segment threshold m.config.min_samples (completed_stats m segment)

unfoldable pub get_snapshot : ℕ → SettlementAgeMonitor → SettlementSnapshot
get_snapshot now m = record {
  generated_at = now;
  open_matches = length m.open_;
  completed_in_window = length m.completed.total;
  abandoned = m.abandoned;
  evicted = m.evicted;
  completed = each_segment (completed_stats m);
  open_ = each_segment (open_stats now m);
  alerts =
      alerts_of now m provider_wait
      ++ (alerts_of now m submission_lag ++ (alerts_of now m chain_delay ++ alerts_of now m total));
  thresholds = m.config;
}
