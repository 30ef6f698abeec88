-- ===== src/Disagreement/Monitor.antt =====
-- The monitor's window, its status and its signals: `OutcomeDisagreementMonitor` of
-- apps/backend/src/services/outcome-disagreement-monitor.ts.
use smile4money.Common.{
  ℕ, ◌+◌, ◌*◌, Bool, true, false, ◌&&◌, not, ◌==◌, Option, List, [], ◌∷◌, ◌++◌, ltb, leb, length,
  keep, take_last, if◌then◌else◌, or_else,
}
use smile4money.Common.OrderedMap.{OrderedMap, get, set}
use smile4money.Common.Text.{Text, text_eq}
use smile4money.Match.{MatchResult, GameResult}
use smile4money.Disagreement.{
  Observation, ObservationKind, agree, disagree, unverifiable, DisagreementMonitorConfig,
  MatchEvidenceInput, Evidence, observe,
}

pub record PlatformCounts : Type 0 where
  pub agree_count : ℕ
  pub disagree_count : ℕ
  pub unverifiable_count : ℕ

pub record MonitorStatus : Type 0 where
  pub review_required : Bool
  pub evidence_degraded : Bool
  pub window_observations : ℕ
  pub decided : ℕ
  pub agreements : ℕ
  pub disagreements : ℕ
  pub unverifiable_ : ℕ
  pub by_platform : OrderedMap Text PlatformCounts
  pub disagreeing_match_ids : List ℕ

pub record DisagreementMonitor : Type 0 where
  pub config : DisagreementMonitorConfig
  pub observations : List Observation
  pub review_active : Bool
  pub degraded_active : Bool

unfoldable pub new_monitor : DisagreementMonitorConfig → DisagreementMonitor
new_monitor c = record {
  config = c;
  observations = [];
  review_active = false;
  degraded_active = false;
}

unfoldable pub prune : ℕ → DisagreementMonitor → DisagreementMonitor
prune now m =
    let fresh = keep (λ o. ltb now (o.observed_at + m.config.max_age_ms)) m.observations in
    record m {
      observations =
          if ltb m.config.window_size (length fresh)
          then take_last m.config.window_size fresh
          else fresh;
    }

abbrev pub is_kind : ObservationKind → Observation → Bool
is_kind agree o = elim o.kind [ agree ↦ true | disagree ↦ false | unverifiable ↦ false ]
is_kind disagree o = elim o.kind [ agree ↦ false | disagree ↦ true | unverifiable ↦ false ]
is_kind unverifiable o = elim o.kind [ agree ↦ false | disagree ↦ false | unverifiable ↦ true ]

-- How many observations of a kind the loop of `computeStatus` counts.
unfoldable pub count_kind : ObservationKind → List Observation → ℕ
count_kind k [] = 0
count_kind k (o ∷ os) = if is_kind k o then count_kind k os + 1 else count_kind k os

unfoldable pub disagreeing : List Observation → List ℕ
disagreeing [] = []
disagreeing (o ∷ os) = if is_kind disagree o then o.match_id ∷ disagreeing os else disagreeing os

abbrev pub no_counts : PlatformCounts
no_counts = record { agree_count = 0; disagree_count = 0; unverifiable_count = 0 }

abbrev pub counted : ObservationKind → PlatformCounts → PlatformCounts
counted agree n = record n { agree_count = n.agree_count + 1 }
counted disagree n = record n { disagree_count = n.disagree_count + 1 }
counted unverifiable n = record n { unverifiable_count = n.unverifiable_count + 1 }

unfoldable pub count_platforms :
    List Observation → OrderedMap Text PlatformCounts → OrderedMap Text PlatformCounts
count_platforms [] counts = counts
count_platforms (o ∷ os) counts =
    count_platforms os
      (set o.platform (counted o.kind (or_else (get o.platform counts) no_counts)) counts)

abbrev pub max_reported_match_ids : ℕ
max_reported_match_ids = 20

-- A rate of at least one half is `total ≤ 2 * unverifiable`.
unfoldable pub compute_status : DisagreementMonitor → MonitorStatus
unfolding count_kind
compute_status m =
    let agreements = count_kind agree m.observations in
    let disagreements = count_kind disagree m.observations in
    let unverifiable = count_kind unverifiable m.observations in
    let decided = agreements + disagreements in
    let total = length m.observations in
    let rate = m.config.min_disagreement_rate in
    record {
      review_required =
          leb m.config.min_decided decided
          && leb m.config.min_disagreements disagreements
          && (if decided == 0
              then rate.0 == 0
              else leb (rate.0 * decided) (disagreements * rate.1));
      evidence_degraded = leb m.config.min_decided total && leb total (2 * unverifiable);
      window_observations = total;
      decided = decided;
      agreements = agreements;
      disagreements = disagreements;
      unverifiable_ = unverifiable;
      by_platform = count_platforms m.observations [];
      disagreeing_match_ids = take_last max_reported_match_ids (disagreeing m.observations);
    }

-- What the transitions log; the first is also given to the notifier.
pub data Signal : Type 0 where
  review_raised review_recovered degraded_raised degraded_recovered : Signal

unfoldable pub review_transition : Bool → DisagreementMonitor → DisagreementMonitor × List Signal
review_transition required m =
    if required && not m.review_active
    then (record m { review_active = true }, review_raised ∷ [])
    else if not required && m.review_active
    then (record m { review_active = false }, review_recovered ∷ [])
    else (m, [])

unfoldable pub degraded_transition : Bool → DisagreementMonitor → DisagreementMonitor × List Signal
degraded_transition degraded m =
    if degraded && not m.degraded_active
    then (record m { degraded_active = true }, degraded_raised ∷ [])
    else if not degraded && m.degraded_active
    then (record m { degraded_active = false }, degraded_recovered ∷ [])
    else (m, [])

unfoldable pub handle_transitions :
    MonitorStatus → DisagreementMonitor → DisagreementMonitor × List Signal
unfolding review_transition degraded_transition
handle_transitions s m =
    let reviewed = review_transition s.review_required m in
    let graded = degraded_transition s.evidence_degraded reviewed.0 in
    (graded.0, reviewed.1 ++ graded.1)

-- The monitor after an observation, with the signals of its transitions.
unfoldable pub record_observation :
    ℕ → Observation → DisagreementMonitor → DisagreementMonitor × List Signal
unfolding prune compute_status handle_transitions
record_observation now o m =
    let pruned = prune now m in
    let others = keep (λ p. not (p.match_id == o.match_id)) pruned.observations in
    let after = prune now (record pruned { observations = others ++ (o ∷ []) }) in
    handle_transitions (compute_status after) after

unfoldable pub get_status : ℕ → DisagreementMonitor → DisagreementMonitor × MonitorStatus
unfolding prune compute_status
get_status now m = (prune now m, compute_status (prune now m))

-- A match is observed, and the observation is recorded at a later time.
unfoldable pub check_match :
    MatchEvidenceInput
    → Evidence MatchResult
    → Option GameResult
    → ℕ
    → ℕ
    → DisagreementMonitor
    → DisagreementMonitor × Observation
unfolding observe record_observation
check_match i chain game now later m =
    let o = observe i chain game now in ((record_observation later o m).0, o)
