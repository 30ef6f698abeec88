-- ===== src/SettlementAge/Examples.antt =====
-- A monitor that may track two matches and keeps two durations per segment.
use smile4money.Common.{refl, none, some, List, [], ◌∷◌, arith}
use smile4money.Common.Keys.{nat_eq}
use smile4money.SettlementAge.{
  activated, provider_result, submission_started, chain_confirmed, SettlementAgeConfig,
  SettlementAgeMonitor, Timeline, default_settlement_age_config, validate_config, new_monitor,
}
use smile4money.SettlementAge.Snapshot.{summarize}
use smile4money.SettlementAge.Evaluation.{alert_eq}
use smile4money.SettlementAge.Percentiles.{Ordered, summarize-Ordered}
use smile4money.SettlementAge.History.{
  Call, recorded, synced, abandoned, evaluated, calls, monitor-IsBounded,
}
use smile4money.SettlementAge.Bounds.{IsBounded}

abbrev config : SettlementAgeConfig
config = record default_settlement_age_config {
  completed_window = 2;
  min_samples = 2;
  max_tracked = 2;
  provider_wait_ms = 100;
}

-- Three matches are activated, one of them is evicted, one is settled and one abandoned.
abbrev history : List Call
history =
    synced ((1, 10) ∷ (2, 20) ∷ (3, 30) ∷ []) 40
    ∷ evaluated 400
    ∷ recorded 2 provider_result none 50
    ∷ recorded 2 submission_started (some 60) 70
    ∷ recorded 2 chain_confirmed none 80
    ∷ abandoned 3
    ∷ recorded 2 activated none 90
    ∷ []

monitor-IsBounded_example : IsBounded (calls history (new_monitor config))
monitor-IsBounded_example = monitor-IsBounded config history (unfold validate_config in refl)

abbrev reached : Timeline
reached = record {
  match_id = 1;
  activated_at = some 10;
  provider_result_at = some 15;
  submission_started_at = some 25;
  chain_confirmed_at = none;
}

summarize-Ordered_example : Ordered (summarize (30 ∷ 10 ∷ 20 ∷ []))
summarize-Ordered_example = summarize-Ordered (30 ∷ 10 ∷ 20 ∷ []) (omega arith)

abbrev waiting : SettlementAgeMonitor
unfolding new_monitor
waiting = record (new_monitor config) {
  open_ = (1, record reached { provider_result_at = none; submission_started_at = none }) ∷ [];
}
