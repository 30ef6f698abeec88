-- ===== src/SettlementAge/History.antt =====
-- Any history of the settlement age monitor, call by call
-- (apps/backend/src/services/settlement-age-monitor.ts).
use smile4money.Common.{ℕ, ◌<◌, ◌≡◌, refl, sym, subst, true, Option, List, [], ◌∷◌, arith}
use smile4money.Common.Keys.{nat_eq}
use smile4money.Common.OrderedMap.{has}
use smile4money.SettlementAge.{
  Stage, SettlementAgeConfig, SettlementAgeMonitor, new_monitor, record_stage, validate_config,
  sync_activations, abandon,
}
use smile4money.SettlementAge.Evaluation.{evaluate}
use smile4money.SettlementAge.Bounds.{
  IsBounded, abandon-IsBounded, record_stage-IsBounded, keeps_config, sync_activations-IsBounded,
}

pub data Call : Type 0 where
  recorded : ℕ → Stage → Option ℕ → ℕ → Call
  synced : List (ℕ × ℕ) → ℕ → Call
  abandoned : ℕ → Call
  evaluated : ℕ → Call

abbrev pub call : Call → SettlementAgeMonitor → SettlementAgeMonitor
call (recorded id stage at now) m = record_stage id stage at now m
call (synced jobs now) m = sync_activations jobs now m
call (abandoned id) m = abandon id m
call (evaluated now) m = (evaluate now m).0

abbrev pub calls : List Call → SettlementAgeMonitor → SettlementAgeMonitor
calls [] m = m
calls (c ∷ cs) m = calls cs (call c m)

call-IsBounded :
    (c : Call) (m : SettlementAgeMonitor)
    → 0 < m.config.max_tracked
    → IsBounded m
    → IsBounded (call c m) × ((call c m).config ≡ m.config)
call-IsBounded (recorded id stage at now) m pos b =
    (record_stage-IsBounded id stage at now m pos b, keeps_config id stage at now m)
call-IsBounded (synced jobs now) m pos b = sync_activations-IsBounded jobs now m pos b
call-IsBounded (abandoned id) m pos b = (abandon-IsBounded id m b, unfold abandon in ground arith)
call-IsBounded (evaluated now) m pos b = (
  unfold evaluate in
      record {
        open_distinct = b.open_distinct;
        open_bound = b.open_bound;
        closed_bound = b.closed_bound;
        disjoint = b.disjoint;
        provider_wait_bound = b.provider_wait_bound;
        submission_lag_bound = b.submission_lag_bound;
        chain_delay_bound = b.chain_delay_bound;
        total_bound = b.total_bound;
      },
  unfold evaluate in refl,
)

calls-IsBounded :
    (cs : List Call) (m : SettlementAgeMonitor)
    → 0 < m.config.max_tracked
    → IsBounded m
    → IsBounded (calls cs m)
calls-IsBounded [] m pos b = b
calls-IsBounded (c ∷ cs) m pos b =
    let (bounded, same) = call-IsBounded c m pos b in
    calls-IsBounded cs (call c m) (subst (λ d. 0 < d.max_tracked) (sym same) pos) bounded

-- After any history of a monitor with an accepted configuration, the open matches, the closed ids
-- and each buffer of durations are within their limits, and no closed match is open.
pub monitor-IsBounded :
    (c : SettlementAgeConfig) (history : List Call)
    → validate_config c ≡ true
    → IsBounded (calls history (new_monitor c))
unfolding validate_config new_monitor
monitor-IsBounded c history valid = calls-IsBounded history (new_monitor c) (ground arith) (record {
  open_distinct = tt;
  open_bound = omega arith;
  closed_bound = omega arith;
  provider_wait_bound = omega arith;
  submission_lag_bound = omega arith;
  chain_delay_bound = omega arith;
  total_bound = omega arith;
  disjoint = λ id h. unfold has in refl;
})
