-- ===== src/SettlementAge/Evaluation.antt =====
-- Raising and clearing alerts: `evaluate` of
-- apps/backend/src/services/settlement-age-monitor.ts.
use smile4money.Common.{
  ℕ, ◌≡◌, ◌↔◌, Bool, true, false, ◌&&◌, List, [], ◌∷◌, keep, map, if◌then◌else◌, arith,
}
use smile4money.Common.Keys.{Eq}
use smile4money.Common.OrderedSet.{member, insert}
use smile4money.SettlementAge.{
  Segment, provider_wait, submission_lag, chain_delay, total, AlertKind, stuck, slow_p95,
  SettlementAgeMonitor,
}
use smile4money.SettlementAge.Snapshot.{SettlementAlert, alert_id, is_segment, get_snapshot}

abbrev pub is_kind : AlertKind → AlertKind → Bool
is_kind stuck stuck = true
is_kind slow_p95 slow_p95 = true
is_kind _ _ = false

is_kind_iff : (a b : AlertKind) → (is_kind a b ≡ true) ↔ (a ≡ b)
is_kind_iff stuck stuck = ground arith
is_kind_iff stuck slow_p95 = ground arith
is_kind_iff slow_p95 stuck = ground arith
is_kind_iff slow_p95 slow_p95 = ground arith

pub is_segment_iff : (a b : Segment) → (is_segment a b ≡ true) ↔ (a ≡ b)
is_segment_iff provider_wait provider_wait = ground arith
is_segment_iff provider_wait submission_lag = ground arith
is_segment_iff provider_wait chain_delay = ground arith
is_segment_iff provider_wait total = ground arith
is_segment_iff submission_lag provider_wait = ground arith
is_segment_iff submission_lag submission_lag = ground arith
is_segment_iff submission_lag chain_delay = ground arith
is_segment_iff submission_lag total = ground arith
is_segment_iff chain_delay provider_wait = ground arith
is_segment_iff chain_delay submission_lag = ground arith
is_segment_iff chain_delay chain_delay = ground arith
is_segment_iff chain_delay total = ground arith
is_segment_iff total provider_wait = ground arith
is_segment_iff total submission_lag = ground arith
is_segment_iff total chain_delay = ground arith
is_segment_iff total total = ground arith

pub same_alert :
    (a b : AlertKind × Segment) → ((is_kind a.0 b.0 && is_segment a.1 b.1) ≡ true) ↔ (a ≡ b)
same_alert (k, s) (j, t) = ground (arith, is_kind_iff k j, is_segment_iff s t)

instance abbrev pub alert_eq : Eq (AlertKind × Segment)
alert_eq = record { beq = λ a b. is_kind a.0 b.0 && is_segment a.1 b.1; beq_iff = same_alert }

-- What an evaluation does: the alerts that are active after it, and those it notifies of.
unfoldable pub raise :
    List SettlementAlert
    → List (AlertKind × Segment)
    → List (AlertKind × Segment) × List SettlementAlert
raise [] active = (active, [])
raise (a ∷ alerts) active =
    let known = member (alert_id a) active in
    let rest = raise alerts (if known then active else insert (alert_id a) active) in
    (rest.0, if known then rest.1 else a ∷ rest.1)

unfoldable pub evaluate : ℕ → SettlementAgeMonitor → SettlementAgeMonitor × List SettlementAlert
evaluate now m =
    let alerts = (get_snapshot now m).alerts in
    let raised = raise alerts m.active_alerts in
    let current = map alert_id alerts in
    (record m { active_alerts = keep (λ id. member id current) raised.0 }, raised.1)
