-- ===== src/SettlementAge/Alerts.antt =====
-- When the settlement age monitor alerts and notifies (`getSnapshot`
-- and `evaluate` of apps/backend/src/services/settlement-age-monitor.ts).
use smile4money.Common.{
  ℕ, suc, ◌≡◌, refl, Bool, true, ◌&&◌, ◌||◌, not, List, [], ◌∷◌, ◌++◌, ltb, length, keep, map,
  arith, is_some, Bool-cases, inl, inr, ◌<◌, ◌-◌, ◌≤◌, zero,
}
use smile4money.Common.OrderedMap.{values}
use smile4money.Common.OrderedSet.{member, insert, member-insert}
use smile4money.SettlementAge.{
  Segment, provider_wait, submission_lag, chain_delay, total, AlertKind, stuck,
  SettlementAgeMonitor,
}
use smile4money.SettlementAge.Snapshot.{
  AgeEntry, SettlementAlert, alert_id, is_over, ages, threshold_for, get_snapshot, is_segment,
  insert_oldest, sort_oldest, insert_ascending, sort_ascending, summarize, summarize_open,
  stuck_alerts, slow_alerts, open_stats, alerts_of, entry,
}
use smile4money.SettlementAge.Evaluation.{alert_eq, same_alert, raise, evaluate}

member-raise :
    (id : AlertKind × Segment) (alerts : List SettlementAlert) (active : List (AlertKind × Segment))
    → member id (raise alerts active).0 ≡ (member id (map alert_id alerts) || member id active)
unfolding raise member
member-raise id [] active = refl
member-raise id (a ∷ alerts) active = elim (Bool-cases (member (alert_id a) active)) [
  | inl known ↦ ground (arith, member-raise id alerts active, same_alert (alert_id a) id)
  | inr fresh ↦ ground (
    arith,
    member-raise id alerts (insert (alert_id a) active),
    member-insert (alert_id a) id active,
  )
]

member-notified :
    (id : AlertKind × Segment) (alerts : List SettlementAlert) (active : List (AlertKind × Segment))
    → member id (map alert_id (raise alerts active).1)
      ≡ (member id (map alert_id alerts) && not (member id active))
unfolding raise member
member-notified id [] active = refl
member-notified id (a ∷ alerts) active = elim (Bool-cases (member (alert_id a) active)) [
  | inl known ↦ ground (arith, member-notified id alerts active, same_alert (alert_id a) id)
  | inr fresh ↦ ground (
    arith,
    member-notified id alerts (insert (alert_id a) active),
    member-insert (alert_id a) id active,
    same_alert (alert_id a) id,
  )
]

member-keep :
    (p : AlertKind × Segment → Bool) (id : AlertKind × Segment) (s : List (AlertKind × Segment))
    → member id (keep p s) ≡ (member id s && p id)
unfolding member
member-keep p id [] = refl
member-keep p id (j ∷ s) = ground (arith, member-keep p id s, same_alert j id)

-- After an evaluation the active alerts are those that hold now, and the notifier was called for
-- those of them that were not active before.
pub evaluate_lem :
    (now : ℕ) (m : SettlementAgeMonitor) (id : AlertKind × Segment)
    → let current = map alert_id (get_snapshot now m).alerts in
      let r = evaluate now m in
      (member id r.0.active_alerts ≡ member id current)
      × (member id (map alert_id r.1) ≡ (member id current && not (member id m.active_alerts)))
unfolding evaluate
evaluate_lem now m id =
    let alerts = (get_snapshot now m).alerts in
    let current = map alert_id alerts in
    (
      ground (
        arith,
        member-keep (λ j. member j current) id (raise alerts m.active_alerts).0,
        member-raise id alerts m.active_alerts,
      ),
      member-notified id alerts m.active_alerts,
    )

length-insert_oldest :
    (e : AgeEntry) (es : List AgeEntry) → length (insert_oldest e es) ≡ suc (length es)
unfolding insert_oldest
length-insert_oldest e [] = refl
length-insert_oldest e (f ∷ es) = ground (arith, length-insert_oldest e es)

length-sort_oldest : (es : List AgeEntry) → length (sort_oldest es) ≡ length es
unfolding sort_oldest
length-sort_oldest [] = refl
length-sort_oldest (e ∷ es) =
    ground (arith, length-sort_oldest es, length-insert_oldest e (sort_oldest es))

length-insert_ascending : (x : ℕ) (xs : List ℕ) → length (insert_ascending x xs) ≡ suc (length xs)
unfolding insert_ascending
length-insert_ascending x [] = refl
length-insert_ascending x (y ∷ xs) = ground (arith, length-insert_ascending x xs)

pub length-sort_ascending : (xs : List ℕ) → length (sort_ascending xs) ≡ length xs
unfolding sort_ascending
length-sort_ascending [] = refl
length-sort_ascending (x ∷ xs) =
    ground (arith, length-sort_ascending xs, length-insert_ascending x (sort_ascending xs))

pub entry_within : (i : ℕ) (xs : List ℕ) → i < length xs → is_some (entry i xs) ≡ true
entry_within i [] h = absurd (omega arith)
entry_within zero (x ∷ xs) h = refl
entry_within (suc i) (x ∷ xs) h = entry_within i xs (omega arith)

length-ages : (es : List AgeEntry) → length (map (λ e. e.age_ms) es) ≡ length es
length-ages [] = refl
length-ages (e ∷ es) = ground (arith, length-ages es)

some_over : (threshold : ℕ) (es : List AgeEntry) → length (keep (is_over threshold) es) ≤ length es
some_over threshold [] = omega arith
some_over threshold (e ∷ es) = ground (arith, some_over threshold es)

member-append :
    (id : AlertKind × Segment) (xs ys : List SettlementAlert)
    → member id (map alert_id (xs ++ ys))
      ≡ (member id (map alert_id xs) || member id (map alert_id ys))
unfolding member
member-append id [] ys = refl
member-append id (x ∷ xs) ys = ground (arith, member-append id xs ys)

-- How many matches wait in a segment for longer than its threshold.
abbrev pub overdue : ℕ → SettlementAgeMonitor → Segment → ℕ
overdue now m s = length (keep (is_over (threshold_for m.config s)) (ages now s (values m.open_)))

module _ (now : ℕ) (m : SettlementAgeMonitor) where
  open_max : (s : Segment) → 0 < overdue now m s → is_some (open_stats now m s).stats.max_ ≡ true
  unfolding open_stats summarize_open summarize
  open_max s h =
      let es = ages now s (values m.open_) in
      let sorted = sort_ascending (map (λ e. e.age_ms) es) in
      entry_within (length sorted - 1) sorted (
        omega (
          arith,
          length-sort_ascending (map (λ e. e.age_ms) es),
          length-ages es,
          some_over (threshold_for m.config s) es,
        ))

  over_threshold : (s : Segment) → (open_stats now m s).over_threshold ≡ overdue now m s
  unfolding open_stats summarize_open
  over_threshold s =
      length-sort_oldest (keep (is_over (threshold_for m.config s)) (ages now s (values m.open_)))

  stuck_at :
      (s t : Segment)
      → member (stuck, s) (map alert_id (alerts_of now m t))
        ≡ (is_segment t s && ltb 0 (overdue now m t))
  unfolding alerts_of stuck_alerts slow_alerts member
  stuck_at s t = ground (arith, open_max t, over_threshold t)

  -- An alert on stuck matches of a segment is in the snapshot exactly when some match waits in that
  -- segment for longer than its threshold.
  pub stuck_when_overdue :
      (s : Segment)
      → member (stuck, s) (map alert_id (get_snapshot now m).alerts) ≡ ltb 0 (overdue now m s)
  unfolding get_snapshot
  stuck_when_overdue s =
      let a1 = alerts_of now m provider_wait in
      let a2 = alerts_of now m submission_lag in
      let a3 = alerts_of now m chain_delay in
      let a4 = alerts_of now m total in
      rw
        (
          member-append (stuck, s) a1 (a2 ++ (a3 ++ a4)),
          member-append (stuck, s) a2 (a3 ++ a4),
          member-append (stuck, s) a3 a4,
          stuck_at s provider_wait,
          stuck_at s submission_lag,
          stuck_at s chain_delay,
          stuck_at s total,
        )
        (one_of_four s)
    where
      one_of_four :
          (s : Segment)
          → ((is_segment provider_wait s && ltb 0 (overdue now m provider_wait))
              || ((is_segment submission_lag s && ltb 0 (overdue now m submission_lag))
                  || ((is_segment chain_delay s && ltb 0 (overdue now m chain_delay))
                      || (is_segment total s && ltb 0 (overdue now m total)))))
            ≡ ltb 0 (overdue now m s)
      one_of_four provider_wait = ground arith
      one_of_four submission_lag = ground arith
      one_of_four chain_delay = ground arith
      one_of_four total = ground arith
