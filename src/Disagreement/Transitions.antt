-- ===== src/Disagreement/Transitions.antt =====
-- The flags and the signals of the disagreement monitor (`handleTransitions` and `computeStatus` of
-- apps/backend/src/services/outcome-disagreement-monitor.ts).
use smile4money.Common.{
  ℕ, ◌+◌, ◌≡◌, refl, sym, ap, ◌∙◌, Bool, true, false, not, List, [], ◌∷◌, ◌++◌, length, keep, ◌==◌,
  if◌then◌else◌, arith,
}
use smile4money.Disagreement.{Observation, DisagreementMonitorConfig, agree, disagree, unverifiable}
use smile4money.Disagreement.Monitor.{
  DisagreementMonitor, MonitorStatus, Signal, review_raised, review_recovered, degraded_raised,
  degraded_recovered, new_monitor, prune, count_kind, compute_status, review_transition,
  degraded_transition, handle_transitions, record_observation, get_status,
}

abbrev pub same_signal : Signal → Signal → Bool
same_signal review_raised review_raised = true
same_signal review_recovered review_recovered = true
same_signal degraded_raised degraded_raised = true
same_signal degraded_recovered degraded_recovered = true
same_signal _ _ = false

abbrev pub count_signal : Signal → List Signal → ℕ
count_signal k [] = 0
count_signal k (s ∷ ss) = if same_signal k s then count_signal k ss + 1 else count_signal k ss

count_signal-append :
    (k : Signal) (ss ts : List Signal)
    → count_signal k (ss ++ ts) ≡ count_signal k ss + count_signal k ts
count_signal-append k [] ts = ground arith
count_signal-append k (s ∷ ss) ts = ground (arith, count_signal-append k ss ts)

-- A flag that was raised once more than it was cleared is set, and else both were as often.
abbrev Toggles : Signal → Signal → List Signal → Bool → Type 0
Toggles up down ss active =
    count_signal up ss ≡ (if active then count_signal down ss + 1 else count_signal down ss)

pub kept_window :
    (s : MonitorStatus) (m : DisagreementMonitor)
    → let n = (handle_transitions s m).0 in
      (n.config ≡ m.config) × (n.observations ≡ m.observations)
unfolding handle_transitions review_transition degraded_transition
kept_window s m = ground arith

flags_set :
    (s : MonitorStatus) (m : DisagreementMonitor)
    → let n = (handle_transitions s m).0 in
      (n.review_active ≡ s.review_required) × (n.degraded_active ≡ s.evidence_degraded)
unfolding handle_transitions review_transition degraded_transition
flags_set s m = ground arith

module _ (s : MonitorStatus) (m : DisagreementMonitor) (ss : List Signal) where
  still_alternates :
      Toggles review_raised review_recovered ss m.review_active
      → Toggles degraded_raised degraded_recovered ss m.degraded_active
      → let r = handle_transitions s m in
        Toggles review_raised review_recovered (ss ++ r.1) r.0.review_active
        × Toggles degraded_raised degraded_recovered (ss ++ r.1) r.0.degraded_active
  unfolding handle_transitions review_transition degraded_transition
  still_alternates a b =
      let r = handle_transitions s m in
      ground (
        arith,
        count_signal-append review_raised ss r.1,
        count_signal-append review_recovered ss r.1,
        count_signal-append degraded_raised ss r.1,
        count_signal-append degraded_recovered ss r.1,
      )

-- The status depends on the settings and the window only.
abbrev status_of : DisagreementMonitorConfig → List Observation → MonitorStatus
status_of c os =
    compute_status
      (record { config = c; observations = os; review_active = false; degraded_active = false })

status_of_window : (m : DisagreementMonitor) → compute_status m ≡ status_of m.config m.observations
unfolding compute_status
status_of_window m = refl

same_status :
    (m n : DisagreementMonitor)
    → n.config ≡ m.config
    → n.observations ≡ m.observations
    → compute_status n ≡ compute_status m
same_status m n e f = rw (status_of_window n, status_of_window m, e, f) refl

all_counted :
    (os : List Observation)
    → count_kind agree os + count_kind disagree os + count_kind unverifiable os ≡ length os
unfolding count_kind
all_counted [] = refl
all_counted (o ∷ os) = ground (arith, all_counted os)

status_counts :
    (m : DisagreementMonitor)
    → (compute_status m).decided + (compute_status m).unverifiable_
      ≡ (compute_status m).window_observations
unfolding compute_status
status_counts m = all_counted m.observations

-- The calls of a monitor.
pub data Event : Type 0 where
  observes : ℕ → Observation → Event
  asks_status : ℕ → Event

unfoldable pub step : Event → DisagreementMonitor → DisagreementMonitor × List Signal
step (observes now o) m = record_observation now o m
step (asks_status now) m = ((get_status now m).0, [])

-- The monitor after some calls, with all their signals in order; `ss` are those before.
unfoldable pub after_events :
    List Event → DisagreementMonitor × List Signal → DisagreementMonitor × List Signal
unfolding step
after_events [] r = r
after_events (e ∷ es) r = after_events es ((step e r.0).0, r.1 ++ (step e r.0).1)

abbrev IsAlternating : DisagreementMonitor × List Signal → Type 0
IsAlternating r =
    Toggles review_raised review_recovered r.1 r.0.review_active
    × Toggles degraded_raised degraded_recovered r.1 r.0.degraded_active

step-IsAlternating :
    (e : Event) (r : DisagreementMonitor × List Signal)
    → IsAlternating r
    → IsAlternating ((step e r.0).0, r.1 ++ (step e r.0).1)
unfolding step record_observation get_status prune
step-IsAlternating (asks_status now) r h = ground (
  arith,
  h,
  count_signal-append review_raised r.1 [],
  count_signal-append review_recovered r.1 [],
  count_signal-append degraded_raised r.1 [],
  count_signal-append degraded_recovered r.1 [],
)
step-IsAlternating (observes now o) r h =
    let m = prune now r.0 in
    let others = keep (λ p. not (p.match_id == o.match_id)) m.observations in
    let after = prune now (record m { observations = others ++ (o ∷ []) }) in
    still_alternates (compute_status after) after r.1 h.0 h.1

after_events-IsAlternating :
    (es : List Event) (r : DisagreementMonitor × List Signal)
    → IsAlternating r
    → IsAlternating (after_events es r)
unfolding after_events
after_events-IsAlternating [] r h = h
after_events-IsAlternating (e ∷ es) r h =
    after_events-IsAlternating es ((step e r.0).0, r.1 ++ (step e r.0).1) (step-IsAlternating e r h)

observed-status :
    (now : ℕ) (o : Observation) (m : DisagreementMonitor)
    → let n = (record_observation now o m).0 in
      (n.review_active ≡ (compute_status n).review_required)
      × (n.degraded_active ≡ (compute_status n).evidence_degraded)
unfolding record_observation
observed-status now o m =
    let pruned = prune now m in
    let others = keep (λ p. not (p.match_id == o.match_id)) pruned.observations in
    let after = prune now (record pruned { observations = others ++ (o ∷ []) }) in
    let s = compute_status after in
    let (e, f) = kept_window s after in
    let same = same_status after (handle_transitions s after).0 e f in
    let (review, degraded) = flags_set s after in
    (
      review ∙ sym (ap (λ t. t.review_required) same),
      degraded ∙ sym (ap (λ t. t.evidence_degraded) same),
    )

-- In any history of a new monitor, observations and questions for its status in any order: the notifier
-- was called, and a review announced, as often as the recovery from one, or once more while a review is
-- active; and so for degraded evidence. Right after an observation the two flags say what the status
-- of the window says, and every observation of the window is counted as decided or unverifiable.
pub signals_alternate :
    (config : DisagreementMonitorConfig) (es : List Event) (now : ℕ) (o : Observation)
    → let before = after_events es (new_monitor config, []) in
      let m = (record_observation now o before.0).0 in
      let signals = before.1 ++ (record_observation now o before.0).1 in
      let s = compute_status m in
      (count_signal review_raised signals ≡ (
        if m.review_active
        then count_signal review_recovered signals + 1
        else count_signal review_recovered signals))
      × (count_signal degraded_raised signals ≡ (
          if m.degraded_active
          then count_signal degraded_recovered signals + 1
          else count_signal degraded_recovered signals))
      × (m.review_active ≡ s.review_required)
      × (m.degraded_active ≡ s.evidence_degraded)
      × (s.decided + s.unverifiable_ ≡ s.window_observations)
signals_alternate config es now o =
    let before = after_events es (new_monitor config, []) in
    let started : IsAlternating (new_monitor config, []) = unfold new_monitor in (refl, refl) in
    let held =
      step-IsAlternating (observes now o) before
        (after_events-IsAlternating es (new_monitor config, []) started) in
    let held' : IsAlternating
        ((record_observation now o before.0).0, before.1 ++ (record_observation now o before.0).1) =
      unfold step in held in
    let m = (record_observation now o before.0).0 in
    let (review, degraded) = observed-status now o before.0 in
    (held'.0, held'.1, review, degraded, status_counts m)
