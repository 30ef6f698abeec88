-- ===== src/Disagreement/Window.antt =====
-- The window of observations of the disagreement monitor (`record` and `prune` of
-- apps/backend/src/services/outcome-disagreement-monitor.ts).
use smile4money.Common.{
  ℕ, ◌+◌, ◌-◌, ◌≤◌, ◌<◌, ◌≡◌, ◌≢◌, sym, Bool, not, ◌==◌, ==_iff, List, [], ◌∷◌, ◌++◌, ltb, length,
  keep, drop, arith, All, All-drop, All-append, length-drop, Bool-cases, inl, inr, ltb→lt, zero,
  suc,
}
use smile4money.Disagreement.Transitions.{kept_window}
use smile4money.Disagreement.{Observation}
use smile4money.Disagreement.Monitor.{
  DisagreementMonitor, prune, compute_status, record_observation,
}

-- Each match is observed at most once.
abbrev pub EachOnce : List Observation → Type 0
EachOnce [] = Unit
EachOnce (o ∷ os) = All (λ p. p.match_id ≢ o.match_id) os × EachOnce os

All-kept :
    (P : Observation → Type 0) (p : Observation → Bool) (os : List Observation)
    → All P os
    → All P (keep p os)
All-kept P p [] h = tt
All-kept P p (o ∷ os) h = elim (Bool-cases (p o)) [
  | inl e ↦ rw e (h.0, All-kept P p os h.1)
  | inr e ↦ rw e (All-kept P p os h.1)
]

EachOnce-keep :
    (p : Observation → Bool) (os : List Observation) → EachOnce os → EachOnce (keep p os)
EachOnce-keep p [] h = tt
EachOnce-keep p (o ∷ os) h = elim (Bool-cases (p o)) [
  | inl e ↦ rw e (All-kept (λ q. q.match_id ≢ o.match_id) p os h.0, EachOnce-keep p os h.1)
  | inr e ↦ rw e (EachOnce-keep p os h.1)
]

EachOnce-drop : (n : ℕ) (os : List Observation) → EachOnce os → EachOnce (drop n os)
EachOnce-drop zero os h = h
EachOnce-drop (suc n) [] h = h
EachOnce-drop (suc n) (o ∷ os) h = EachOnce-drop n os h.1

-- An observation of a match that the list does not have.
EachOnce-append :
    (o : Observation) (os : List Observation)
    → All (λ p. p.match_id ≢ o.match_id) os
    → EachOnce os
    → EachOnce (os ++ (o ∷ []))
EachOnce-append o [] a h = (tt, tt)
EachOnce-append o (p ∷ os) a h = (
  All-append (λ q. q.match_id ≢ p.match_id) os (o ∷ []) h.0 ((λ e. a.0 (sym e), tt)),
  EachOnce-append o os a.1 h.1,
)

others_differ :
    (id : ℕ) (os : List Observation)
    → All (λ p. p.match_id ≢ id) (keep (λ p. not (p.match_id == id)) os)
others_differ id [] = tt
others_differ id (o ∷ os) = elim (Bool-cases (o.match_id == id)) [
  | inl e ↦ rw e (others_differ id os)
  | inr e ↦ rw e ((λ same. ground (arith, ==_iff o.match_id id)), others_differ id os)
]

-- What a monitor shows at a time.
pub record IsWindow (now : ℕ) (m : DisagreementMonitor) : Type 0 where
  pub bounded : length m.observations ≤ m.config.window_size
  pub fresh : All (λ o. now < o.observed_at + m.config.max_age_ms) m.observations
  pub once : EachOnce m.observations

fresh_kept :
    (now age : ℕ) (os : List Observation)
    → All (λ o. now < o.observed_at + age) (keep (λ o. ltb now (o.observed_at + age)) os)
fresh_kept now age [] = tt
fresh_kept now age (o ∷ os) = elim (Bool-cases (ltb now (o.observed_at + age))) [
  | inl e ↦ rw e (ltb→lt now (o.observed_at + age) e, fresh_kept now age os)
  | inr e ↦ rw e (fresh_kept now age os)
]

prune-IsWindow :
    (now : ℕ) (m : DisagreementMonitor) → EachOnce m.observations → IsWindow now (prune now m)
unfolding prune
prune-IsWindow now m once =
    let w = m.config.window_size in
    let young = λ (o : Observation). ltb now (o.observed_at + m.config.max_age_ms) in
    let kept = keep young m.observations in
    elim (Bool-cases (ltb w (length kept))) [
      | inl e ↦
          rw (e, prune)
            (record {
              bounded = omega (arith, length-drop (length kept - w) kept);
              fresh =
                  All-drop (λ o. now < o.observed_at + m.config.max_age_ms) (length kept - w) kept
                    (fresh_kept now m.config.max_age_ms m.observations);
              once = EachOnce-drop (length kept - w) kept (EachOnce-keep young m.observations once);
            })
      | inr e ↦
          rw (e, prune)
            (record {
              bounded = ground arith;
              fresh = fresh_kept now m.config.max_age_ms m.observations;
              once = EachOnce-keep young m.observations once;
            })
    ]

same-IsWindow :
    (now : ℕ) (m n : DisagreementMonitor)
    → n.config ≡ m.config
    → n.observations ≡ m.observations
    → IsWindow now m
    → IsWindow now n
same-IsWindow now m n e f w = record {
  bounded = rw (e, f) w.bounded;
  fresh = rw (e, f) w.fresh;
  once = rw f w.once;
}

-- After an observation the window has at most `window_size` observations, none too old, and each
-- match once, if that held of its matches before.
pub record_observation-IsWindow :
    (now : ℕ) (o : Observation) (m : DisagreementMonitor)
    → EachOnce m.observations
    → IsWindow now (record_observation now o m).0
unfolding record_observation
record_observation-IsWindow now o m once =
    let pruned = prune now m in
    let others = keep (λ p. not (p.match_id == o.match_id)) pruned.observations in
    let before = prune-IsWindow now m once in
    let after =
      prune-IsWindow now (record pruned { observations = others ++ (o ∷ []) })
        (EachOnce-append o others (others_differ o.match_id pruned.observations)
          (EachOnce-keep (λ p. not (p.match_id == o.match_id)) pruned.observations before.once)) in
    let whole = record pruned { observations = others ++ (o ∷ []) } in
    let (same_config, same_window) =
      kept_window (compute_status (prune now whole)) (prune now whole) in
    same-IsWindow now (prune now whole) (record_observation now o m).0 same_config same_window after
