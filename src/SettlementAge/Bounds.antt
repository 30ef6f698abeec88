-- ===== src/SettlementAge/Bounds.antt =====
-- How much the settlement age monitor keeps, and which matches are open or closed
-- (`recordStage`, `abandon`, `syncActivations`, `evaluate` of
-- apps/backend/src/services/settlement-age-monitor.ts).
use smile4money.Common.{
  ℕ, ◌≤◌, ◌<◌, ◌≡◌, refl, sym, subst, ◌∙◌, true, false, Option, none, some, List, [], ◌∷◌, ◌++◌,
  length, drop, arith, or_else, Bool-cases, Option-cases, inl, inr, ◌⊎◌, ==_iff, length-append,
  length-drop,
}
use smile4money.Common.Keys.{nat_eq}
use smile4money.Common.OrderedMap.{
  OrderedMap, get, has, set, delete, Distinct, has-set, has-get, has-delete, set-Distinct,
  delete-Distinct, length-set, length-delete-le,
}
use smile4money.Common.OrderedSet.{member, insert, member-insert, length-insert}
use smile4money.SettlementAge.{
  Stage, Timeline, SettlementAgeMonitor, max_closed_ids, make_room, mark_closed, reach, push,
  complete, tracked, record_stage, activated, sync_activations, abandon, empty_timeline,
  is_confirmed,
}

pub record IsBounded (m : SettlementAgeMonitor) : Type 0 where
  pub open_distinct : Distinct m.open_
  pub open_bound : length m.open_ ≤ m.config.max_tracked
  pub closed_bound : length m.closed ≤ max_closed_ids
  pub provider_wait_bound : length m.completed.provider_wait ≤ m.config.completed_window
  pub submission_lag_bound : length m.completed.submission_lag ≤ m.config.completed_window
  pub chain_delay_bound : length m.completed.chain_delay ≤ m.config.completed_window
  pub total_bound : length m.completed.total ≤ m.config.completed_window
  pub disjoint : (id : ℕ) → member id m.closed ≡ true → has id m.open_ ≡ false

length-push : (w : ℕ) (d : Option ℕ) (b : List ℕ) → length b ≤ w → length (push w d b) ≤ w
unfolding push
length-push w none b h = h
length-push w (some d) b h = ground (arith, length-append b (d ∷ []), length-drop 1 (b ++ (d ∷ [])))

length-mark_closed :
    (id : ℕ) (closed : List ℕ)
    → length closed ≤ max_closed_ids
    → length (mark_closed id closed) ≤ max_closed_ids
unfolding mark_closed
length-mark_closed id closed h =
    ground (arith, length-insert id closed, length-drop 1 (insert id closed))

member-drop : (j : ℕ) (s : List ℕ) → member j (drop 1 s) ≡ true → member j s ≡ true
unfolding member
member-drop j [] h = h
member-drop j (i ∷ s) h = ground arith

-- Only the closed match joins the closed ones.
member-mark_closed :
    (id j : ℕ) (closed : List ℕ)
    → member j (mark_closed id closed) ≡ true
    → (id ≡ j) ⊎ (member j closed ≡ true)
unfolding mark_closed
member-mark_closed id j closed h =
    ground (arith, member-insert id j closed, member-drop j (insert id closed), ==_iff id j)

-- What makes room leaves fewer than `max_tracked` matches, none of them new.
room_bound : (n : ℕ) (m : OrderedMap ℕ Timeline) → 0 < n → length (make_room n m).0 < n
unfolding make_room
room_bound n [] h = h
room_bound n (e ∷ m) h = ground (arith, room_bound n m h)

room_absent :
    (n k : ℕ) (m : OrderedMap ℕ Timeline) → has k m ≡ false → has k (make_room n m).0 ≡ false
unfolding make_room has
room_absent n k [] h = h
room_absent n k ((j, l) ∷ m) h = ground (arith, room_absent n k m)

room-Distinct : (n : ℕ) (m : OrderedMap ℕ Timeline) → Distinct m → Distinct (make_room n m).0
unfolding make_room
room-Distinct n [] h = h
room-Distinct n ((j, l) ∷ m) h = ground (arith, room-Distinct n m h.1)

tracked-IsBounded :
    (id : ℕ) (m : SettlementAgeMonitor)
    → 0 < m.config.max_tracked
    → member id m.closed ≡ false
    → IsBounded m
    → IsBounded (tracked id m).0
      × (has id (tracked id m).0.open_ ≡ true)
      × (member id (tracked id m).0.closed ≡ false)
      × ((tracked id m).0.config ≡ m.config)
unfolding tracked
tracked-IsBounded id m pos closed b = elim (Option-cases (get id m.open_)) [
  | inr (l, e) ↦ rw (e, tracked) (b, rw (has-get id m.open_, e) refl, closed, refl)
  | inl e ↦
      let room = (make_room m.config.max_tracked m.open_).0 in
      rw (e, tracked)
        (
          record {
            closed_bound = b.closed_bound;
            provider_wait_bound = b.provider_wait_bound;
            submission_lag_bound = b.submission_lag_bound;
            chain_delay_bound = b.chain_delay_bound;
            total_bound = b.total_bound;
            open_distinct =
                set-Distinct id (empty_timeline id) room
                  (room-Distinct m.config.max_tracked m.open_ b.open_distinct);
            open_bound = ground (
              arith,
              length-set id (empty_timeline id) room,
              room_bound m.config.max_tracked m.open_ pos,
            );
            disjoint = λ j c. ground (
              arith,
              has-set id j (empty_timeline id) room,
              room_absent m.config.max_tracked j m.open_ (b.disjoint j c),
              ==_iff id j,
            );
          },
          ground (arith, has-set id id (empty_timeline id) room, ==_iff id id),
          closed,
          refl,
        )
]

store-IsBounded :
    (id : ℕ) (l : Timeline) (m : SettlementAgeMonitor)
    → has id m.open_ ≡ true
    → member id m.closed ≡ false
    → IsBounded m
    → IsBounded (record m { open_ = set id l m.open_ })
store-IsBounded id l m here closed b = record {
  closed_bound = b.closed_bound;
  provider_wait_bound = b.provider_wait_bound;
  submission_lag_bound = b.submission_lag_bound;
  chain_delay_bound = b.chain_delay_bound;
  total_bound = b.total_bound;
  open_distinct = set-Distinct id l m.open_ b.open_distinct;
  open_bound = ground (arith, length-set id l m.open_, b.open_bound);
  disjoint = λ j c. ground (arith, has-set id j l m.open_, b.disjoint j c, ==_iff id j);
}

leave :
    (id : ℕ) (m : SettlementAgeMonitor)
    → IsBounded m
    → (j : ℕ) → member j (mark_closed id m.closed) ≡ true
    → has j (delete id m.open_) ≡ false
leave id m b j c = elim (member-mark_closed id j m.closed c) [
  | inl same ↦ ground (arith, has-delete id j m.open_, ==_iff id j)
  | inr before ↦ ground (arith, has-delete id j m.open_, b.disjoint j before)
]

complete-IsBounded :
    (l : Timeline) (m : SettlementAgeMonitor) → IsBounded m → IsBounded (complete l m)
unfolding complete
complete-IsBounded l m b = record {
  open_distinct = delete-Distinct l.match_id m.open_ b.open_distinct;
  open_bound = omega (arith, length-delete-le l.match_id m.open_, b.open_bound);
  closed_bound = length-mark_closed l.match_id m.closed b.closed_bound;
  provider_wait_bound = length-push m.config.completed_window _ _ b.provider_wait_bound;
  submission_lag_bound = length-push m.config.completed_window _ _ b.submission_lag_bound;
  chain_delay_bound = length-push m.config.completed_window _ _ b.chain_delay_bound;
  total_bound = length-push m.config.completed_window _ _ b.total_bound;
  disjoint = leave l.match_id m b;
}

pub abandon-IsBounded : (id : ℕ) (m : SettlementAgeMonitor) → IsBounded m → IsBounded (abandon id m)
unfolding abandon
abandon-IsBounded id m b = elim (Bool-cases (has id m.open_)) [
  | inl here ↦
      rw (here, abandon)
        (record {
          provider_wait_bound = b.provider_wait_bound;
          submission_lag_bound = b.submission_lag_bound;
          chain_delay_bound = b.chain_delay_bound;
          total_bound = b.total_bound;
          open_distinct = delete-Distinct id m.open_ b.open_distinct;
          open_bound = omega (arith, length-delete-le id m.open_, b.open_bound);
          closed_bound = length-mark_closed id m.closed b.closed_bound;
          disjoint = leave id m b;
        })
  | inr absent ↦ rw (absent, abandon) b
]

pub record_stage-IsBounded :
    (id : ℕ) (stage : Stage) (at : Option ℕ) (now : ℕ) (m : SettlementAgeMonitor)
    → 0 < m.config.max_tracked
    → IsBounded m
    → IsBounded (record_stage id stage at now m)
unfolding record_stage
record_stage-IsBounded id stage at now m pos b = elim (Bool-cases (member id m.closed)) [
  | inl closed ↦ rw (closed, record_stage) b
  | inr fresh ↦
      let t = tracked-IsBounded id m pos fresh b in
      let timeline = reach stage (or_else at now) (tracked id m).1 in
      let stored = store-IsBounded id timeline (tracked id m).0 t.1 t.2 t.0 in
      rw (fresh, record_stage)
        (elim (Bool-cases (is_confirmed stage)) [
          | inl e ↦ rw e (complete-IsBounded timeline _ stored)
          | inr e ↦ rw e stored
        ])
]

pub keeps_config :
    (id : ℕ) (stage : Stage) (at : Option ℕ) (now : ℕ) (m : SettlementAgeMonitor)
    → (record_stage id stage at now m).config ≡ m.config
unfolding record_stage tracked complete
keeps_config id stage at now m = ground arith

pub sync_activations-IsBounded :
    (jobs : List (ℕ × ℕ)) (now : ℕ) (m : SettlementAgeMonitor)
    → 0 < m.config.max_tracked
    → IsBounded m
    → IsBounded (sync_activations jobs now m) × ((sync_activations jobs now m).config ≡ m.config)
unfolding sync_activations
sync_activations-IsBounded [] now m pos b = (b, refl)
sync_activations-IsBounded ((id, at) ∷ jobs) now m pos b =
    let next = record_stage id activated (some at) now m in
    let same = keeps_config id activated (some at) now m in
    let rest =
      sync_activations-IsBounded jobs now next (subst (λ c. 0 < c.max_tracked) (sym same) pos)
        (record_stage-IsBounded id activated (some at) now m pos b) in
    (rest.0, rest.1 ∙ same)
