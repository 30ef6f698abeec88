-- ===== src/SettlementAge/Timing.antt =====
-- What is measured: the first time of each stage, and the durations between them (`recordStage` and
-- `complete` of apps/backend/src/services/settlement-age-monitor.ts).
use smile4money.Common.{ℕ, ◌+◌, ◌≤◌, ◌≡◌, refl, false, Option, none, some, arith, or_else, ==_iff}
use smile4money.Common.Keys.{nat_eq}
use smile4money.Common.OrderedMap.{get, get-set}
use smile4money.Common.OrderedSet.{member}
use smile4money.SettlementAge.{
  Stage, activated, provider_result, submission_started, chain_confirmed, Timeline,
  SettlementAgeMonitor, is_confirmed, record_stage, tracked, reach, durations, empty_timeline,
}

-- The timeline that a match has, or would start with.
abbrev pub timeline_of : ℕ → SettlementAgeMonitor → Timeline
timeline_of id m = or_else (get id m.open_) (empty_timeline id)

tracked_timeline : (id : ℕ) (m : SettlementAgeMonitor) → (tracked id m).1 ≡ timeline_of id m
unfolding tracked
tracked_timeline id m = ground arith

tracked_closed : (id : ℕ) (m : SettlementAgeMonitor) → (tracked id m).0.closed ≡ m.closed
unfolding tracked
tracked_closed id m = ground arith

-- While a match is open, a stage is entered in its timeline.
get-record_stage :
    (id : ℕ) (stage : Stage) (at : Option ℕ) (now : ℕ) (m : SettlementAgeMonitor)
    → is_confirmed stage ≡ false
    → member id m.closed ≡ false
    → (get id (record_stage id stage at now m).open_
        ≡ some (reach stage (or_else at now) (timeline_of id m)))
      × ((record_stage id stage at now m).closed ≡ m.closed)
unfolding record_stage
get-record_stage id stage at now m h fresh =
    let t = tracked id m in
    ground (
      arith,
      get-set id id (reach stage (or_else at now) t.1) t.0.open_,
      ==_iff id id,
      tracked_timeline id m,
      tracked_closed id m,
    )

reach_twice :
    (stage : Stage) (t u : ℕ) (l : Timeline) → reach stage u (reach stage t l) ≡ reach stage t l
unfolding reach
reach_twice activated t u l = refl
reach_twice provider_result t u l = refl
reach_twice submission_started t u l = refl
reach_twice chain_confirmed t u l = refl

-- The first timestamp of a stage wins: while a match is open, recording a stage before the
-- confirmation once more, at whatever time, leaves its timeline as it is.
pub first_timestamp_wins :
    (id : ℕ) (stage : Stage) (first again : Option ℕ) (now later : ℕ) (m : SettlementAgeMonitor)
    → is_confirmed stage ≡ false
    → member id m.closed ≡ false
    → let once = record_stage id stage first now m in
      get id (record_stage id stage again later once).open_ ≡ get id once.open_
first_timestamp_wins id stage first again now later m h fresh =
    let once = record_stage id stage first now m in
    let entered = get-record_stage id stage first now m h fresh in
    let twice = get-record_stage id stage again later once h (rw entered.1 fresh) in
    ground (
      arith,
      entered.0,
      twice.0,
      reach_twice stage (or_else first now) (or_else again later) (timeline_of id m),
    )

-- The three waits of a match whose stages were reached in order add up to its total.
pub durations_add_up :
    (l : Timeline) (a b c d : ℕ)
    → l.activated_at ≡ some a
    → l.provider_result_at ≡ some b
    → l.submission_started_at ≡ some c
    → l.chain_confirmed_at ≡ none
    → a ≤ b
    → b ≤ c
    → c ≤ d
    → let r = durations (reach chain_confirmed d l) in
      r.total
      ≡ some (or_else r.provider_wait 0 + or_else r.submission_lag 0 + or_else r.chain_delay 0)
unfolding durations reach
durations_add_up l a b c d ea eb ec ed ab bc cd = ground arith
