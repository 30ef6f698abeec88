-- ===== src/SettlementAge.antt =====
-- How long matches wait for their settlement: the monitor of
-- apps/backend/src/services/settlement-age-monitor.ts. Times are natural numbers; the calls take
-- the time that the clock shows.
pub mod Snapshot
pub mod Evaluation
mod Examples
pub mod Timing
pub mod Percentiles
pub mod Bounds
pub mod History
pub mod Alerts
use smile4money.Common.{
  ℕ, ◌+◌, ◌-◌, Bool, true, false, ◌&&◌, Option, none, some, List, [], ◌∷◌, ◌++◌, ltb, leb, length,
  if◌then◌else◌, or_else, or_try, drop,
}
use smile4money.Common.Keys.{nat_eq}
use smile4money.Common.OrderedMap.{OrderedMap, get, has, set, delete}
use smile4money.Common.OrderedSet.{member, insert}

pub data Stage : Type 0 where
  activated provider_result submission_started chain_confirmed : Stage

pub data Segment : Type 0 where
  provider_wait submission_lag chain_delay total : Segment

pub record SettlementAgeConfig : Type 0 where
  pub provider_wait_ms : ℕ
  pub submission_lag_ms : ℕ
  pub chain_delay_ms : ℕ
  pub total_ms : ℕ
  pub completed_window : ℕ
  pub min_samples : ℕ
  pub max_tracked : ℕ

abbrev pub default_settlement_age_config : SettlementAgeConfig
default_settlement_age_config = record {
  provider_wait_ms = 86400000;
  submission_lag_ms = 600000;
  chain_delay_ms = 900000;
  total_ms = 172800000;
  completed_window = 200;
  min_samples = 5;
  max_tracked = 10000;
}

-- Whether the configuration is accepted; the source throws where it is not.
unfoldable pub validate_config : SettlementAgeConfig → Bool
validate_config c =
    ltb 0 c.provider_wait_ms
    && ltb 0 c.submission_lag_ms
    && ltb 0 c.chain_delay_ms
    && ltb 0 c.total_ms
    && ltb 0 c.completed_window
    && ltb 0 c.min_samples
    && ltb 0 c.max_tracked
    && leb c.min_samples c.completed_window

-- The first time at which a match reached each stage.
pub record Timeline : Type 0 where
  pub match_id : ℕ
  pub activated_at : Option ℕ
  pub provider_result_at : Option ℕ
  pub submission_started_at : Option ℕ
  pub chain_confirmed_at : Option ℕ

abbrev pub empty_timeline : ℕ → Timeline
empty_timeline id = record {
  match_id = id;
  activated_at = none;
  provider_result_at = none;
  submission_started_at = none;
  chain_confirmed_at = none;
}

-- `{A}` per segment, as in `Record<Segment, A>`.
pub record PerSegment (A : Type 0) : Type 0 where
  pub provider_wait : A
  pub submission_lag : A
  pub chain_delay : A
  pub total : A

pub data AlertKind : Type 0 where
  stuck slow_p95 : AlertKind

-- The open matches and the closed ids are in insertion order; an alert's id is its kind and segment.
pub record SettlementAgeMonitor : Type 0 where
  pub config : SettlementAgeConfig
  pub open_ : OrderedMap ℕ Timeline
  pub closed : List ℕ
  pub completed : PerSegment (List ℕ)
  pub active_alerts : List (AlertKind × Segment)
  pub abandoned : ℕ
  pub evicted : ℕ

abbrev pub max_closed_ids : ℕ
max_closed_ids = 10000

unfoldable pub new_monitor : SettlementAgeConfig → SettlementAgeMonitor
new_monitor c = record {
  config = c;
  open_ = [];
  closed = [];
  completed = record { provider_wait = []; submission_lag = []; chain_delay = []; total = [] };
  active_alerts = [];
  abandoned = 0;
  evicted = 0;
}

-- The oldest matches are dropped while there are `max_tracked` or more: what is left, and how
-- many were dropped.
unfoldable pub make_room : ℕ → OrderedMap ℕ Timeline → OrderedMap ℕ Timeline × ℕ
make_room max_tracked [] = ([], 0)
make_room max_tracked (e ∷ m) =
    let rest = make_room max_tracked m in
    if leb max_tracked (length (e ∷ m)) then (rest.0, rest.1 + 1) else (e ∷ m, 0)

unfoldable pub mark_closed : ℕ → List ℕ → List ℕ
mark_closed id closed =
    let added = insert id closed in
    if ltb max_closed_ids (length added) then drop 1 added else added

-- A timestamp is kept only if the stage has none yet.
unfoldable pub reach : Stage → ℕ → Timeline → Timeline
reach activated t l = record l { activated_at = some (or_else l.activated_at t) }
reach provider_result t l = record l { provider_result_at = some (or_else l.provider_result_at t) }
reach submission_started t l = record l {
  submission_started_at = some (or_else l.submission_started_at t);
}
reach chain_confirmed t l = record l { chain_confirmed_at = some (or_else l.chain_confirmed_at t) }

-- The time between two stages, `none` where one of them is missing.
abbrev pub span : Option ℕ → Option ℕ → Option ℕ
span (some from) (some to) = some (to - from)
span (some from) none = none
span none to = none

abbrev pub start_of : Timeline → Option ℕ
start_of l = or_try l.activated_at (or_try l.provider_result_at l.submission_started_at)

unfoldable pub durations : Timeline → PerSegment (Option ℕ)
durations l = record {
  provider_wait = span l.activated_at l.provider_result_at;
  submission_lag = span l.provider_result_at l.submission_started_at;
  chain_delay = span l.submission_started_at l.chain_confirmed_at;
  total = span (start_of l) l.chain_confirmed_at;
}

-- A duration goes to the end of its buffer, whose oldest entry leaves when it is too long.
unfoldable pub push : ℕ → Option ℕ → List ℕ → List ℕ
push window none buffer = buffer
push window (some d) buffer =
    let pushed = buffer ++ (d ∷ []) in if ltb window (length pushed) then drop 1 pushed else pushed

unfoldable pub complete : Timeline → SettlementAgeMonitor → SettlementAgeMonitor
unfolding durations
complete l m =
    let w = m.config.completed_window in
    record m {
      completed = record {
        provider_wait = push w (durations l).provider_wait m.completed.provider_wait;
        submission_lag = push w (durations l).submission_lag m.completed.submission_lag;
        chain_delay = push w (durations l).chain_delay m.completed.chain_delay;
        total = push w (durations l).total m.completed.total;
      };
      open_ = delete l.match_id m.open_;
      closed = mark_closed l.match_id m.closed;
    }

-- The monitor in which a match has a timeline, and that timeline.
unfoldable pub tracked : ℕ → SettlementAgeMonitor → SettlementAgeMonitor × Timeline
tracked id m = elim (get id m.open_) [
  | some l ↦ (m, l)
  | none ↦
      let room = make_room m.config.max_tracked m.open_ in
      (
        record m { open_ = set id (empty_timeline id) room.0; evicted = m.evicted + room.1 },
        empty_timeline id,
      )
]

abbrev pub is_confirmed : Stage → Bool
is_confirmed chain_confirmed = true
is_confirmed _ = false

unfoldable pub record_stage : ℕ → Stage → Option ℕ → ℕ → SettlementAgeMonitor → SettlementAgeMonitor
record_stage id stage at now m =
    if member id m.closed
    then m
    else (let found = tracked id m in
        let timeline = reach stage (or_else at now) found.1 in
        let stored = record found.0 { open_ = set id timeline found.0.open_ } in
        if is_confirmed stage then complete timeline stored else stored)

-- The jobs are their match ids and creation times.
unfoldable pub sync_activations : List (ℕ × ℕ) → ℕ → SettlementAgeMonitor → SettlementAgeMonitor
sync_activations [] now m = m
sync_activations ((id, created_at) ∷ jobs) now m =
    sync_activations jobs now (record_stage id activated (some created_at) now m)

unfoldable pub abandon : ℕ → SettlementAgeMonitor → SettlementAgeMonitor
abandon id m =
    if has id m.open_
    then record m {
      open_ = delete id m.open_;
      closed = mark_closed id m.closed;
      abandoned = m.abandoned + 1;
    }
    else m
