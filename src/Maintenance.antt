-- ===== src/Maintenance.antt =====
-- The gate that quiesces the queue store for a restore:
-- apps/backend/src/store/maintenance-gate.ts. Calls of the store are counted: those that run and those
-- that wait at the gate. A promise that is resolved is a step that may follow.
pub mod Quiet
mod Examples
use smile4money.Common.{
  ℕ, zero, suc, ◌+◌, ◌≡◌, Bool, true, false, ◌&&◌, not, Option, none, some, ◌==◌, if◌then◌else◌,
}

-- No hold; one that waits for the running calls, with `drained` set; one that was granted.
pub data Hold : Type 0 where
  no_hold draining granted : Hold

-- `held` is whether `gate` is set.
pub record MaintainableQueueStore : Type 0 where
  pub held : Bool
  pub in_flight : ℕ
  pub waiting : ℕ
  pub hold_state : Hold

unfoldable pub new_gate : MaintainableQueueStore
new_gate = record { held = false; in_flight = 0; waiting = 0; hold_state = no_hold }

-- A call of the store begins: it runs, or it waits at the gate.
unfoldable pub run : MaintainableQueueStore → MaintainableQueueStore
run g =
    if g.held
    then record g { waiting = g.waiting + 1 }
    else record g { in_flight = g.in_flight + 1 }

-- A waiting call goes on after the gate's promise: it looks at the gate again.
unfoldable pub resume : MaintainableQueueStore → MaintainableQueueStore
resume g = elim g.waiting [
  | zero ↦ g
  | suc n ↦ if g.held then g else record g { waiting = n; in_flight = g.in_flight + 1 }
]

-- A running call ends, and the last one lets a hold that waits go on.
unfoldable pub finish : MaintainableQueueStore → MaintainableQueueStore
finish g = elim g.in_flight [
  | zero ↦ g
  | suc n ↦ record g {
    in_flight = n;
    hold_state = elim g.hold_state [
      | no_hold ↦ no_hold
      | granted ↦ granted
      | draining ↦ if n == 0 then granted else draining
    ];
  }
]

-- `none` where the source throws.
unfoldable pub hold : MaintainableQueueStore → Option MaintainableQueueStore
hold g =
    if g.held
    then none
    else some
        (record g { held = true; hold_state = if g.in_flight == 0 then granted else draining })

-- The function that a granted hold returns; called again it does nothing.
unfoldable pub release : MaintainableQueueStore → MaintainableQueueStore
release g = elim g.hold_state [
  | granted ↦ record g { held = false; hold_state = no_hold }
  | no_hold ↦ g
  | draining ↦ g
]

-- Whether the store may be closed and opened again; the source throws where it may not.
unfoldable pub may_reopen : MaintainableQueueStore → Bool
may_reopen g = g.held

-- What can happen next, in whatever order the event loop chooses.
pub data Step (g : MaintainableQueueStore) : MaintainableQueueStore → Type 0 where
  called : Step g (run g)
  resumed : Step g (resume g)
  finished : Step g (finish g)
  held_now : (h : MaintainableQueueStore) → hold g ≡ some h → Step g h
  released : Step g (release g)

pub data Reachable : MaintainableQueueStore → Type 0 where
  start : Reachable new_gate
  next : (g h : MaintainableQueueStore) → Reachable g → Step g h → Reachable h
