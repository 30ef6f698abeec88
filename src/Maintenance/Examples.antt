-- ===== src/Maintenance/Examples.antt =====
-- A hold taken while a call runs, granted when that call ends.
use smile4money.Common.{true, ◌+◌, ◌≡◌, refl}
use smile4money.Maintenance.{
  MaintainableQueueStore, no_hold, draining, granted, new_gate, run, hold, called, held_now,
  Reachable, start, next,
}
use smile4money.Maintenance.Quiet.{finish_all, hold_is_quiet}

abbrev draining_gate : MaintainableQueueStore
draining_gate = record { held = true; in_flight = 1; waiting = 0; hold_state = draining }

abbrev running_gate : MaintainableQueueStore
unfolding new_gate run
running_gate = run new_gate

draining_reached : Reachable draining_gate
unfolding running_gate new_gate run hold
draining_reached =
    next running_gate draining_gate (next new_gate running_gate start called)
      (held_now draining_gate refl)

hold_is_quiet_example :
    (draining_gate.hold_state ≡ granted
      → (draining_gate.in_flight ≡ 0) × ((run draining_gate).in_flight ≡ 0))
    × (draining_gate.hold_state ≡ draining
        → (finish_all draining_gate.in_flight draining_gate).hold_state ≡ granted)
    × (draining_gate.hold_state ≡ no_hold
        → (run draining_gate).in_flight ≡ draining_gate.in_flight + 1)
hold_is_quiet_example = hold_is_quiet draining_gate draining_reached
