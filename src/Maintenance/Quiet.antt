-- ===== src/Maintenance/Quiet.antt =====
-- The calls that run under a hold (apps/backend/src/store/maintenance-gate.ts).
use smile4money.Common.{ℕ, zero, suc, ◌+◌, ◌<◌, ◌≡◌, refl, true, false, some, arith}
use smile4money.Maintenance.{
  no_hold, draining, granted, MaintainableQueueStore, new_gate, run, resume, finish, hold, release,
  called, resumed, finished, held_now, released, Reachable, start, next,
}

-- What the state of the hold says of the gate and of the calls that run.
abbrev pub Agrees : MaintainableQueueStore → Type 0
Agrees g = elim g.hold_state [
  | no_hold ↦ g.held ≡ false
  | draining ↦ (g.held ≡ true) × (0 < g.in_flight)
  | granted ↦ (g.held ≡ true) × (g.in_flight ≡ 0)
]

run-Agrees : (g : MaintainableQueueStore) → Agrees g → Agrees (run g)
unfolding run
run-Agrees g h = ground arith

resume-Agrees : (g : MaintainableQueueStore) → Agrees g → Agrees (resume g)
unfolding resume
resume-Agrees g h = ground arith

finish-Agrees : (g : MaintainableQueueStore) → Agrees g → Agrees (finish g)
unfolding finish
finish-Agrees g h = ground arith

hold-Agrees : (g h : MaintainableQueueStore) → Agrees g → hold g ≡ some h → Agrees h
unfolding hold
hold-Agrees g h a e = ground arith

release-Agrees : (g : MaintainableQueueStore) → Agrees g → Agrees (release g)
unfolding release
release-Agrees g h = ground arith

Reachable-Agrees : (g : MaintainableQueueStore) → Reachable g → Agrees g
Reachable-Agrees _ start = unfold new_gate in refl
Reachable-Agrees _ (next g _ r called) = run-Agrees g (Reachable-Agrees g r)
Reachable-Agrees _ (next g _ r resumed) = resume-Agrees g (Reachable-Agrees g r)
Reachable-Agrees _ (next g _ r finished) = finish-Agrees g (Reachable-Agrees g r)
Reachable-Agrees _ (next g _ r (held_now h e)) = hold-Agrees g h (Reachable-Agrees g r) e
Reachable-Agrees _ (next g _ r released) = release-Agrees g (Reachable-Agrees g r)

unfoldable pub finish_all : ℕ → MaintainableQueueStore → MaintainableQueueStore
finish_all zero g = g
finish_all (suc n) g = finish_all n (finish g)

drains :
    (n : ℕ) (g : MaintainableQueueStore)
    → g.in_flight ≡ suc n
    → g.hold_state ≡ draining
    → (finish_all (suc n) g).hold_state ≡ granted
unfolding finish_all finish
drains zero g e d = ground arith
drains (suc n) g e d = drains n (finish g) (ground arith) (ground arith)

drains_all :
    (n : ℕ) (g : MaintainableQueueStore)
    → g.in_flight ≡ n
    → 0 < n
    → g.hold_state ≡ draining
    → (finish_all n g).hold_state ≡ granted
drains_all zero g e pos d = absurd (omega arith)
drains_all (suc n) g e pos d = drains n g e d

-- In every order of calls, holds and releases: once a hold is granted no call of the store runs, and
-- a call that begins then does not run either; a hold that waits is granted when the calls that run
-- have ended; and without a hold a call runs at once.
pub hold_is_quiet :
    (g : MaintainableQueueStore)
    → Reachable g
    → (g.hold_state ≡ granted → (g.in_flight ≡ 0) × ((run g).in_flight ≡ 0))
      × (g.hold_state ≡ draining → (finish_all g.in_flight g).hold_state ≡ granted)
      × (g.hold_state ≡ no_hold → (run g).in_flight ≡ g.in_flight + 1)
unfolding run
hold_is_quiet g r =
    let a = Reachable-Agrees g r in
    (λ h. ground arith, λ h. drains_all g.in_flight g refl (ground arith) h, λ h. ground arith)
