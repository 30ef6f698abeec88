-- ===== src/Breaker/Restarts.antt =====
-- A breaker over the life of a deployment: calls, and restarts of the process that read back what was
-- persisted (apps/backend/src/services/circuit-breaker.ts).
use smile4money.Common.{
  ℕ, ◌≡◌, refl, ◌∙◌, sym, subst, ap, true, Option, none, some, List, [], ◌∷◌, arith, Bool-cases,
  inl, inr,
}
use smile4money.Breaker.{
  CircuitBreakerConfig, CircuitBreaker, PersistedState, get_snapshot, new,
  initialize_circuit_breaker,
}
use smile4money.Breaker.Calls
use smile4money.Breaker.Calls.{Call, step}
use smile4money.Breaker.Invariant.{
  IsConfigured, IsConsistent, IsSound, new-IsConsistent, step-IsConsistent, config-step,
}
use smile4money.Breaker.Durable.{last_persisted, IsSaved, step-IsSaved, restored_snapshot, is_stale}

pub data Event : Type 0 where
  succeeds resets : Event
  fails asks restarts : ℕ → Event

-- A restart makes a new breaker with the same settings from the newest snapshot that was persisted.
unfoldable pub happen : CircuitBreakerConfig → Event → CircuitBreaker → CircuitBreaker
unfolding step initialize_circuit_breaker
happen c succeeds b = step b Calls.succeeds
happen c resets b = step b Calls.resets
happen c (fails now) b = step b (Calls.fails now)
happen c (asks now) b = step b (Calls.asks now)
happen c (restarts now) b = initialize_circuit_breaker c (last_persisted b.effects) now

unfoldable pub live : CircuitBreakerConfig → List Event → CircuitBreaker → CircuitBreaker
live c [] b = b
live c (e ∷ es) b = live c es (happen c e b)

module _ (c : CircuitBreakerConfig) (h : IsConfigured c) where
  abbrev lasting : CircuitBreakerConfig
  lasting = record c { has_on_persist = true }

  record IsKept (b : CircuitBreaker) : Type 0 where
    same_settings : b.config ≡ lasting
    saved : IsSaved b
    consistent : IsConsistent c (get_snapshot b)

  recast : (p : PersistedState) → IsConsistent lasting p → IsConsistent c p
  recast p v = record {
    closed_below = v.closed_below;
    half_open_below = v.half_open_below;
    open_since = v.open_since;
    half_open_since = v.half_open_since;
    closed_fresh = v.closed_fresh;
  }

  cast : (p : PersistedState) → IsConsistent c p → IsConsistent lasting p
  cast p v = record {
    closed_below = v.closed_below;
    half_open_below = v.half_open_below;
    open_since = v.open_since;
    half_open_since = v.half_open_since;
    closed_fresh = v.closed_fresh;
  }

  -- A call that restores nothing.
  call-IsKept : (k : Call) (b : CircuitBreaker) → IsSound lasting k → IsKept b → IsKept (step b k)
  call-IsKept k b sound v = record {
    same_settings = config-step b k ∙ v.same_settings;
    saved = step-IsSaved b k (ap (λ d. d.has_on_persist) v.same_settings) v.saved;
    consistent = recast (get_snapshot (step b k)) (
        step-IsConsistent lasting b k v.same_settings
          (record { failures = h.failures; successes = h.successes }) sound
          (cast (get_snapshot b) v.consistent));
  }

  restart-IsSaved :
      (o : Option PersistedState) (now : ℕ) → IsSaved (initialize_circuit_breaker c o now)
  unfolding initialize_circuit_breaker get_snapshot
  restart-IsSaved none now = inr (refl, refl)
  restart-IsSaved (some p) now = ground arith

  restart_settings :
      (o : Option PersistedState) (now : ℕ) → (initialize_circuit_breaker c o now).config ≡ lasting
  unfolding initialize_circuit_breaker
  restart_settings none now = refl
  restart_settings (some p) now = ground arith

  restart-IsKept :
      (now : ℕ) (b : CircuitBreaker)
      → IsKept b
      → IsKept (initialize_circuit_breaker c (last_persisted b.effects) now)
  restart-IsKept now b v =
      let restored = restored_snapshot c b now v.same_settings v.saved in
      record {
        same_settings = restart_settings (last_persisted b.effects) now;
        saved = restart-IsSaved (last_persisted b.effects) now;
        consistent = subst (IsConsistent c) (sym restored) (elim (Bool-cases (is_stale b now)) [
          | inl e ↦ rw e (new-IsConsistent c h)
          | inr e ↦ rw e v.consistent
        ]);
      }

  happen-IsKept : (e : Event) (b : CircuitBreaker) → IsKept b → IsKept (happen c e b)
  unfolding happen
  happen-IsKept succeeds b v = call-IsKept Calls.succeeds b tt v
  happen-IsKept resets b v = call-IsKept Calls.resets b tt v
  happen-IsKept (fails now) b v = call-IsKept (Calls.fails now) b tt v
  happen-IsKept (asks now) b v = call-IsKept (Calls.asks now) b tt v
  happen-IsKept (restarts now) b v = restart-IsKept now b v

  live-IsKept : (es : List Event) (b : CircuitBreaker) → IsKept b → IsKept (live c es b)
  unfolding live
  live-IsKept [] b v = v
  live-IsKept (e ∷ es) b v = live-IsKept es (happen c e b) (happen-IsKept e b v)

  started-IsConsistent :
      (now : ℕ) → IsConsistent c (get_snapshot (initialize_circuit_breaker c none now))
  unfolding initialize_circuit_breaker get_snapshot
  started-IsConsistent now = unfold new in new-IsConsistent c h

-- With positive thresholds: a breaker that starts on an empty store and goes through any calls and any
-- restarts of its process, with the same settings, from what it persisted last, is consistent. It is
-- closed only below its failure threshold and with no attempt on record, half open only below its
-- success threshold, and has a known opening time while it is not closed.
pub live-IsConsistent :
    (c : CircuitBreakerConfig) (es : List Event) (started : ℕ)
    → IsConfigured c
    → IsConsistent c (get_snapshot (live c es (initialize_circuit_breaker c none started)))
live-IsConsistent c es started h =
    let b = initialize_circuit_breaker c none started in
    let kept : IsKept c h b = record {
      same_settings = restart_settings c h none started;
      saved = restart-IsSaved c h none started;
      consistent = started-IsConsistent c h started;
    } in
    (live-IsKept c h es b kept).consistent
