-- ===== src/Play/Limits.antt =====
-- A stake limit that was set (`setStakeLimit` and `checkWagerAllowed` of
-- apps/frontend/src/utils/responsible-play.ts).
use smile4money.Common.{
  ℕ, ◌≡◌, ◌≢◌, ◌≤◌, ◌<◌, ◌+◌, refl, ap, sym, ◌∙◌, Bool, true, ◌||◌, Option, none, some, List, [],
  ◌∷◌, if◌then◌else◌, arith, leb,
}
use smile4money.Common.Text.{Text, text_eq}
use smile4money.Common.Digits.{value-digits}
use smile4money.Play.{
  Browser, SelfExclusionPeriod, ResponsiblePlaySettings, PendingLimit, load_settings, effective,
  check_wager_allowed, active_exclusion, allowed, effective_settings, limit_increase_delay_ms,
  amount, to_string, is_positive, set_stake_limit, LimitSet, change_limit, save_settings, tightens,
}
use smile4money.Play.Storage.{load_settings-IsValid, load-save}
use smile4money.Play.History.{
  next-IsValid, Event, exclude, limit, storage_changes, step, after_all, stored, next, load-stored,
  stored-step,
}

-- The limit is there and not above `l`, and no change of it is due before `at`.
abbrev AtMost : ℕ → Option ℕ → Type 0
AtMost l none = ⊥
AtMost l (some n) = n ≤ l

abbrev WaitsUntil : ℕ → Option PendingLimit → Type 0
WaitsUntil at none = Unit
WaitsUntil at (some p) = at ≤ p.effective_at

abbrev Holds : ℕ → ℕ → ResponsiblePlaySettings → Type 0
Holds l at s = AtMost l (amount s.stake_limit) × WaitsUntil at s.pending_limit

-- The calls are made from `from` to `until`.
abbrev pub IsWithin : ℕ → ℕ → List Event → Type 0
IsWithin from until [] = Unit
IsWithin from until (exclude address period now ∷ es) =
    ((from ≤ now) × (now ≤ until)) × IsWithin from until es
IsWithin from until (limit address l now ∷ es) =
    ((from ≤ now) × (now ≤ until)) × IsWithin from until es
IsWithin from until (storage_changes available full ∷ es) = IsWithin from until es

effective_waits :
    (now at : ℕ) (s : ResponsiblePlaySettings)
    → WaitsUntil at s.pending_limit
    → now < at
    → effective now s ≡ s
unfolding effective
effective_waits now at s h lt = ground arith

amount-to_string : (l : Option ℕ) → amount (to_string l) ≡ l
unfolding amount to_string
amount-to_string none = refl
amount-to_string (some n) = rw (value-digits n) refl

exclude-Holds :
    (l from : ℕ) (address : Text) (period : SelfExclusionPeriod) (now : ℕ)
    (s : ResponsiblePlaySettings)
    → now < from + limit_increase_delay_ms
    → Holds l (from + limit_increase_delay_ms) s
    → Holds l (from + limit_increase_delay_ms) (next (exclude address period now) s)
unfolding next
exclude-Holds l from address period now s lt h =
    ground (arith, effective_waits now (from + limit_increase_delay_ms) s h.1 lt)

limit-Holds :
    (l from : ℕ) (address : Text) (m : Option ℕ) (now : ℕ) (s : ResponsiblePlaySettings)
    → from ≤ now
    → now < from + limit_increase_delay_ms
    → Holds l (from + limit_increase_delay_ms) s
    → Holds l (from + limit_increase_delay_ms) (next (limit address m now) s)
unfolding next tightens
limit-Holds l from address none now s le lt h =
    ground (arith, effective_waits now (from + limit_increase_delay_ms) s h.1 lt)
limit-Holds l from address (some n) now s le lt h = ground (
  arith,
  effective_waits now (from + limit_increase_delay_ms) s h.1 lt,
  amount-to_string (some n),
)

step-Holds :
    (l from until : ℕ) (address : Text) (e : Event) (es : List Event) (b : Browser)
    → IsWithin from until (e ∷ es)
    → until < from + limit_increase_delay_ms
    → Holds l (from + limit_increase_delay_ms) (stored address b)
    → Holds l (from + limit_increase_delay_ms) (stored address (step e b))
step-Holds l from until address (exclude other period now) es b w lt h = ground (
  arith,
  stored-step address (exclude other period now) b,
  exclude-Holds l from other period now (stored address b) (omega (arith, w.0.1)) h,
)
step-Holds l from until address (limit other m now) es b w lt h = ground (
  arith,
  stored-step address (limit other m now) b,
  limit-Holds l from other m now (stored address b) w.0.0 (omega (arith, w.0.1)) h,
)
step-Holds l from until address (storage_changes available full) es b w lt h =
    ground (arith, stored-step address (storage_changes available full) b)

rest-IsWithin :
    (from until : ℕ) (e : Event) (es : List Event)
    → IsWithin from until (e ∷ es)
    → IsWithin from until es
rest-IsWithin from until (exclude address period now) es w = w.1
rest-IsWithin from until (limit address m now) es w = w.1
rest-IsWithin from until (storage_changes available full) es w = w

after_all-Holds :
    (l from until : ℕ) (address : Text) (es : List Event) (b : Browser)
    → IsWithin from until es
    → until < from + limit_increase_delay_ms
    → Holds l (from + limit_increase_delay_ms) (stored address b)
    → Holds l (from + limit_increase_delay_ms) (stored address (after_all es b))
unfolding after_all
after_all-Holds l from until address [] b w lt h = h
after_all-Holds l from until address (e ∷ es) b w lt h =
    after_all-Holds l from until address es (step e b) (rest-IsWithin from until e es w) lt
      (step-Holds l from until address e es b w lt h)

refused_above :
    (l from : ℕ) (address : Text) (stake now : ℕ) (b : Browser)
    → Holds l (from + limit_increase_delay_ms) (stored address b)
    → now < from + limit_increase_delay_ms
    → l < stake
    → b.available ≡ true
    → check_wager_allowed address stake now b ≢ allowed
unfolding check_wager_allowed active_exclusion effective_settings
refused_above l from address stake now b h lt above there = ground (
  arith,
  load-stored address b,
  effective_waits now (from + limit_increase_delay_ms) (stored address b) h.1 lt,
)

-- A limit that is in force, with no change of it waiting, holds for the next 24 hours: whatever the
-- players of the browser do with the controls in that time, a wager of the address above the limit is
-- refused whenever the storage can be reached.
pub limit_holds :
    (address : Text) (es : List Event) (b : Browser) (l from until stake : ℕ)
    → amount (load_settings address b).stake_limit ≡ some l
    → (load_settings address b).pending_limit ≡ none
    → IsWithin from until es
    → until < from + limit_increase_delay_ms
    → l < stake
    → (after_all es b).available ≡ true
    → check_wager_allowed address stake until (after_all es b) ≢ allowed
limit_holds address es b l from until stake h none_waits w lt above there =
    refused_above l from address stake until (after_all es b)
      (after_all-Holds l from until address es b w lt
        (unfold amount in ground (arith, load-stored address b)))
      lt above there

unfoldable pub limit_at : Text → ℕ → Browser → Option ℕ
limit_at address now b = amount (effective_settings address now b).stake_limit

next-limit :
    (address : Text) (l : Option ℕ) (now t : ℕ) (s : ResponsiblePlaySettings)
    → is_positive l ≡ true
    → now ≤ t
    → amount (effective t (next (limit address l now) s)).stake_limit ≡ (
        if tightens l (amount (effective now s).stake_limit)
          || leb (now + limit_increase_delay_ms) t
        then l
        else amount (effective now s).stake_limit)
unfolding next effective
next-limit address l now t s pos le = ground (arith, amount-to_string l)

saved_limit :
    (address : Text) (l : Option ℕ) (now : ℕ) (b : Browser) (r : Browser × LimitSet)
    → set_stake_limit address l now b ≡ some r
    → let w = save_settings address (next (limit address l now) (load_settings address b)) b in
      (is_positive l ≡ true)
      × (r.0 ≡ w.0)
      × (r.1.saved ≡ w.1)
      × (r.1.effective_at
          ≡ (if tightens l (limit_at address now b) then now else now + limit_increase_delay_ms))
unfolding set_stake_limit effective_settings change_limit next limit_at
saved_limit address l now b r h = ground arith

saved_load :
    (address : Text) (l : Option ℕ) (now : ℕ) (b : Browser)
    → let new = next (limit address l now) (load_settings address b) in
      let w = save_settings address new b in w.1 ≡ true → load_settings address w.0 ≡ new
saved_load address l now b h =
    let new = next (limit address l now) (load_settings address b) in
    ground (
      arith,
      load-save address address new b (
          next-IsValid (limit address l now) (load_settings address b)
            (load_settings-IsValid address b)),
      text_eq.beq_iff address address,
    )

due_at :
    (strict : Bool) (now t at : ℕ) (l old : Option ℕ)
    → at ≡ (if strict then now else now + limit_increase_delay_ms)
    → now ≤ t
    → (if strict || leb (now + limit_increase_delay_ms) t then l else old)
      ≡ (if leb at t then l else old)
due_at strict now t at l old h le = ground arith

-- A limit that is accepted and saved takes the place of the one in force from the time that the call
-- returns on: at once if it is not above the one in force, and 24 hours later if it is above it or
-- removes it; until then the old one stays in force.
pub set_stake_limit_lem :
    (address : Text) (l : Option ℕ) (now t : ℕ) (b : Browser) (r : Browser × LimitSet)
    → set_stake_limit address l now b ≡ some r
    → r.1.saved ≡ true
    → now ≤ t
    → limit_at address t r.0 ≡ (if leb r.1.effective_at t then l else limit_at address now b)
set_stake_limit_lem address l now t b r h saved le =
    let facts = saved_limit address l now b r h in
    let s = load_settings address b in
    let new = next (limit address l now) s in
    let loaded : load_settings address r.0 ≡ new =
      ap (load_settings address) facts.1 ∙ saved_load address l now b (sym facts.2 ∙ saved) in
    unfold limit_at effective_settings in
    (ap (λ x. amount (effective t x).stake_limit) loaded
      ∙ next-limit address l now t s facts.0 le
      ∙ due_at (tightens l (amount (effective now s).stake_limit)) now t r.1.effective_at l
          (amount (effective now s).stake_limit) facts.3 le)
