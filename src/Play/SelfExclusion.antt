-- ===== src/Play/SelfExclusion.antt =====
-- A self-exclusion that was started (`startSelfExclusion` and `checkWagerAllowed` of
-- apps/frontend/src/utils/responsible-play.ts).
use smile4money.Common.{
  ℕ, ◌≡◌, ◌≤◌, ◌<◌, true, Option, none, some, List, [], ◌∷◌, arith, Option-cases, inl, inr,
}
use smile4money.Common.Text.{Text, text_eq}
use smile4money.Play.{
  Browser, ResponsiblePlaySettings, load_settings, effective, check_wager_allowed, active_exclusion,
  self_excluded,
}
use smile4money.Play.History.{
  Event, exclude, limit, storage_changes, step, after_all, stored, next, load-stored, stored-step,
}

-- An end that is not before `u`.
abbrev EndsLate : ℕ → Option ℕ → Type 0
EndsLate u none = ⊥
EndsLate u (some until) = u ≤ until

effective_until :
    (now : ℕ) (s : ResponsiblePlaySettings) → (effective now s).excluded_until ≡ s.excluded_until
unfolding effective
effective_until now s = ground arith

next-EndsLate :
    (u : ℕ) (e : Event) (s : ResponsiblePlaySettings)
    → EndsLate u s.excluded_until
    → EndsLate u (next e s).excluded_until
unfolding next
next-EndsLate u (exclude address period now) s h = ground (arith, effective_until now s)
next-EndsLate u (limit address l now) s h = ground (arith, effective_until now s)
next-EndsLate u (storage_changes available full) s h = h

step-EndsLate :
    (u : ℕ) (address : Text) (e : Event) (b : Browser)
    → EndsLate u (stored address b).excluded_until
    → EndsLate u (stored address (step e b)).excluded_until
step-EndsLate u address e b h =
    ground (arith, stored-step address e b, next-EndsLate u e (stored address b))

after_all-EndsLate :
    (u : ℕ) (address : Text) (es : List Event) (b : Browser)
    → EndsLate u (stored address b).excluded_until
    → EndsLate u (stored address (after_all es b)).excluded_until
unfolding after_all
after_all-EndsLate u address [] b h = h
after_all-EndsLate u address (e ∷ es) b h =
    after_all-EndsLate u address es (step e b) (step-EndsLate u address e b h)

refused_until :
    (u : ℕ) (address : Text) (stake now : ℕ) (b : Browser)
    → EndsLate u (stored address b).excluded_until
    → now < u
    → b.available ≡ true
    → (until : ℕ) × (u ≤ until) × (check_wager_allowed address stake now b ≡ self_excluded until)
unfolding check_wager_allowed active_exclusion
refused_until u address stake now b h before there =
    elim (Option-cases (stored address b).excluded_until) [
      | inl p ↦ ground arith
      | inr (until, p) ↦ (until, ground arith, ground (arith, load-stored address b))
    ]

-- While an exclusion of an address lasts, every wager of it is refused, whatever the players of the
-- browser do with the controls and whether or not their changes could be saved, as soon as the storage
-- can be reached; and the end that is given is never before the one that was set.
pub exclusion_lasts :
    (address : Text) (es : List Event) (b : Browser) (u stake now : ℕ)
    → (load_settings address b).excluded_until ≡ some u
    → now < u
    → (after_all es b).available ≡ true
    → (until : ℕ) × (u ≤ until)
      × (check_wager_allowed address stake now (after_all es b) ≡ self_excluded until)
exclusion_lasts address es b u stake now h before there =
    refused_until u address stake now (after_all es b)
      (after_all-EndsLate u address es b (ground (arith, load-stored address b))) before there
