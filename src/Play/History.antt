-- ===== src/Play/History.antt =====
-- What the players of a browser do with the controls, in any order, while its storage may come and go:
-- the calls of apps/frontend/src/utils/responsible-play.ts one after the other.
use smile4money.Common.{
  ℕ, ◌≡◌, refl, Bool, true, false, ◌&&◌, not, Option, none, some, List, [], ◌∷◌, if◌then◌else◌,
  arith, or_else, Bool-cases, inl, inr, ◌+◌, ltb, max,
}
use smile4money.Common.Keys.{◌===◌}
use smile4money.Common.OrderedMap.{get}
use smile4money.Common.Text.{Text, text_eq}
use smile4money.Play.{
  Browser, ResponsiblePlaySettings, SelfExclusionPeriod, LimitSet, effective,
  self_exclusion_periods, is_positive, tightens, amount, to_string, limit_increase_delay_ms,
  is_stroops, effective_settings, change_limit, storage_key, read_settings, settings_json,
  no_settings, load_settings, save_settings, start_self_exclusion, set_stake_limit,
}
use smile4money.Play.Storage.{
  get_item, read_saved, IsValid, IsAmount, effective-IsValid, load_settings-IsValid,
}
use smile4money.Common.Digits.{digits, digits_are_digits, digits_not_empty, value-digits}

pub data Event : Type 0 where
  exclude : Text → SelfExclusionPeriod → ℕ → Event
  limit : Text → Option ℕ → ℕ → Event
  storage_changes : Bool → Bool → Event

abbrev pub after_limit : Option (Browser × LimitSet) → Browser → Browser
after_limit none b = b
after_limit (some r) b = r.0

unfoldable pub step : Event → Browser → Browser
step (exclude address period now) b = (start_self_exclusion address period now b).0
step (limit address l now) b = after_limit (set_stake_limit address l now b) b
step (storage_changes available full) b = record b { available = available; full = full }

unfoldable pub after_all : List Event → Browser → Browser
after_all [] b = b
after_all (e ∷ es) b = after_all es (step e b)

-- What the storage holds for an address, whether or not it can be reached.
unfoldable pub stored : Text → Browser → ResponsiblePlaySettings
stored address b = read_settings (or_else (get (storage_key address) b.items) none)

pub load-stored :
    (address : Text) (b : Browser)
    → load_settings address b ≡ (if b.available then stored address b else no_settings)
unfolding load_settings stored
load-stored address b = refl

pub saved_available :
    (address : Text) (s : ResponsiblePlaySettings) (b : Browser)
    → (save_settings address s b).1 ≡ b.available && not b.full
unfolding save_settings
saved_available address s b = ground arith

pub stored-save :
    (address other : Text) (s : ResponsiblePlaySettings) (b : Browser)
    → IsValid s
    → stored other (save_settings address s b).0
      ≡ (if (b.available && not b.full) && (address === other) then s else stored other b)
unfolding stored save_settings
stored-save address other s b v =
    ground (arith, get_item address other (some (settings_json s)) b.items, read_saved s v)

-- What an event makes of the settings of its address, once they are saved.
unfoldable pub next : Event → ResponsiblePlaySettings → ResponsiblePlaySettings
unfolding effective self_exclusion_periods is_positive tightens amount to_string
next (exclude address period now) s = record (effective now s) {
  excluded_until =
      some (max (now + self_exclusion_periods period) (or_else (effective now s).excluded_until 0));
}
next (limit address l now) s =
    if is_positive l
    then (if tightens l (amount (effective now s).stake_limit)
        then record (effective now s) { stake_limit = to_string l; pending_limit = none }
        else record (effective now s) {
          pending_limit =
              some (record { value = to_string l; effective_at = now + limit_increase_delay_ms });
        })
    else s
next (storage_changes available full) s = s

abbrev pub is_about : Text → Event → Bool
is_about address (exclude other period now) = other === address
is_about address (limit other l now) = other === address
is_about address (storage_changes available full) = false

is_stroops-digits : (n : ℕ) → is_stroops (digits n) ≡ ltb 0 n
unfolding is_stroops
is_stroops-digits n = rw (digits_are_digits n, digits_not_empty n, value-digits n) refl

to_string-IsAmount : (l : Option ℕ) → is_positive l ≡ true → IsAmount (to_string l)
unfolding is_positive to_string IsAmount
to_string-IsAmount none h = tt
to_string-IsAmount (some n) h = rw (is_stroops-digits n) h

pub next-IsValid : (e : Event) (s : ResponsiblePlaySettings) → IsValid s → IsValid (next e s)
unfolding next effective IsValid
next-IsValid (exclude address period now) s v = unfold effective in effective-IsValid now s v
next-IsValid (storage_changes available full) s v = v
next-IsValid (limit address l now) s v =
    ground (arith, to_string-IsAmount l, effective-IsValid now s v)

exclude-save :
    (address : Text) (period : SelfExclusionPeriod) (now : ℕ) (b : Browser)
    → step (exclude address period now) b
      ≡ (save_settings address (next (exclude address period now) (load_settings address b)) b).0
unfolding step start_self_exclusion effective_settings next
exclude-save address period now b = refl

limit-save :
    (address : Text) (l : Option ℕ) (now : ℕ) (b : Browser)
    → is_positive l ≡ true
    → step (limit address l now) b
      ≡ (save_settings address (next (limit address l now) (load_settings address b)) b).0
unfolding step set_stake_limit effective_settings next change_limit
limit-save address l now b h = ground (arith, h)

limit_refused :
    (address : Text) (l : Option ℕ) (now : ℕ) (b : Browser)
    → is_positive l ≡ false
    → step (limit address l now) b ≡ b
unfolding step set_stake_limit
limit_refused address l now b h = rw h refl

next_refused :
    (address : Text) (l : Option ℕ) (now : ℕ) (s : ResponsiblePlaySettings)
    → is_positive l ≡ false
    → next (limit address l now) s ≡ s
unfolding next
next_refused address l now s h = rw h refl

saved-next :
    (address other : Text) (e : Event) (b : Browser)
    → stored address (save_settings other (next e (load_settings other b)) b).0 ≡ (
        if (other === address) && (b.available && not b.full)
        then next e (stored address b)
        else stored address b)
saved-next address other e b = ground (
  arith,
  load-stored other b,
  text_eq.beq_iff other address,
  stored-save other address (next e (load_settings other b)) b
      (next-IsValid e (load_settings other b) (load_settings-IsValid other b)),
)

-- Each event acts on the settings of its address only, and only if they can be written.
pub stored-step :
    (address : Text) (e : Event) (b : Browser)
    → stored address (step e b) ≡ (
        if is_about address e && (b.available && not b.full)
        then next e (stored address b)
        else stored address b)
stored-step address (storage_changes available full) b = unfold stored step in refl
stored-step address (exclude other period now) b =
    ground (
      arith,
      exclude-save other period now b,
      saved-next address other (exclude other period now) b,
    )
stored-step address (limit other l now) b = elim (Bool-cases (is_positive l)) [
  | inl h ↦
      ground (arith, limit-save other l now b h, saved-next address other (limit other l now) b)
  | inr h ↦
      ground (arith, limit_refused other l now b h, next_refused other l now (stored address b) h)
]
