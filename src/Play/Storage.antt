-- ===== src/Play/Storage.antt =====
-- Settings that are written and read back (`saveSettings` and `loadSettings` of
-- apps/frontend/src/utils/responsible-play.ts).
use smile4money.Common.{
  ℕ, ◌≡◌, refl, true, ◌&&◌, Option, none, some, if◌then◌else◌, arith, subst, Option-cases,
  Bool-cases, inl, inr, or_else,
}
use smile4money.Common.Keys.{string_eq, ◌===◌}
use smile4money.Common.OrderedMap.{OrderedMap, get, set, get-set}
use smile4money.Common.Text.{Text, text_eq}
use smile4money.Play.{
  Json, PendingLimit, ResponsiblePlaySettings, Browser, is_stroops, storage_key, read_settings,
  settings_json, load_settings, save_settings, read_until, read_limit, read_value, read_pending,
  json_null, json_infinity, json_array, json_bool, json_number, json_string, json_object,
  limit_json, pending_json, pending, find_field, effective,
}

unfoldable pub IsAmount : Option Text → Type 0
unfolding is_stroops
IsAmount none = Unit
IsAmount (some s) = is_stroops s ≡ true

unfoldable pub IsPending : Option PendingLimit → Type 0
unfolding IsAmount
IsPending none = Unit
IsPending (some p) = IsAmount p.value

-- Every limit is a positive number of stroops in decimal digits.
unfoldable pub IsValid : ResponsiblePlaySettings → Type 0
unfolding IsAmount IsPending
IsValid s = IsAmount s.stake_limit × IsPending s.pending_limit

read_limit_json : (v : Option Text) → IsAmount v → read_value (some (limit_json v)) ≡ some v
unfolding read_value IsAmount
read_limit_json none h = refl
read_limit_json (some s) h = rw h refl

read_pending_json :
    (p : PendingLimit) → IsAmount p.value → read_pending (some (pending_json p)) ≡ some p
unfolding read_pending read_until
read_pending_json p h = rw (read_limit_json p.value h) refl

read_parts :
    (until : Option ℕ) (limit : Option Text) (p : Option PendingLimit)
    → let s : ResponsiblePlaySettings = record {
      excluded_until = until;
      stake_limit = limit;
      pending_limit = p;
    } in
      IsValid s → read_settings (some (settings_json s)) ≡ s
unfolding read_settings settings_json read_until read_limit IsValid
read_parts none none none v = unfold read_pending in refl
read_parts none (some l) none v = unfold read_pending in rw v.0 refl
read_parts (some u) none none v = unfold read_pending in refl
read_parts (some u) (some l) none v = unfold read_pending in rw v.0 refl
read_parts none none (some p) v = rw (read_pending_json p v.1) refl
read_parts none (some l) (some p) v = rw (v.0, read_pending_json p v.1) refl
read_parts (some u) none (some p) v = rw (read_pending_json p v.1) refl
read_parts (some u) (some l) (some p) v = rw (v.0, read_pending_json p v.1) refl

read_limit-IsAmount : (j : Option Json) → IsAmount (read_limit j)
unfolding read_limit IsAmount
read_limit-IsAmount none = tt
read_limit-IsAmount (some json_null) = tt
read_limit-IsAmount (some json_infinity) = tt
read_limit-IsAmount (some json_array) = tt
read_limit-IsAmount (some (json_bool b)) = tt
read_limit-IsAmount (some (json_number n)) = tt
read_limit-IsAmount (some (json_object fs)) = tt
read_limit-IsAmount (some (json_string s)) = elim (Bool-cases (is_stroops s)) [
  | inl e ↦ rw e e
  | inr e ↦ rw e tt
]

pending-IsPending : (j : Option Json) (at : Option ℕ) → IsPending (pending (read_value j) at)
unfolding read_value IsPending
pending-IsPending none at = tt
pending-IsPending (some json_null) none = tt
pending-IsPending (some json_null) (some n) = tt
pending-IsPending (some json_infinity) at = tt
pending-IsPending (some json_array) at = tt
pending-IsPending (some (json_bool b)) at = tt
pending-IsPending (some (json_number n)) at = tt
pending-IsPending (some (json_object fs)) at = tt
pending-IsPending (some (json_string s)) none = elim (Bool-cases (is_stroops s)) [
  | inl e ↦ rw e tt
  | inr e ↦ rw e tt
]
pending-IsPending (some (json_string s)) (some n) = elim (Bool-cases (is_stroops s)) [
  | inl e ↦ rw e e
  | inr e ↦ rw e tt
]

read_pending-IsPending : (j : Option Json) → IsPending (read_pending j)
unfolding read_pending IsPending
read_pending-IsPending none = tt
read_pending-IsPending (some json_null) = tt
read_pending-IsPending (some json_infinity) = tt
read_pending-IsPending (some json_array) = tt
read_pending-IsPending (some (json_bool b)) = tt
read_pending-IsPending (some (json_number n)) = tt
read_pending-IsPending (some (json_string s)) = tt
read_pending-IsPending (some (json_object fs)) =
    pending-IsPending (find_field "value" fs) (read_until (find_field "effectiveAt" fs))

read_settings-IsValid : (j : Option Json) → IsValid (read_settings j)
unfolding read_settings IsValid
read_settings-IsValid none = (tt, tt)
read_settings-IsValid (some json_null) = (tt, tt)
read_settings-IsValid (some json_infinity) = (tt, tt)
read_settings-IsValid (some json_array) = (tt, tt)
read_settings-IsValid (some (json_bool b)) = (tt, tt)
read_settings-IsValid (some (json_number n)) = (tt, tt)
read_settings-IsValid (some (json_string s)) = (tt, tt)
read_settings-IsValid (some (json_object fs)) = (
  read_limit-IsAmount (find_field "stakeLimit" fs),
  read_pending-IsPending (find_field "pendingLimit" fs),
)

-- Whatever stands in the storage, what is loaded is valid.
pub load_settings-IsValid : (address : Text) (b : Browser) → IsValid (load_settings address b)
unfolding load_settings IsValid
load_settings-IsValid address b = elim (Bool-cases b.available) [
  | inl e ↦ rw e (read_settings-IsValid (or_else (get (storage_key address) b.items) none))
  | inr e ↦ rw e (tt, tt)
]

pub effective-IsValid :
    (now : ℕ) (s : ResponsiblePlaySettings) → IsValid s → IsValid (effective now s)
unfolding effective IsValid
effective-IsValid now s v = elim (Option-cases s.pending_limit) [
  | inl e ↦ ground arith
  | inr (p, e) ↦ ground (arith, subst IsPending e v.1)
]

pub read_saved :
    (s : ResponsiblePlaySettings) → IsValid s → read_settings (some (settings_json s)) ≡ s
read_saved s v = read_parts s.excluded_until s.stake_limit s.pending_limit v

-- Keys are equal when the addresses are.
pub get_item :
    (address other : Text) (v : Option Json) (m : OrderedMap Text (Option Json))
    → get (storage_key other) (set (storage_key address) v m)
      ≡ (if address === other then some v else get (storage_key other) m)
unfolding storage_key
get_item address other v m = get-set (storage_key address) (storage_key other) v m

pub load-save :
    (address other : Text) (s : ResponsiblePlaySettings) (b : Browser)
    → IsValid s
    → let r = save_settings address s b in
      load_settings other r.0 ≡ (if r.1 && (address === other) then s else load_settings other b)
unfolding load_settings save_settings
load-save address other s b v =
    ground (arith, get_item address other (some (settings_json s)) b.items, read_saved s v)
