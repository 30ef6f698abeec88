-- ===== src/Play.antt =====
-- Responsible-play controls, kept per address in the browser's storage:
-- apps/frontend/src/utils/responsible-play.ts. Amounts are in stroops. The texts shown to the player
-- are left out.
pub mod Storage
pub mod History
pub mod SelfExclusion
pub mod Limits
mod Examples
use smile4money.Common.{
  ℕ, ◌+◌, ◌*◌, Bool, true, false, ◌&&◌, not, Option, none, some, [], ◌∷◌, ◌++◌, String, max, ltb,
  leb, if◌then◌else◌, or_else,
}
use smile4money.Common.Keys.{string_eq, ◌===◌}
use smile4money.Common.OrderedMap.{OrderedMap, get, set}
use smile4money.Common.Text.{Text, text, text_eq, is_empty, is_digit, all_chars}
use smile4money.Common.Digits.{digits, value}

-- What `JSON.parse` returns. No field of an array is one that the settings have.
mutual
  pub data Json : Type 0 where
    json_null json_infinity json_array : Json
    json_bool : Bool → Json
    json_number : ℕ → Json
    json_string : Text → Json
    json_object : Fields → Json

  pub data Fields : Type 0 where
    no_fields : Fields
    field : String → Json → Fields → Fields

abbrev pub find_field : String → Fields → Option Json
find_field name no_fields = none
find_field name (field f v fs) = if f === name then some v else find_field name fs

-- `none` in `value` removes the limit.
pub record PendingLimit : Type 0 where
  pub value : Option Text
  pub effective_at : ℕ

pub record ResponsiblePlaySettings : Type 0 where
  pub excluded_until : Option ℕ
  pub stake_limit : Option Text
  pub pending_limit : Option PendingLimit

-- An item is `none` when its text is no JSON. `available` says whether the storage can be reached,
-- `full` whether it refuses what is written.
pub record Browser : Type 0 where
  pub available : Bool
  pub full : Bool
  pub items : OrderedMap Text (Option Json)

pub data SelfExclusionPeriod : Type 0 where
  hours24 days7 days30 months6 : SelfExclusionPeriod

unfoldable pub self_exclusion_periods : SelfExclusionPeriod → ℕ
self_exclusion_periods hours24 = 24 * 60 * 60 * 1000
self_exclusion_periods days7 = 7 * 24 * 60 * 60 * 1000
self_exclusion_periods days30 = 30 * 24 * 60 * 60 * 1000
self_exclusion_periods months6 = 182 * 24 * 60 * 60 * 1000

abbrev pub limit_increase_delay_ms : ℕ
limit_increase_delay_ms = 24 * 60 * 60 * 1000

unfoldable pub storage_key : Text → Text
storage_key address = text "smile4money:responsible-play:" ++ address

unfoldable pub is_stroops : Text → Bool
unfolding value
is_stroops s = (not (is_empty s) && all_chars is_digit s) && ltb 0 (value 0 s)

abbrev pub no_settings : ResponsiblePlaySettings
no_settings = record { excluded_until = none; stake_limit = none; pending_limit = none }

unfoldable pub read_until : Option Json → Option ℕ
read_until (some (json_number n)) = some n
read_until _ = none

unfoldable pub read_limit : Option Json → Option Text
unfolding is_stroops
read_limit (some (json_string s)) = if is_stroops s then some s else none
read_limit _ = none

unfoldable pub read_value : Option Json → Option (Option Text)
unfolding is_stroops
read_value (some json_null) = some none
read_value (some (json_string s)) = if is_stroops s then some (some s) else none
read_value _ = none

abbrev pub pending : Option (Option Text) → Option ℕ → Option PendingLimit
pending (some v) (some at) = some (record { value = v; effective_at = at })
pending _ _ = none

-- An infinite time is taken for malformed here, while the source keeps it, for a change that is never due.
unfoldable pub read_pending : Option Json → Option PendingLimit
unfolding read_value read_until
read_pending (some (json_object fs)) =
    pending (read_value (find_field "value" fs)) (read_until (find_field "effectiveAt" fs))
read_pending _ = none

unfoldable pub read_settings : Option Json → ResponsiblePlaySettings
unfolding read_until read_limit read_pending
read_settings (some (json_object fs)) = record {
  excluded_until = read_until (find_field "excludedUntil" fs);
  stake_limit = read_limit (find_field "stakeLimit" fs);
  pending_limit = read_pending (find_field "pendingLimit" fs);
}
read_settings _ = no_settings

unfoldable pub load_settings : Text → Browser → ResponsiblePlaySettings
unfolding storage_key read_settings
load_settings address b =
    if b.available
    then read_settings (or_else (get (storage_key address) b.items) none)
    else no_settings

unfoldable pub effective : ℕ → ResponsiblePlaySettings → ResponsiblePlaySettings
effective now s = elim s.pending_limit [
  | none ↦ s
  | some p ↦
      if leb p.effective_at now then record s { stake_limit = p.value; pending_limit = none } else s
]

unfoldable pub effective_settings : Text → ℕ → Browser → ResponsiblePlaySettings
unfolding load_settings effective
effective_settings address now b = effective now (load_settings address b)

-- `JSON.stringify` leaves out the fields that are not there.
abbrev pub optional : {A : Type 0} → String → (A → Json) → Option A → Fields → Fields
optional name f none fs = fs
optional name f (some a) fs = field name (f a) fs

abbrev pub limit_json : Option Text → Json
limit_json none = json_null
limit_json (some s) = json_string s

abbrev pub pending_json : PendingLimit → Json
pending_json p = json_object (
    field "value" (limit_json p.value) (field "effectiveAt" (json_number p.effective_at) no_fields))

unfoldable pub settings_json : ResponsiblePlaySettings → Json
settings_json s = json_object (
    optional "excludedUntil" json_number s.excluded_until (
      optional "stakeLimit" json_string s.stake_limit
        (optional "pendingLimit" pending_json s.pending_limit no_fields)))

unfoldable pub save_settings : Text → ResponsiblePlaySettings → Browser → Browser × Bool
unfolding storage_key settings_json
save_settings address s b =
    if b.available && not b.full
    then (record b { items = set (storage_key address) (some (settings_json s)) b.items }, true)
    else (b, false)

unfoldable pub active_exclusion : Text → ℕ → Browser → Option ℕ
unfolding load_settings
active_exclusion address now b = elim (load_settings address b).excluded_until [
  | none ↦ none
  | some until ↦ if ltb now until then some until else none
]

pub record Exclusion : Type 0 where
  pub saved : Bool
  pub until : ℕ

unfoldable pub start_self_exclusion : Text → SelfExclusionPeriod → ℕ → Browser → Browser × Exclusion
unfolding effective_settings self_exclusion_periods save_settings
start_self_exclusion address period now b =
    let settings = effective_settings address now b in
    let until = max (now + self_exclusion_periods period) (or_else settings.excluded_until 0) in
    let r = save_settings address (record settings { excluded_until = some until }) b in
    (r.0, record { saved = r.1; until = until })

pub record LimitSet : Type 0 where
  pub saved : Bool
  pub effective_at : ℕ

unfoldable pub amount : Option Text → Option ℕ
unfolding value
amount none = none
amount (some s) = some (value 0 s)

unfoldable pub tightens : Option ℕ → Option ℕ → Bool
tightens none current = false
tightens (some limit) none = true
tightens (some limit) (some current) = leb limit current

unfoldable pub to_string : Option ℕ → Option Text
unfolding digits
to_string none = none
to_string (some n) = some (digits n)

unfoldable pub change_limit :
    Text → Option ℕ → ℕ → ResponsiblePlaySettings → Browser → Browser × LimitSet
unfolding tightens save_settings amount to_string
change_limit address limit now settings b =
    if tightens limit (amount settings.stake_limit)
    then (let r =
          save_settings address
            (record settings { stake_limit = to_string limit; pending_limit = none }) b in
        (r.0, record { saved = r.1; effective_at = now }))
    else (let at = now + limit_increase_delay_ms in
        let p : PendingLimit = record { value = to_string limit; effective_at = at } in
        let r = save_settings address (record settings { pending_limit = some p }) b in
        (r.0, record { saved = r.1; effective_at = at }))

unfoldable pub is_positive : Option ℕ → Bool
is_positive none = true
is_positive (some n) = ltb 0 n

-- `none`: a limit that is not positive throws.
unfoldable pub set_stake_limit : Text → Option ℕ → ℕ → Browser → Option (Browser × LimitSet)
unfolding is_positive effective_settings change_limit
set_stake_limit address limit now b =
    if is_positive limit
    then some (change_limit address limit now (effective_settings address now b) b)
    else none

pub data WagerCheck : Type 0 where
  allowed : WagerCheck
  self_excluded stake_limit : ℕ → WagerCheck

unfoldable pub check_wager_allowed : Text → ℕ → ℕ → Browser → WagerCheck
unfolding active_exclusion effective_settings amount
check_wager_allowed address stake now b = elim (active_exclusion address now b) [
  | some until ↦ self_excluded until
  | none ↦ elim (amount (effective_settings address now b).stake_limit) [
    | none ↦ allowed
    | some limit ↦ if ltb limit stake then stake_limit limit else allowed
  ]
]
