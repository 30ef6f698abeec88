-- ===== src/Eligibility.antt =====
-- Which games a wager may be staked on: apps/backend/src/services/game-eligibility.ts. The messages of
-- the rejections are left out.
pub mod Rules
pub mod Games
mod Examples
use smile4money.Common.{
  ℕ, Bool, true, false, ◌&&◌, ◌||◌, not, Option, none, some, List, [], ◌∷◌, ◌++◌, ◌==◌,
  if◌then◌else◌,
}
use smile4money.Common.Digits.{value}
use smile4money.Common.OrderedSet.{member}
use smile4money.Common.Keys.{◌===◌, is_value}
use smile4money.Common.Text.{Text, text, text_eq, is_empty, is_digit, all_chars}

abbrev pub supported_variants : List Text
supported_variants = text "standard" ∷ []

abbrev pub supported_speeds : List Text
supported_speeds = text "bullet" ∷ text "blitz" ∷ text "rapid" ∷ text "classical" ∷ []

abbrev pub unverifiable_end_statuses : List Text
unverifiable_end_statuses = text "aborted" ∷ text "noStart" ∷ text "unknownFinish" ∷ []

pub data EligibilityRejectionCode : Type 0 where
  unsupported_variant unsupported_time_control no_clock unverifiable_completion :
      EligibilityRejectionCode

-- The initial clock: not known, null, or in seconds.
pub data Clock : Type 0 where
  unknown without_clock : Clock
  initial : ℕ → Clock

pub record GameMetadata : Type 0 where
  pub status : Option Text
  pub variant : Option Text
  pub speed : Option Text
  pub initial_seconds : Clock

pub record EligibilityResult : Type 0 where
  pub eligible : Bool
  pub rejections : List EligibilityRejectionCode

-- Whether a field is there and passes a test.
abbrev pub is_there_and : (Text → Bool) → Option Text → Bool
is_there_and test none = false
is_there_and test (some s) = test s

abbrev pub lacks_clock : Clock → Bool
lacks_clock unknown = false
lacks_clock without_clock = true
lacks_clock (initial n) = false

abbrev pub no_rejection : List EligibilityRejectionCode → Bool
no_rejection [] = true
no_rejection _ = false

abbrev pub rejection_if : Bool → EligibilityRejectionCode → List EligibilityRejectionCode
rejection_if true code = code ∷ []
rejection_if false code = []

unfoldable pub check_game_eligibility : GameMetadata → EligibilityResult
check_game_eligibility game =
    let rejections =
      rejection_if (is_there_and (λ v. not (member v supported_variants)) game.variant)
        unsupported_variant
      ++ rejection_if (is_there_and (λ s. not (member s supported_speeds)) game.speed)
          unsupported_time_control
      ++ rejection_if (lacks_clock game.initial_seconds) no_clock
      ++ rejection_if (is_there_and (λ s. member s unverifiable_end_statuses) game.status)
          unverifiable_completion in
    record { eligible = no_rejection rejections; rejections = rejections }

abbrev pub no_metadata : GameMetadata
no_metadata = record { status = none; variant = none; speed = none; initial_seconds = unknown }

-- The fields that are texts; `clock_initial` is there if the clock is a record with a number.
pub record LichessPayload : Type 0 where
  pub status : Option Text
  pub variant : Option Text
  pub speed : Option Text
  pub clock_initial : Option ℕ

-- `none`: the payload is no record.
unfoldable pub lichess_metadata : Option LichessPayload → GameMetadata
lichess_metadata none = no_metadata
lichess_metadata (some raw) = record {
  status = raw.status;
  variant = raw.variant;
  speed = raw.speed;
  initial_seconds = elim raw.clock_initial [
    | some n ↦ initial n
    | none ↦
        if is_value (text "correspondence") raw.speed || is_value (text "unlimited") raw.speed
        then without_clock
        else unknown
  ];
}

pub record ChessDotComPayload : Type 0 where
  pub rules : Option Text
  pub time_class : Option Text
  pub time_control : Option Text

abbrev pub before_plus : Text → Text
before_plus [] = []
before_plus (c ∷ s) = let rest = before_plus s in if c == b'+' then [] else c ∷ rest

-- `none`: there is no plus sign.
abbrev pub after_plus : Text → Option Text
after_plus [] = none
after_plus (c ∷ s) = let rest = after_plus s in if c == b'+' then some s else rest

abbrev pub is_whole : Text → Bool
is_whole s = not (is_empty s) && all_chars is_digit s

abbrev pub is_increment : Option Text → Bool
is_increment none = true
is_increment (some s) = is_whole s

-- The match of `^(\d+)(?:\+\d+)?$`.
unfoldable pub clock_of : Text → Clock
unfolding value
clock_of s =
    if is_whole (before_plus s) && is_increment (after_plus s)
    then initial (value 0 (before_plus s))
    else without_clock

abbrev pub variant_of : Option Text → Option Text
variant_of none = none
variant_of (some rules) = some (if rules === text "chess" then text "standard" else rules)

unfoldable pub chessdotcom_metadata : Option ChessDotComPayload → GameMetadata
unfolding clock_of
chessdotcom_metadata none = no_metadata
chessdotcom_metadata (some raw) = record {
  status = none;
  variant = variant_of raw.rules;
  speed = raw.time_class;
  initial_seconds = elim raw.time_control [ none ↦ unknown | some s ↦ clock_of s ];
}
