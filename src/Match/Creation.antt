-- ===== src/Match/Creation.antt =====
-- Creating a match from the API: apps/backend/src/services/match-service.ts. The fetchers of the
-- platforms and the store are parameters.
pub mod Accepted
pub mod Duplicates
mod Examples
use smile4money.Common.{
  ℕ, ◌*◌, Bool, true, false, ◌&&◌, ◌||◌, not, Option, none, some, List, [], ◌∷◌, ◌++◌, length, ltb,
  leb, ◌==◌, if◌then◌else◌, or_else, is_some,
}
use smile4money.Common.Keys.{◌===◌}
use smile4money.Common.Text.{
  Text, text, text_eq, is_empty, is_truthy, is_digit, all_chars, to_upper_case, contains,
}
use smile4money.Errors.{ErrorClass, validation, conflict, other, error_to_http_status}
use smile4money.Match.{MatchRecord, CreateMatchPayload}
use smile4money.Match.Store
use smile4money.Match.SqliteStore

abbrev pub min_stake : ℕ
min_stake = 1

abbrev pub max_stake : ℕ
max_stake = 10000000000000

abbrev pub max_game_id_len : ℕ
max_game_id_len = 64

-- A number that JSON holds: whole and not negative, whole and negative, or not whole.
pub data Amount : Type 0 where
  whole : ℕ → Amount
  negative fractional : Amount

-- A field is `none` when it is missing or of another type, which no test tells apart.
pub record CreateMatchInput : Type 0 where
  pub player2 : Option Text
  pub stake_amount : Option Amount
  pub token : Option Text
  pub game_id : Option Text
  pub platform : Option Text
  pub username : Option Text

pub data InputError : Type 0 where
  player2_required stake_not_whole stake_out_of_range token_required game_id_required bad_game_id
        bad_platform same_players :
      InputError

abbrev pub is_whole_amount : Option Amount → Bool
is_whole_amount none = false
is_whole_amount (some (whole n)) = true
is_whole_amount (some negative) = true
is_whole_amount (some fractional) = false

abbrev pub is_in_range : Option Amount → Bool
is_in_range (some (whole n)) = leb min_stake n && leb n max_stake
is_in_range _ = false

-- /[A-Za-z0-9_-]/
abbrev pub is_id_char : ℕ → Bool
is_id_char c =
    ((leb b'A' c && leb c b'Z') || (leb b'a' c && leb c b'z'))
    || (is_digit c || (c == b'_' || c == b'-'))

-- A text that passes the test has as many bytes as characters.
unfoldable pub is_game_id : Text → Bool
is_game_id g = leb (length g) max_game_id_len && (not (is_empty g) && all_chars is_id_char g)

abbrev pub is_known_platform : Option Text → Bool
is_known_platform none = false
is_known_platform (some p) = p === text "lichess" || p === text "chessdotcom"

unfoldable pub validate_create_match_input : Option Text → CreateMatchInput → Option InputError
validate_create_match_input player1 i =
    if not (is_truthy i.player2)
    then some player2_required
    else if not (is_whole_amount i.stake_amount)
    then some stake_not_whole
    else if not (is_in_range i.stake_amount)
    then some stake_out_of_range
    else if not (is_truthy i.token)
    then some token_required
    else if not (is_truthy i.game_id)
    then some game_id_required
    else if not (is_game_id (or_else i.game_id []))
    then some bad_game_id
    else if not (is_known_platform i.platform)
    then some bad_platform
    else if is_truthy player1
        && (to_upper_case (or_else player1 []) === to_upper_case (or_else i.player2 []))
    then some same_players
    else none

-- What a fetcher finds: the names of the players, or an error, whose message is given if it is a
-- `GameNotFoundError`.
pub record Players : Type 0 where
  pub white_player : Text
  pub black_player : Text

pub data Fetch : Type 0 where
  fetched : Players → Fetch
  game_not_found threw : Text → Fetch

pub record Fetchers : Type 0 where
  pub lichess : Text → Fetch
  pub chessdotcom : Text → Text → Fetch

pub data Validity : Type 0 where
  is_valid username_required invalid_platform : Validity
  not_found validation_failed : Text → Validity

abbrev pub validity : Fetch → Validity
validity (fetched players) = is_valid
validity (game_not_found message) = not_found message
validity (threw message) = validation_failed message

unfoldable pub validate_game_exists : Fetchers → Text → Text → Option Text → Validity
validate_game_exists f platform game_id username =
    if platform === text "lichess"
    then validity (f.lichess game_id)
    else if platform === text "chessdotcom"
    then (if is_truthy username
        then validity (f.chessdotcom (or_else username []) game_id)
        else username_required)
    else invalid_platform

pub data Identities : Type 0 where
  identities : Players → Identities
  failed : Text → Identities

abbrev pub identities_of : Fetch → Identities
identities_of (fetched players) = identities players
identities_of (game_not_found message) = failed message
identities_of (threw message) = failed message

unfoldable pub get_game_result_with_player_identities :
    Fetchers → Text → Text → Option Text → Identities
get_game_result_with_player_identities f platform game_id username =
    if platform === text "lichess"
    then identities_of (f.lichess game_id)
    else if platform === text "chessdotcom"
    then (if is_truthy username
        then identities_of (f.chessdotcom (or_else username []) game_id)
        else failed (text "username is required for chessdotcom"))
    else failed (text "invalid platform")

-- What a store answers: a record, or an error of no class that the mapping knows, with its message.
pub data Stored (S : Type 0) : Type 0 where
  stored : MatchRecord → S → Stored S
  rejected : Text → S → Stored S

pub data Failure : Type 0 where
  invalid_input : InputError → Failure
  invalid_game : Text → Failure
  duplicate_game_id : Failure
  store_failed : Text → Failure

pub data CreateMatchResult : Type 0 where
  success : MatchRecord → CreateMatchResult
  failure : ℕ → Failure → CreateMatchResult

abbrev pub whole_of : Option Amount → ℕ
whole_of (some (whole n)) = n
whole_of _ = 0

abbrev pub white_of : Identities → Option Text
white_of (identities players) = some players.white_player
white_of (failed message) = none

abbrev pub black_of : Identities → Option Text
black_of (identities players) = some players.black_player
black_of (failed message) = none

unfoldable pub payload_of : Text → CreateMatchInput → Identities → CreateMatchPayload
payload_of player1 i found = record {
  player1 = player1;
  player2 = or_else i.player2 [];
  player1_username = white_of found;
  player2_username = black_of found;
  stake_amount = whole_of i.stake_amount;
  token = or_else i.token [];
  game_id = or_else i.game_id [];
  platform = or_else i.platform [];
}

-- The test of the source takes an empty message for no error.
abbrev pub error_of : Identities → Option Text
error_of (identities players) = none
error_of (failed []) = none
error_of (failed (c ∷ s)) = some (c ∷ s)

unfoldable pub answer : {S : Type 0} → Stored S → S × CreateMatchResult
answer (stored m t) = (t, success m)
answer (rejected message t) = (
  t,
  if contains (text "duplicate") message
      then failure (error_to_http_status conflict) duplicate_game_id
      else failure (error_to_http_status other) (store_failed message),
)

unfoldable pub create_match_for_player :
    {S : Type 0}
    → (CreateMatchPayload → S → Stored S)
    → Fetchers
    → Text
    → CreateMatchInput
    → S
    → S × CreateMatchResult
create_match_for_player create f player1 i s =
    let found =
      get_game_result_with_player_identities f (or_else i.platform []) (or_else i.game_id [])
        i.username in
    elim (validate_create_match_input (some player1) i) [
      | some e ↦ (s, failure (error_to_http_status validation) (invalid_input e))
      | none ↦ elim (error_of found) [
        | some message ↦ (s, failure (error_to_http_status validation) (invalid_game message))
        | none ↦ answer (create (payload_of player1 i found) s)
      ]
    ]

-- The stores, with the messages of their errors. That of a violated constraint is the driver's.
unfoldable pub create_in_memory :
    (Text → Text) → CreateMatchPayload → Store.MatchStore → Stored Store.MatchStore
create_in_memory sha256 p s = elim (Store.create_match sha256 p s) [
  | Store.created m t ↦ stored m t
  | Store.refused e ↦ elim e [
    | Store.duplicate_game_id ↦ rejected (text "duplicate game_id") s
    | Store.range_exhausted ↦ rejected (text "Match identifier range exhausted") s
  ]
]

unfoldable pub create_on_sqlite :
    (Text → Text)
    → Text
    → CreateMatchPayload
    → SqliteStore.SqliteMatchStore
    → Stored SqliteStore.SqliteMatchStore
create_on_sqlite sha256 message p s =
    let r = SqliteStore.create_match sha256 p s in
    elim r.1 [ some m ↦ stored m r.0 | none ↦ rejected message r.0 ]
