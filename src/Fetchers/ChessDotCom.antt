-- ===== src/Fetchers/ChessDotCom.antt =====
-- The fetcher of Chess.com: `fetchChessDotComResult` of apps/backend/src/fetchers/chessdotcom.ts. The
-- requests, the hash of a response, the addresses and the reading of a number are parameters. A month
-- is numbered by 12 times its year and its number from 0.
pub mod Search
mod Examples
use smile4money.Common.{
  ℕ, zero, suc, ◌+◌, ◌-◌, ◌*◌, ◌/◌, ◌%◌, Bool, true, false, ◌&&◌, ◌||◌, not, Option, none, some,
  List, [], ◌∷◌, ◌++◌, ◌==◌, leb, if◌then◌else◌, keep,
}
use smile4money.Common.OrderedSet.{member}
use smile4money.Common.Keys.{◌===◌, is_value}
use smile4money.Common.Text.{Text, text, text_eq}
use smile4money.Match.{MatchResult, player1_wins, player2_wins, draw}
use smile4money.Fetchers.{
  Evidence, evidence_for, invalid_archive, duplicate_evidence, conflicting_outcomes, ambiguous,
  FetchError, rate_limit, game_not_found, api_error, request_error, Fetched, threw,
  normalize_result, seconds,
}

pub record ChessDotComGame : Type 0 where
  pub url : Text
  pub end_time : Option ℕ
  pub white_username : Option Text
  pub white_result : Option Text
  pub black_username : Option Text
  pub black_result : Option Text

abbrev pub loss_results : List Text
loss_results =
    text "checkmated"
    ∷ text "resigned"
    ∷ text "timeout"
    ∷ text "abandoned"
    ∷ text "lose"
    ∷ text "kingofthehill"
    ∷ text "threecheck"
    ∷ text "bughousepartnerlose"
    ∷ []

abbrev pub draw_results : List Text
draw_results =
    text "agreed"
    ∷ text "stalemate"
    ∷ text "repetition"
    ∷ text "insufficient"
    ∷ text "timevsinsufficient"
    ∷ text "50move"
    ∷ []

abbrev pub running_results : List Text
running_results = text "in_progress" ∷ text "timeout_started" ∷ []

abbrev pub has_slash : Text → Bool
has_slash [] = false
has_slash (c ∷ s) = (c == b'/') || has_slash s

-- What stands behind the last slash.
unfoldable pub extract_game_id : Text → Text
extract_game_id [] = []
extract_game_id (c ∷ s) =
    let rest = extract_game_id s in if has_slash s then rest else if c == b'/' then s else c ∷ s

abbrev pub is_one_of : Option Text → List Text → Bool
is_one_of none names = false
is_one_of (some s) names = member s names

-- `none`: undefined; `some none`: null.
unfoldable pub map_result : Option Text → Option Text → Option (Option MatchResult)
map_result white black =
    if is_one_of white running_results && is_one_of black running_results
    then some none
    else if is_value (text "win") white && is_one_of black loss_results
    then some (some player1_wins)
    else if is_value (text "win") black && is_one_of white loss_results
    then some (some player2_wins)
    else if is_one_of white draw_results && is_one_of black draw_results
    then some (some draw)
    else none

-- The setting as `Number` reads it, if that is a natural number. `none`: the source throws.
unfoldable pub parse_archive_months : (Text → Option ℕ) → Option Text → Option ℕ
parse_archive_months number none = some 120
parse_archive_months number (some raw) = elim (number raw) [
  | none ↦ none
  | some months ↦ if leb 1 months && leb months 600 then some months else none
]

-- The status, the hash of the payload and, unless that is no list of games with addresses, the games.
pub data Response : Type 0 where
  no_response : Response
  response : ℕ → Text → Option (List ChessDotComGame) → Response

pub data Archive : Type 0 where
  games : List ChessDotComGame → Archive
  failed : FetchError → Archive

abbrev pub matching : Text → List ChessDotComGame → List ChessDotComGame
unfolding extract_game_id
matching game_id gs = keep (λ g. extract_game_id g.url === game_id) gs

-- The year and the number of the month.
abbrev pub year_and_month : ℕ → ℕ × ℕ
year_and_month month = (month / 12, month % 12 + 1)

module _ (hash : List ChessDotComGame → Text) (live_url : Text → Text) (archive_url : ℕ × ℕ → Text)
    (now : ℕ) where
  unfoldable pub read_archive : ℕ × ℕ → Response → Archive
  read_archive month no_response = failed request_error
  read_archive month (response status payload_hash payload) =
      if status == 404
      then games []
      else if status == 429
      then failed rate_limit
      else if not (status == 200)
      then failed (api_error status)
      else elim payload [
        | none ↦ failed (
            ambiguous invalid_archive
              (evidence_for (text "chessdotcom") (archive_url month) payload_hash now))
        | some gs ↦ games gs
      ]

  unfoldable pub read_game : Text → ChessDotComGame → Fetched
  unfolding map_result normalize_result
  read_game game_id g =
      let e = evidence_for (text "chessdotcom") (live_url game_id) (hash (g ∷ [])) now in
      elim (map_result g.white_result g.black_result) [
        | none ↦ threw (ambiguous conflicting_outcomes e)
        | some r ↦ normalize_result game_id g.white_username g.black_username r g.end_time seconds e
      ]

  -- What one archive says; `rest` is what the older ones say.
  unfoldable pub choose_game : Text → Fetched → List ChessDotComGame → Fetched
  unfolding read_game
  choose_game game_id rest [] = rest
  choose_game game_id rest (g ∷ []) = read_game game_id g
  choose_game game_id rest gs =
      let source = text "game:" ++ game_id in
      threw (ambiguous duplicate_evidence (evidence_for (text "chessdotcom") source (hash gs) now))

  unfoldable pub choose : Text → Fetched → Archive → Fetched
  unfolding choose_game
  choose game_id rest (failed e) = threw e
  choose game_id rest (games gs) = choose_game game_id rest (matching game_id gs)

  module _ (request : ℕ × ℕ → Response) where
    abbrev pub fetch_archive : ℕ → Archive
    unfolding read_archive
    fetch_archive month = read_archive (year_and_month month) (request (year_and_month month))

    unfoldable pub search : (months : ℕ) → (month : ℕ) → Text → Fetched
    unfolding choose
    search zero month game_id = threw (game_not_found game_id)
    search (suc months) month game_id =
        choose game_id (search months (month - 1) game_id) (fetch_archive month)

    -- `none`: the setting is refused.
    unfoldable pub fetch_chessdotcom_result :
        (Text → Option ℕ) → Option Text → ℕ → Text → Option Fetched
    unfolding search parse_archive_months
    fetch_chessdotcom_result number setting month game_id =
        elim (parse_archive_months number setting) [
          | none ↦ none
          | some months ↦ some (search months month game_id)
        ]
