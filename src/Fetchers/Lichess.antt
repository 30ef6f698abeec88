-- ===== src/Fetchers/Lichess.antt =====
-- The fetcher of Lichess: `fetchLichessResult` of apps/backend/src/fetchers/lichess.ts. The requests and
-- the parsing of a date are parameters.
pub mod Decisions
pub mod Retries
mod Examples
use smile4money.Common.{
  ℕ, zero, suc, ◌+◌, ◌-◌, ◌*◌, Bool, true, false, ◌&&◌, ◌||◌, not, Option, none, some, List, [],
  ◌∷◌, ◌==◌, if◌then◌else◌, is_some,
}
use smile4money.Common.Digits.{value}
use smile4money.Common.OrderedSet.{member}
use smile4money.Common.Keys.{◌===◌, is_value}
use smile4money.Common.Text.{Text, text, text_eq, is_empty, is_digit, all_chars, trim}
use smile4money.Match.{MatchResult, player1_wins, player2_wins, draw}
use smile4money.Fetchers.{
  Evidence, evidence_for, Ambiguity, mismatched_identity, no_valid_outcome, draw_conflict,
  unknown_status, ambiguous, rate_limit, game_not_found, api_error, request_error, Fetched, threw,
  normalize_result, milliseconds,
}

abbrev pub terminal_statuses : List Text
terminal_statuses =
    text "mate"
    ∷ text "resign"
    ∷ text "stalemate"
    ∷ text "timeout"
    ∷ text "draw"
    ∷ text "outoftime"
    ∷ text "variantEnd"
    ∷ []

abbrev pub default_retry_after_ms : ℕ
default_retry_after_ms = 5000

abbrev pub max_retries : ℕ
max_retries = 3

-- `none`: not there.
pub record LichessGame : Type 0 where
  pub id : Text
  pub last_move_at : Option ℕ
  pub status : Text
  pub winner : Option Text
  pub white_name : Option Text
  pub black_name : Option Text

-- What a request gives: it throws, as it does on a status of 500 and above, or the status, the header
-- `retry-after` and the payload, which may be null.
pub data Response : Type 0 where
  no_response : Response
  response : ℕ → Option Text → Option LichessGame → Response

-- `unclear`: the source throws an AmbiguousEvidenceError.
pub data Outcome : Type 0 where
  decided : Option MatchResult → Outcome
  unclear : Ambiguity → Outcome

abbrev pub draw_statuses : List Text
draw_statuses = text "draw" ∷ text "stalemate" ∷ []

unfoldable pub terminal_outcome : LichessGame → Outcome
terminal_outcome g =
    if is_value (text "white") g.winner
    then decided (some player1_wins)
    else if is_value (text "black") g.winner
    then decided (some player2_wins)
    else if not (is_some g.winner) && member g.status draw_statuses
    then decided (some draw)
    else unclear no_valid_outcome

unfoldable pub outcome_of : LichessGame → Outcome
unfolding terminal_outcome
outcome_of g =
    if member g.status terminal_statuses
    then elim (terminal_outcome g) [
      | unclear a ↦ unclear a
      | decided r ↦
          if member g.status draw_statuses && is_some g.winner
          then unclear draw_conflict
          else decided r
    ]
    else if not (g.status === text "started" || g.status === text "created") || is_some g.winner
    then unclear unknown_status
    else decided none

module _ (parse_date : Text → Option ℕ) where
  unfoldable pub parse_retry_after_ms : Option Text → ℕ → ℕ
  unfolding value trim
  parse_retry_after_ms none now = default_retry_after_ms
  parse_retry_after_ms (some header) now =
      let trimmed = trim header in
      if is_empty header
      then default_retry_after_ms
      else if not (is_empty trimmed) && all_chars is_digit trimmed
      then value 0 trimmed * 1000
      else elim (parse_date trimmed) [ none ↦ default_retry_after_ms | some date ↦ date - now ]

abbrev pub is_limited : Response → Bool
is_limited no_response = false
is_limited (response status header payload) = status == 429

module _ (url : Text) (hash : Option LichessGame → Text) (game_id : Text) where
  unfoldable pub read_game : LichessGame → ℕ → Fetched
  unfolding outcome_of normalize_result
  read_game g now =
      let e = evidence_for (text "lichess") url (hash (some g)) now in
      if not (g.id === game_id)
      then threw (ambiguous mismatched_identity e)
      else elim (outcome_of g) [
        | unclear a ↦ threw (ambiguous a e)
        | decided r ↦
            normalize_result g.id g.white_name g.black_name r g.last_move_at milliseconds e
      ]

  unfoldable pub read_response : Response → ℕ → Fetched
  unfolding read_game
  read_response no_response now = threw request_error
  read_response (response status header payload) now =
      if status == 404
      then threw (game_not_found game_id)
      else if not (status == 200)
      then threw (api_error status)
      else elim payload [
        | none ↦
            threw
              (ambiguous mismatched_identity (evidence_for (text "lichess") url (hash none) now))
        | some g ↦ read_game g now
      ]

abbrev pub retry_after : Response → Option Text
retry_after no_response = none
retry_after (response status header payload) = header

-- The requests and the times at which they are answered, by their number from 0. The result has the
-- waits and how the call ends.
module _ (parse_date : Text → Option ℕ) (read : Response → ℕ → Fetched) (request : ℕ → Response)
    (clock : ℕ → ℕ) where
  unfoldable pub attempts : (retries : ℕ) → (attempt : ℕ) → List ℕ × Fetched
  attempts zero n =
      ([], if is_limited (request n) then threw rate_limit else read (request n) (clock n))
  attempts (suc retries) n =
      let rest = attempts retries (n + 1) in
      if is_limited (request n)
      then (parse_retry_after_ms parse_date (retry_after (request n)) (clock n) ∷ rest.0, rest.1)
      else ([], read (request n) (clock n))

module _ (parse_date : Text → Option ℕ) (url : Text) (hash : Option LichessGame → Text)
    (request : ℕ → Response) (clock : ℕ → ℕ) where
  unfoldable pub fetch_lichess_result : Text → List ℕ × Fetched
  unfolding read_response attempts
  fetch_lichess_result game_id =
      attempts parse_date (read_response url hash game_id) request clock max_retries 0
