-- ===== src/Fetchers/Lichess/Examples.antt =====
-- Bob wins a game of Lichess after one response that is limited.
use smile4money.Common.{ℕ, ◌*◌, ◌≡◌, ◌↔◌, refl, true, ◌&&◌, Option, none, some, ◌==◌, if◌then◌else◌}
use smile4money.Common.OrderedSet.{member}
use smile4money.Common.Text.{Text, text, text_eq, trim}
use smile4money.Match.{MatchResult, player1_wins}
use smile4money.Fetchers.{Evidence, evidence_for, returned, NormalizedGameResult, finished, is_name}
use smile4money.Fetchers.Lichess.{LichessGame, Response, response, read_response}
use smile4money.Fetchers.Lichess.Decisions.{IsOutcome, IsMadeOf, read_response_iff}

abbrev game : LichessGame
game = record {
  id = text "g1";
  last_move_at = some 1700000000000;
  status = text "mate";
  winner = some (text "white");
  white_name = some (text "Bob");
  black_name = some (text "alice");
}

abbrev hash : Option LichessGame → Text
hash g = text "h"

abbrev url : Text
url = text "https://lichess.org/game/export/g1"

abbrev ok : ℕ
ok = 200

abbrev evidence : Evidence
evidence = evidence_for (text "lichess") url (text "h") 5

abbrev result : NormalizedGameResult
result = finished (text "g1") (text "Bob") (text "alice") player1_wins 1700000000000 evidence

read_response_iff_example :
    (read_response url hash (text "g1") (response 200 none (some game)) 5 ≡ returned result) ↔ (
      (ok ≡ 200)
      × (game.id ≡ text "g1")
      × ((o : Option MatchResult) × (white : Text) × (black : Text) × IsOutcome game o
          × ((game.white_name ≡ some white)
              × (game.black_name ≡ some black)
              × (((is_name (some game.id) && is_name (some white)) && is_name (some black)) ≡ true))
          × IsMadeOf game.id white black o game.last_move_at evidence result))
read_response_iff_example = read_response_iff url hash (text "g1") 200 5 none game result

game_is_read :
    read_response url hash (text "g1") (response 200 none (some game)) 5 ≡ returned result
unfolding member trim
game_is_read = read_response_iff_example.1 (
  refl,
  refl,
  (
    some player1_wins,
    text "Bob",
    text "alice",
    (refl, refl, refl),
    (refl, refl, refl),
    (1700000000000, refl, refl),
  ),
)

abbrev request : ℕ → Response
request n = if n == 0 then response 429 (some (text "2")) none else response 200 none (some game)

abbrev no_date : Text → Option ℕ
no_date s = none

abbrev clock : ℕ → ℕ
clock n = 1000 * n
