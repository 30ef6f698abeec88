-- ===== src/Fetchers/ChessDotCom/Examples.antt =====
-- A game of February 2024 that is looked for in March.
use smile4money.Common.{ℕ, ◌-◌, ◌<◌, ◌≡◌, refl, some, List, [], ◌∷◌, ◌==◌, if◌then◌else◌}
use smile4money.Common.OrderedSet.{member}
use smile4money.Common.Text.{Text, text, text_eq, trim}
use smile4money.Match.{player1_wins}
use smile4money.Fetchers.{
  Evidence, evidence_for, returned, NormalizedGameResult, finished, normalize_result,
}
use smile4money.Fetchers.ChessDotCom.{
  ChessDotComGame, Response, response, map_result, extract_game_id, read_archive, read_game, choose,
  choose_game, search,
}
use smile4money.Fetchers.ChessDotCom.Search.{Has, search-IsFound}

abbrev game : ChessDotComGame
game = record {
  url = text "https://www.chess.com/game/live/42";
  end_time = some 1708000000;
  white_username = some (text "Bob");
  white_result = some (text "win");
  black_username = some (text "alice");
  black_result = some (text "resigned");
}

abbrev hash : List ChessDotComGame → Text
hash gs = text "h"

abbrev live_url : Text → Text
live_url id = id

abbrev archive_url : ℕ × ℕ → Text
archive_url month = text "archive"

abbrev request : ℕ × ℕ → Response
request month = response 200 (text "h") (some (if month.1 == 2 then game ∷ [] else []))

abbrev march : ℕ
march = 24290

abbrev evidence : Evidence
evidence = evidence_for (text "chessdotcom") (text "42") (text "h") 5

abbrev result : NormalizedGameResult
result = finished (text "42") (text "Bob") (text "alice") player1_wins 1708000000000 evidence

game_is_found : search hash live_url archive_url 5 request 3 march (text "42") ≡ returned result
unfolding search choose choose_game extract_game_id read_archive read_game map_result
    normalize_result member trim
game_is_found = refl

search-IsFound_example :
    (k : ℕ) × (k < 3)
    × ((g : ChessDotComGame) × Has hash live_url archive_url 5 request
          (text "42")
          (march - k)
          (g ∷ [])
        × (map_result g.white_result g.black_result ≡ some (some player1_wins)))
    × ((i : ℕ) → i < k → Has hash live_url archive_url 5 request (text "42") (march - i) [])
search-IsFound_example =
    search-IsFound hash live_url archive_url 5 request (text "42") 3 march result game_is_found
