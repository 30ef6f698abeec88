-- ===== src/Eligibility/Examples.antt =====
-- A blitz game of Lichess, and a daily game of Chess.com.
use smile4money.Common.{List, true, ◌↔◌, ◌≡◌, refl, [], ◌∷◌, some}
use smile4money.Common.OrderedSet.{member}
use smile4money.Common.Text.{Text, text, text_eq}
use smile4money.Eligibility.{
  unsupported_time_control, no_clock, check_game_eligibility, LichessPayload, lichess_metadata,
  ChessDotComPayload, chessdotcom_metadata, clock_of,
}
use smile4money.Eligibility.Games.{IsAmong, IsStated, HasClock, eligible_games}

abbrev blitz : LichessPayload
blitz = record {
  status = some (text "started");
  variant = some (text "standard");
  speed = some (text "blitz");
  clock_initial = some 180;
}

abbrev daily : ChessDotComPayload
daily = record {
  rules = some (text "chess");
  time_class = some (text "daily");
  time_control = some (text "1/86400");
}

daily_rejections :
    (check_game_eligibility (chessdotcom_metadata (some daily))).rejections
    ≡ unsupported_time_control ∷ no_clock ∷ []
unfolding check_game_eligibility chessdotcom_metadata clock_of member
daily_rejections = refl

abbrev speeds : List Text
speeds = text "bullet" ∷ text "blitz" ∷ text "rapid" ∷ text "classical" ∷ []

abbrev endings : List Text
endings = text "aborted" ∷ text "noStart" ∷ text "unknownFinish" ∷ []

eligible_games_example :
    (((check_game_eligibility (lichess_metadata (some blitz))).eligible ≡ true) ↔ (
      (IsStated (IsAmong (text "standard" ∷ [])) blitz.variant
        × IsStated (IsAmong speeds) blitz.speed)
      × IsStated (λ s. IsAmong endings s → ⊥) blitz.status))
    × (((check_game_eligibility (chessdotcom_metadata (some daily))).eligible ≡ true) ↔ (
        (IsStated (IsAmong (text "chess" ∷ text "standard" ∷ [])) daily.rules
          × IsStated (IsAmong speeds) daily.time_class)
        × IsStated HasClock daily.time_control))
eligible_games_example = eligible_games blitz daily
