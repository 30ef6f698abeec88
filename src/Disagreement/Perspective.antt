-- ===== src/Disagreement/Perspective.antt =====
-- The outcome from the first player's side, and the colours that the provider reports
-- (`toPlayer1Perspective` of apps/backend/src/services/outcome-disagreement-monitor.ts).
use smile4money.Common.{◌≡◌, ◌≢◌, refl, none, some, arith}
use smile4money.Common.Text.{Text, text_eq, text_beq_iff}
use smile4money.Match.{MatchResult, player1_wins, player2_wins, draw, GameResult}
use smile4money.Match.Identity.{normalize_username}
use smile4money.Disagreement.{flip, to_player1_perspective}

-- The same game with the colours exchanged, in the words of the provider.
abbrev pub recolored : GameResult → GameResult
unfolding flip
recolored game = record game {
  white_player = game.black_player;
  black_player = game.white_player;
  result = elim game.result [ none ↦ none | some r ↦ some (flip r) ];
}

flip_twice : (r : MatchResult) → flip (flip r) ≡ r
unfolding flip
flip_twice player1_wins = refl
flip_twice player2_wins = refl
flip_twice draw = refl

-- If the two players have different names, the outcome seen from the first player's side is the
-- same whichever colours the provider reports them with.
pub perspective_color_blind :
    (game : GameResult) (player1 player2 : Text)
    → normalize_username player1 ≢ normalize_username player2
    → to_player1_perspective (recolored game) player1 player2
      ≡ to_player1_perspective game player1 player2
unfolding to_player1_perspective recolored
perspective_color_blind game player1 player2 ne =
    let white = normalize_username game.white_player in
    let black = normalize_username game.black_player in
    let one = normalize_username player1 in
    let two = normalize_username player2 in
    elim game.result
      as (λ o.
        to_player1_perspective (recolored (record game { result = o })) player1 player2
        ≡ to_player1_perspective (record game { result = o }) player1 player2) [
          | none ↦ refl
          | some r ↦ ground (
            arith,
            text_beq_iff white one,
            text_beq_iff white two,
            text_beq_iff black one,
            text_beq_iff black two,
            flip_twice r,
          )
        ]
