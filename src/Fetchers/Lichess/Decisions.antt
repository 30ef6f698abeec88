-- ===== src/Fetchers/Lichess/Decisions.antt =====
-- How a game of Lichess ends (`fetchLichessResult` of apps/backend/src/fetchers/lichess.ts with
-- `normalizeResult` of apps/backend/src/fetchers/result.ts).
use smile4money.Common.{
  ℕ, ◌≡◌, ◌↔◌, ◌⊎◌, refl, sym, ◌∙◌, subst, ap, true, false, ◌&&◌, ◌||◌, Option, none, some, arith,
  Option-cases, Bool-cases, inl, inr,
}
use smile4money.Common.Keys.{◌===◌, is_value}
use smile4money.Common.OrderedSet.{member}
use smile4money.Common.Text.{Text, text, text_eq, text_beq_iff}
use smile4money.Match.{MatchResult, player1_wins, player2_wins, draw}
use smile4money.Fetchers.{
  running, finished, Evidence, evidence_for, returned, NormalizedGameResult, normalize_result,
  is_name, end_date, milliseconds,
}
use smile4money.Fetchers.Lichess.{
  LichessGame, response, decided, unclear, terminal_statuses, draw_statuses, terminal_outcome,
  outcome_of, read_game, read_response,
}

-- The table of Lichess: who wins, by the status and the winner.
abbrev pub IsOutcome : LichessGame → Option MatchResult → Type 0
IsOutcome g none = ((g.status ≡ text "started") ⊎ (g.status ≡ text "created")) × (g.winner ≡ none)
IsOutcome g (some player1_wins) =
    (member g.status terminal_statuses ≡ true)
    × (member g.status draw_statuses ≡ false)
    × (g.winner ≡ some (text "white"))
IsOutcome g (some player2_wins) =
    (member g.status terminal_statuses ≡ true)
    × (member g.status draw_statuses ≡ false)
    × (g.winner ≡ some (text "black"))
IsOutcome g (some draw) = (member g.status draw_statuses ≡ true) × (g.winner ≡ none)

is_value_iff : (a : Text) (o : Option Text) → (is_value a o ≡ true) ↔ (o ≡ some a)
is_value_iff a none = ground arith
is_value_iff a (some b) = ground (arith, text_beq_iff b a)

draw_named : (s : Text) → member s draw_statuses ≡ true → (s ≡ text "draw") ⊎ (s ≡ text "stalemate")
unfolding member
draw_named s h = elim (Bool-cases (s === text "draw")) [
  | inl e ↦ inl ((text_beq_iff s (text "draw")).0 e)
  | inr e ↦ elim (Bool-cases (s === text "stalemate")) [
    | inl f ↦ inr ((text_beq_iff s (text "stalemate")).0 f)
    | inr f ↦ absurd (ground (arith, h, e, f))
  ]
]

named_is_terminal :
    (s : Text) → (s ≡ text "draw") ⊎ (s ≡ text "stalemate") → member s terminal_statuses ≡ true
named_is_terminal s (inl e) = rw e (unfold member in refl)
named_is_terminal s (inr e) = rw e (unfold member in refl)

draw_is_terminal : (s : Text) → member s draw_statuses ≡ true → member s terminal_statuses ≡ true
draw_is_terminal s h = named_is_terminal s (draw_named s h)

started_is_active :
    (s : Text)
    → (s ≡ text "started") ⊎ (s ≡ text "created")
    → (member s terminal_statuses ≡ false) × ((s === text "started" || s === text "created") ≡ true)
started_is_active s (inl e) = rw e (unfold member in (refl, refl))
started_is_active s (inr e) = rw e (unfold member in (refl, refl))

outcome_of-IsOutcome :
    (g : LichessGame) (o : Option MatchResult) → outcome_of g ≡ decided o → IsOutcome g o
unfolding outcome_of terminal_outcome
outcome_of-IsOutcome g none h =
    ground
      (arith, h, text_beq_iff g.status (text "started"), text_beq_iff g.status (text "created"))
outcome_of-IsOutcome g (some player1_wins) h =
    ground (arith, h, is_value_iff (text "white") g.winner)
outcome_of-IsOutcome g (some player2_wins) h =
    ground (arith, h, is_value_iff (text "black") g.winner)
outcome_of-IsOutcome g (some draw) h = ground (arith, h)

IsOutcome-outcome_of :
    (g : LichessGame) (o : Option MatchResult) → IsOutcome g o → outcome_of g ≡ decided o
unfolding outcome_of terminal_outcome
IsOutcome-outcome_of g none h = ground (arith, started_is_active g.status h.0, h.1)
IsOutcome-outcome_of g (some player1_wins) (t, d, w) = rw w (ground (arith, t, d))
IsOutcome-outcome_of g (some player2_wins) (t, d, w) = rw w (ground (arith, t, d))
IsOutcome-outcome_of g (some draw) (d, w) = rw w (ground (arith, d, draw_is_terminal g.status d))

-- A result that is normalised from a game whose players have these names.
abbrev pub IsMadeOf :
    Text → Text → Text → Option MatchResult → Option ℕ → Evidence → NormalizedGameResult → Type 0
IsMadeOf id white black none t e r = r ≡ running id white black e
IsMadeOf id white black (some m) t e r =
    (ms : ℕ) × (end_date milliseconds t ≡ some ms) × (r ≡ finished id white black m ms e)

abbrev HaveNames : Text → Option Text → Option Text → Text → Text → Type 0
HaveNames id w b white black =
    (w ≡ some white)
    × (b ≡ some black)
    × (((is_name (some id) && is_name (some white)) && is_name (some black)) ≡ true)

returned_inj : (q r : NormalizedGameResult) → returned q ≡ returned r → r ≡ q
returned_inj q r h = cc

module _ (id : Text) (t : Option ℕ) (e : Evidence) where
  normalize_complete :
      (w b : Option Text) (o : Option MatchResult) (white black : Text) (r : NormalizedGameResult)
      → HaveNames id w b white black
      → IsMadeOf id white black o t e r
      → normalize_result id w b o t milliseconds e ≡ returned r
  unfolding normalize_result
  normalize_complete w b none white black r (p, q, n) h = rw (p, q, n) (ap returned (sym h))
  normalize_complete w b (some m) white black r (p, q, n) (ms, d, h) =
      rw (p, q, n, d) (ap returned (sym h))

  no_end :
      (white black : Text) (m : MatchResult) (r : NormalizedGameResult)
      → end_date milliseconds t ≡ none
      → normalize_result id (some white) (some black) (some m) t milliseconds e ≡ returned r
      → ⊥
  unfolding normalize_result
  no_end white black m r d h = ground (arith, h, d)

  normalized :
      (white black : Text) (o : Option MatchResult) (r : NormalizedGameResult)
      → HaveNames id (some white) (some black) white black
      → normalize_result id (some white) (some black) o t milliseconds e ≡ returned r
      → IsMadeOf id white black o t e r
  normalized white black none r n h =
      let q = running id white black e in
      returned_inj q r
        (sym (normalize_complete (some white) (some black) none white black q n refl) ∙ h)
  normalized white black (some m) r n h = elim (Option-cases (end_date milliseconds t)) [
    | inl d ↦ absurd (no_end white black m r d h)
    | inr (ms, d) ↦
        let q = finished id white black m ms e in
        (
          ms,
          d,
          returned_inj q r (
              sym (
                normalize_complete (some white) (some black) (some m) white black q n (ms, d, refl))
              ∙ h),
        )
  ]

  normalize_sound :
      (w b : Option Text) (o : Option MatchResult) (r : NormalizedGameResult)
      → normalize_result id w b o t milliseconds e ≡ returned r
      → (white : Text) × (black : Text) × HaveNames id w b white black
        × IsMadeOf id white black o t e r
  unfolding normalize_result
  normalize_sound none b o r h = absurd (ground (arith, h))
  normalize_sound (some white) none o r h = absurd (ground (arith, h))
  normalize_sound (some white) (some black) o r h =
      elim (Bool-cases ((is_name (some id) && is_name (some white)) && is_name (some black))) [
        | inr n ↦ absurd (ground (arith, h, n))
        | inl n ↦ (white, black, (refl, refl, n), normalized white black o r (refl, refl, n) h)
      ]

module _ (url : Text) (hash : Option LichessGame → Text) (game_id : Text) where
  abbrev evidence : LichessGame → ℕ → Evidence
  evidence g now = evidence_for (text "lichess") url (hash (some g)) now

  read_sound :
      (status now : ℕ) (header : Option Text) (g : LichessGame) (r : NormalizedGameResult)
      → read_response url hash game_id (response status header (some g)) now ≡ returned r
      → (status ≡ 200)
        × (g.id ≡ game_id)
        × ((o : Option MatchResult) × (outcome_of g ≡ decided o)
            × (normalize_result g.id g.white_name g.black_name o g.last_move_at milliseconds
                  (evidence g now)
                ≡ returned r))
  unfolding read_response read_game
  read_sound status now header g r h =
      elim (outcome_of g)
          as (λ x.
            (outcome_of g ≡ x)
            → (status ≡ 200)
              × (g.id ≡ game_id)
              × ((o : Option MatchResult) × (outcome_of g ≡ decided o)
                  × (normalize_result g.id g.white_name g.black_name o g.last_move_at milliseconds
                        (evidence g now)
                      ≡ returned r))) [
                        | unclear a ↦ λ u. absurd (ground (arith, h, u))
                        | decided o ↦ λ u. (
                          ground (arith, h),
                          (text_beq_iff g.id game_id).0 (ground (arith, h)),
                          (o, u, ground (arith, h, u)),
                        )
                      ]
        refl

  read_complete :
      (now : ℕ) (header : Option Text) (g : LichessGame) (r : NormalizedGameResult)
      (o : Option MatchResult)
      → g.id ≡ game_id
      → outcome_of g ≡ decided o
      → normalize_result g.id g.white_name g.black_name o g.last_move_at milliseconds
          (evidence g now)
        ≡ returned r
      → read_response url hash game_id (response 200 header (some g)) now ≡ returned r
  unfolding read_response read_game
  read_complete now header g r o i u n = ground (arith, (text_beq_iff g.id game_id).1 i, u, n)

  pub read_response_iff :
      (status now : ℕ) (header : Option Text) (g : LichessGame) (r : NormalizedGameResult)
      → (read_response url hash game_id (response status header (some g)) now ≡ returned r) ↔ (
          (status ≡ 200)
          × (g.id ≡ game_id)
          × ((o : Option MatchResult) × (white : Text) × (black : Text) × IsOutcome g o
              × HaveNames g.id g.white_name g.black_name white black
              × IsMadeOf g.id white black o g.last_move_at (evidence g now) r))
  read_response_iff status now header g r = (
    λ h.
        let (ok, same, (o, u, n)) = read_sound status now header g r h in
        let (white, black, named, made) =
          normalize_sound g.id g.last_move_at (evidence g now) g.white_name g.black_name o r n in
        (ok, same, (o, white, black, outcome_of-IsOutcome g o u, named, made)),
    λ (ok, same, (o, white, black, u, named, made)).
        subst (λ st. read_response url hash game_id (response st header (some g)) now ≡ returned r)
          (sym ok)
          (read_complete now header g r o same (IsOutcome-outcome_of g o u) (
            normalize_complete g.id g.last_move_at (evidence g now) g.white_name g.black_name o
              white black r named made)),
  )
