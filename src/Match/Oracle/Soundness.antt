-- ===== src/Match/Oracle/Soundness.antt =====
-- When a result is accepted, and what verification leaves alone
-- (apps/backend/src/services/oracle-service.ts).
use mathlib.Core.List.{append-nil}
use smile4money.Common.{
  ℕ, ◌≡◌, ◌≢◌, refl, true, ◌&&◌, Option, none, some, arith, Option-cases, inl, inr,
}
use smile4money.Common.Text.{Text, text_eq, is_truthy}
use smile4money.Match.{
  MatchRecord, GameResult, CanonicalSettlementEvidence, verified, player_identity_mismatch,
  identity_hash_mismatch,
}
use smile4money.Match.Identity.{verify_identity_hash, SamePlayers}
use smile4money.Match.Listing.{save_settlement_evidence_lem}
use smile4money.Match.Store.{
  MatchStore, find_by_game_id, save_settlement_evidence, get_settlement_evidence_history,
}
use smile4money.Match.Oracle.{
  Fetch, fetched, game_not_found, threw, SubmitResultInput, fetch_for, judge, evidence_of,
  identity_map, verify_game_result,
}

-- Between the stores `s` and `t` nothing has changed but evidence, and none of that of match `j`.
abbrev pub KeepsRest : ℕ → MatchStore → MatchStore → Type 0
KeepsRest j s t =
    ((t.matches ≡ s.matches) × (t.game_ids ≡ s.game_ids) × (t.next_id ≡ s.next_id))
    × (get_settlement_evidence_history j t ≡ get_settlement_evidence_history j s)

module _ (sha256 : Text → Text) (lichess : Text → Fetch)
    (chessdotcom : Option Text → Text → Fetch) where
  -- What an accepted result rests on.
  pub record IsVerified (i : SubmitResultInput) (s : MatchStore) (m : MatchRecord)
      (game : GameResult) : Type 0 where
    pub recorded : is_truthy m.player1_username && is_truthy m.player2_username ≡ true
    pub known : find_by_game_id i.game_id s ≡ some m
    pub same_platform : i.platform ≡ m.platform
    pub from_platform : fetch_for lichess chessdotcom m.platform i ≡ some (fetched game)
    pub same_players : SamePlayers game (identity_map m i.platform)
    pub hash_holds : verify_identity_hash sha256 m ≡ none

  kept :
      (e : CanonicalSettlementEvidence) (s : MatchStore) (j : ℕ)
      → e.match_id ≢ j
      → get_settlement_evidence_history j (save_settlement_evidence e s)
        ≡ get_settlement_evidence_history j s
  kept e s j h =
      ground (
        arith,
        save_settlement_evidence_lem e s j,
        append-nil (get_settlement_evidence_history j s),
      )

  saved_frame :
      (e : CanonicalSettlementEvidence) (s : MatchStore) (j : ℕ)
      → e.match_id ≢ j
      → KeepsRest j s (save_settlement_evidence e s)
  unfolding save_settlement_evidence
  saved_frame e s j h = ((refl, refl, refl), kept e s j h)

  judge-frame :
      (now : ℕ) (i : SubmitResultInput) (m : MatchRecord) (game : GameResult) (s : MatchStore)
      (j : ℕ)
      → m.match_id ≢ j
      → KeepsRest j s (judge sha256 now i m game s).0
  unfolding judge
  judge-frame now i m game s j h = ground (
    arith,
    saved_frame (evidence_of now m game verified) s j h,
    saved_frame (evidence_of now m game player_identity_mismatch) s j h,
    saved_frame (evidence_of now m game identity_hash_mismatch) s j h,
  )

  found_frame :
      (now : ℕ) (i : SubmitResultInput) (s : MatchStore) (m : MatchRecord) (j : ℕ)
      → m.match_id ≢ j
      → find_by_game_id i.game_id s ≡ some m
      → KeepsRest j s (verify_game_result sha256 lichess chessdotcom now i s).0
  unfolding verify_game_result
  found_frame now i s m j h e = elim (Option-cases (fetch_for lichess chessdotcom m.platform i)) [
    | inl f ↦ ground arith
    | inr (threw, f) ↦ ground arith
    | inr (game_not_found, f) ↦ ground arith
    | inr (fetched game, f) ↦ ground (arith, judge-frame now i m game s j h)
  ]

  -- Whatever its outcome, verification changes no match record, no game id that is taken, not the next
  -- match id, and no evidence but that of the match found under the game id.
  pub verify_game_result_frame :
      (now : ℕ) (i : SubmitResultInput) (s : MatchStore) (j : ℕ)
      → ((m : MatchRecord) → find_by_game_id i.game_id s ≡ some m → m.match_id ≢ j)
      → KeepsRest j s (verify_game_result sha256 lichess chessdotcom now i s).0
  unfolding verify_game_result
  verify_game_result_frame now i s j other = elim (Option-cases (find_by_game_id i.game_id s)) [
    | inl e ↦ rw (e, verify_game_result) ((refl, refl, refl), refl)
    | inr (m, e) ↦ found_frame now i s m j (other m e) e
  ]
