-- ===== src/Match/Store.antt =====
-- The in-memory match store: apps/backend/src/store/match-store.ts.
use smile4money.Common.{
  ℕ, ◌+◌, Bool, ◌&&◌, ◌||◌, Option, none, some, List, [], ◌∷◌, ◌++◌, length, leb, if◌then◌else◌,
  or_else,
}
use smile4money.Common.Keys.{◌===◌, nat_eq}
use smile4money.Common.OrderedMap.{OrderedMap, get, set}
use smile4money.Common.OrderedSet.{member, insert}
use smile4money.Common.Text.{Text, text_eq, is_truthy}
use smile4money.Match.{MatchRecord, MatchState, CreateMatchPayload, CanonicalSettlementEvidence}
use smile4money.Match.Identity.{compute_identity_hash}

pub record MatchStore : Type 0 where
  pub matches : OrderedMap ℕ MatchRecord
  pub game_ids : List Text
  pub next_id : ℕ
  pub evidence_by_match : OrderedMap ℕ (List CanonicalSettlementEvidence)

abbrev pub max_safe_integer : ℕ
max_safe_integer = 9007199254740991

pub data CreateError : Type 0 where
  range_exhausted duplicate_game_id : CreateError

pub data CreateResult : Type 0 where
  created : MatchRecord → MatchStore → CreateResult
  refused : CreateError → CreateResult

unfoldable pub empty_store : MatchStore
empty_store = record { matches = []; game_ids = []; next_id = 0; evidence_by_match = [] }

module _ (sha256 : Text → Text) where
  unfoldable pub new_record : ℕ → CreateMatchPayload → MatchRecord
  new_record id p = record {
    match_id = id;
    player1 = p.player1;
    player2 = p.player2;
    player1_username = p.player1_username;
    player2_username = p.player2_username;
    stake_amount = p.stake_amount;
    token = p.token;
    game_id = p.game_id;
    platform = p.platform;
    state = MatchState.pending;
    identity_hash =
        if is_truthy p.player1_username && is_truthy p.player2_username
        then some (
            compute_identity_hash sha256 (or_else p.player1_username []) p.player1
              (or_else p.player2_username []) p.player2)
        else none;
    evidence = none;
  }

  unfoldable pub create_match : CreateMatchPayload → MatchStore → CreateResult
  unfolding new_record
  create_match p s =
      if leb s.next_id max_safe_integer
      then if member p.game_id s.game_ids
        then refused duplicate_game_id
        else created (new_record s.next_id p) (record s {
          matches = set s.next_id (new_record s.next_id p) s.matches;
          game_ids = insert p.game_id s.game_ids;
          next_id = s.next_id + 1;
        })
      else refused range_exhausted

-- The loop of `findByGameId` over the values of the map.
unfoldable pub find_record : Text → OrderedMap ℕ MatchRecord → Option MatchRecord
find_record g [] = none
find_record g ((i, m) ∷ ms) = if m.game_id === g then some m else find_record g ms

unfoldable pub find_by_game_id : Text → MatchStore → Option MatchRecord
unfolding find_record
find_by_game_id g s = find_record g s.matches

abbrev pub is_linked : Text → MatchRecord → Bool
is_linked address m =
    (m.player1 === address || m.player2 === address)
    && (is_truthy m.player1_username || is_truthy m.player2_username || is_truthy m.identity_hash)

abbrev pub unlinked : MatchRecord → MatchRecord
unlinked m = record m { player1_username = none; player2_username = none; identity_hash = none }

unfoldable pub unlink_records : Text → OrderedMap ℕ MatchRecord → OrderedMap ℕ MatchRecord × ℕ
unlink_records a [] = ([], 0)
unlink_records a ((i, m) ∷ ms) =
    let (rest, n) = unlink_records a ms in
    if is_linked a m then ((i, unlinked m) ∷ rest, n + 1) else ((i, m) ∷ rest, n)

unfoldable pub unlink_identities : Text → MatchStore → MatchStore × ℕ
unfolding unlink_records
unlink_identities a s =
    (record s { matches = (unlink_records a s.matches).0 }, (unlink_records a s.matches).1)

unfoldable pub save_settlement_evidence : CanonicalSettlementEvidence → MatchStore → MatchStore
save_settlement_evidence e s = record s {
  evidence_by_match =
      set e.match_id (or_else (get e.match_id s.evidence_by_match) [] ++ (e ∷ []))
        s.evidence_by_match;
}

unfoldable pub get_settlement_evidence_history : ℕ → MatchStore → List CanonicalSettlementEvidence
get_settlement_evidence_history i s = or_else (get i s.evidence_by_match) []

abbrev pub last_of {ℓ} : {A : Type ℓ} → List A → Option A
last_of [] = none
last_of (x ∷ []) = some x
last_of (x ∷ y ∷ xs) = last_of (y ∷ xs)

unfoldable pub get_settlement_evidence : ℕ → MatchStore → Option CanonicalSettlementEvidence
get_settlement_evidence i s = last_of (or_else (get i s.evidence_by_match) [])

unfoldable pub count : MatchStore → ℕ
count s = length s.matches

unfoldable pub clear : MatchStore → MatchStore
clear s = record s { matches = []; game_ids = []; next_id = 0; evidence_by_match = [] }
