-- ===== src/Match/Examples.antt =====
-- A match between Alice and Bob on Lichess, with a hash that leaves its input as it is.
use mathlib.Core.Option
use smile4money.Common.{◌≡◌, ◌↔◌, refl, none, some, [], ◌∷◌, arith}
use smile4money.Common.Keys.{nat_eq}
use smile4money.Common.OrderedMap.{set}
use smile4money.Common.OrderedSet.{member, insert}
use smile4money.Common.Text.{Text, text, text_eq, trim, to_lower_case, to_upper_case, join}
use smile4money.Match.{
  MatchRecord, GameResult, CreateMatchPayload, CanonicalSettlementEvidence, verified, player1_wins,
}
use smile4money.Match.Identity.{
  normalize_username, normalize_address, verify_player_identities, verify_identity_hash,
  compute_identity_hash, SamePlayers, verify_player_identities_iff, verify_identity_hash_binds,
  bound_fields,
}
use smile4money.Match.Store.{
  MatchStore, created, empty_store, new_record, create_match, find_by_game_id,
}
use smile4money.Match.Listing.{IsGood, empty_store-IsGood, create_match-created}
use smile4money.Match.Oracle.{
  Fetch, fetched, SubmitResultInput, accepted, fetch_for, judge, evidence_of, identity_map,
  verify_game_result,
}
use smile4money.Match.Oracle.Soundness.{KeepsRest, verify_game_result_frame}

abbrev payload : CreateMatchPayload
payload = record {
  player1 = text "GA";
  player2 = text "GB";
  player1_username = some (text "alice");
  player2_username = some (text "bob");
  stake_amount = 100;
  token = text "XLM";
  game_id = text "g1";
  platform = text "lichess";
}

-- Bob has white, and the provider writes the names its own way.
abbrev game : GameResult
game = record {
  game_id = text "g1";
  status = text "mate";
  white_player = text " Bob";
  black_player = text "ALICE";
  result = some player1_wins;
}

abbrev plain_hash : Text → Text
plain_hash s = 0 ∷ s

abbrev alice_and_bob : MatchRecord
unfolding new_record compute_identity_hash normalize_username normalize_address join to_lower_case
    to_upper_case trim
alice_and_bob = new_record plain_hash 0 payload

abbrev one_match : MatchStore
unfolding alice_and_bob
one_match = record {
  matches = (0, alice_and_bob) ∷ [];
  game_ids = text "g1" ∷ [];
  next_id = 1;
  evidence_by_match = [];
}

one_match_created : create_match plain_hash payload empty_store ≡ created alice_and_bob one_match
unfolding create_match empty_store member insert set one_match
one_match_created = refl

one_match-IsGood : IsGood one_match
one_match-IsGood =
    (create_match-created plain_hash payload empty_store one_match alice_and_bob (text "g1")
      empty_store-IsGood one_match_created).4

create_match-created_example : find_by_game_id (text "g1") one_match ≡ some alice_and_bob
create_match-created_example =
    (create_match-created plain_hash payload empty_store one_match alice_and_bob (text "g1")
      empty_store-IsGood one_match_created).0

abbrev request : SubmitResultInput
request = record { match_id = 1; game_id = text "g1"; platform = text "lichess"; username = none }

abbrev from_lichess : Text → Fetch
from_lichess g = fetched game

abbrev from_chessdotcom : Option.Option Text → Text → Fetch
from_chessdotcom u g = Fetch.threw

abbrev evidence : CanonicalSettlementEvidence
unfolding trim to_lower_case
evidence = evidence_of 5 alice_and_bob game verified

verify_player_identities_iff_example :
    (verify_player_identities alice_and_bob game (identity_map alice_and_bob (text "lichess"))
      ≡ none)
    ↔ SamePlayers game (identity_map alice_and_bob (text "lichess"))
verify_player_identities_iff_example =
    verify_player_identities_iff alice_and_bob game (identity_map alice_and_bob (text "lichess"))

verify_identity_hash_binds_example :
    bound_fields (text "alice") (text "GA") (text "bob") (text "GB")
    ≡ bound_fields (text "Alice ") (text "GA") (text "bob") (text "gb")
unfolding verify_identity_hash alice_and_bob
verify_identity_hash_binds_example =
    verify_identity_hash_binds plain_hash (λ s t e. cc) (λ s. refl) alice_and_bob (text "Alice ")
      (text "GA") (text "bob") (text "gb") refl (omega arith) (omega arith) refl

verify_game_result_frame_example :
    KeepsRest 3 one_match
      (verify_game_result plain_hash from_lichess from_chessdotcom 5 request one_match).0
unfolding find_by_game_id one_match
verify_game_result_frame_example =
    verify_game_result_frame plain_hash from_lichess from_chessdotcom 5 request one_match 3
      (λ m e. ground arith)

-- The request is accepted although Bob has white, and the result is the provider's.
accepted_run :
    (verify_game_result plain_hash from_lichess from_chessdotcom 5 request one_match).1
    ≡ accepted alice_and_bob game
unfolding verify_game_result find_by_game_id fetch_for judge verify_player_identities
    verify_identity_hash one_match
accepted_run = refl
