-- ===== src/Match/SqliteStore/Examples.antt =====
-- Two matches, one of them entered twice, with evidence for the first.
use smile4money.Common.{◌≡◌, none, some, List, [], ◌∷◌, arith}
use mathlib.Core.Option
use smile4money.Common.Text.{Text, text}
use smile4money.Match.{CreateMatchPayload, CanonicalSettlementEvidence, Decision}
use smile4money.Match.Store
use smile4money.Match.SqliteStore.{
  new_database, find_by_game_id, get_settlement_evidence, get_settlement_evidence_history, count,
}
use smile4money.Match.SqliteStore.Rows.{erased}
use smile4money.Match.SqliteStore.Refinement.{
  Call, creates, saves, on_sqlite, in_memory, refines_memory_store,
}

abbrev hash : Text → Text
hash s = s

abbrev payload : Text → CreateMatchPayload
payload g = record {
  player1 = text "GA";
  player2 = text "GB";
  player1_username = some (text "alice");
  player2_username = none;
  stake_amount = 100;
  token = text "XLM";
  game_id = g;
  platform = text "lichess";
}

abbrev evidence : CanonicalSettlementEvidence
evidence = record {
  parser_version = text "1";
  evaluated_at = 5000;
  match_id = 0;
  game_id = text "g1";
  platform = text "lichess";
  white_player = text "alice";
  black_player = text "bob";
  result = none;
  status = text "started";
  decision = Decision.verified;
}

abbrev calls : List Call
calls =
    creates (payload (text "g1"))
    ∷ creates (payload (text "g1"))
    ∷ saves evidence
    ∷ creates (payload (text "g2"))
    ∷ []

refines_memory_store_example :
    let s = on_sqlite hash calls new_database in
    let m = in_memory hash calls Store.empty_store in
    (s.1 ≡ m.1)
    × (Option.map erased (find_by_game_id (text "g2") s.0)
        ≡ Option.map erased (Store.find_by_game_id (text "g2") m.0))
    × (count s.0 ≡ Store.count m.0)
    × (get_settlement_evidence_history 0 s.0 ≡ Store.get_settlement_evidence_history 0 m.0)
    × (get_settlement_evidence 0 s.0 ≡ Store.get_settlement_evidence 0 m.0)
refines_memory_store_example = refines_memory_store hash calls (text "g2") 0 (omega arith)
