-- ===== src/Match/Creation/Examples.antt =====
-- A match on a game of Alice and Bob, created and created again.
use smile4money.Common.{
  All, ◌<◌, ◌≤◌, ◌≡◌, ◌↔◌, refl, true, false, none, some, is_some, if◌then◌else◌, arith,
}
use smile4money.Common.Keys.{◌===◌}
use smile4money.Common.OrderedSet.{member, insert}
use smile4money.Common.OrderedMap.{set}
use smile4money.Common.Text.{Text, text, text_eq, to_upper_case, to_lower_case, trim, join}
use smile4money.Match.{MatchRecord}
use smile4money.Match.Store
use smile4money.Match.Identity.{compute_identity_hash, normalize_username, normalize_address}
use smile4money.Match.SqliteStore
use smile4money.Match.Listing.{IsGood, empty_store-IsGood}
use smile4money.Match.Creation.{
  whole, CreateMatchInput, Fetchers, fetched, game_not_found, success, failure, duplicate_game_id,
  store_failed, validate_create_match_input, get_game_result_with_player_identities, error_of,
  create_match_for_player, create_in_memory, create_on_sqlite, payload_of, answer, is_game_id,
}
use smile4money.Match.Creation.Duplicates.{duplicate_reported}
use smile4money.Match.Creation.Accepted.{IsWellFormed, created_match-IsWellFormed}

abbrev hash : Text → Text
hash s = s

abbrev fetchers : Fetchers
fetchers = record {
  lichess = λ g. fetched (record { white_player = text "alice"; black_player = text "bob" });
  chessdotcom = λ user g. game_not_found (text "no such game");
}

abbrev input : CreateMatchInput
input = record {
  player2 = some (text "GB");
  stake_amount = some (whole 100);
  token = some (text "XLM");
  game_id = some (text "abc-1");
  platform = some (text "lichess");
  username = none;
}

abbrev first : MatchRecord
unfolding Store.new_record payload_of get_game_result_with_player_identities
first = Store.new_record hash 0 (
    payload_of (text "GA") input
      (get_game_result_with_player_identities fetchers (text "lichess") (text "abc-1") none))

abbrev after_first : Store.MatchStore
unfolding create_match_for_player create_in_memory
after_first =
    (create_match_for_player (create_in_memory hash) fetchers (text "GA") input Store.empty_store).0

made :
    create_match_for_player (create_in_memory hash) fetchers (text "GA") input Store.empty_store
    ≡ (after_first, success first)
unfolding validate_create_match_input is_game_id to_upper_case answer create_match_for_player
    create_in_memory Store.create_match Store.empty_store Store.new_record payload_of member insert
    set get_game_result_with_player_identities first after_first compute_identity_hash
    normalize_username normalize_address join to_lower_case trim
made = refl

created_match-IsWellFormed_example :
    IsWellFormed first
    × (Store.find_by_game_id (text "abc-1") after_first ≡ (
        if first.game_id === text "abc-1"
        then some first
        else Store.find_by_game_id (text "abc-1") Store.empty_store))
    × (is_some (Store.find_by_game_id first.game_id Store.empty_store) ≡ false)
    × IsGood after_first
created_match-IsWellFormed_example =
    created_match-IsWellFormed hash fetchers (text "GA") input Store.empty_store after_first first
      (text "abc-1") empty_store-IsGood made

-- A store whose error does not say that it is about a duplicate, as the driver of SQLite words it.
abbrev message : Text
message = text "SQLITE_CONSTRAINT: UNIQUE constraint failed: matches.gameId"

abbrev database : SqliteStore.SqliteMatchStore
unfolding create_match_for_player create_on_sqlite
database =
    (create_match_for_player (create_on_sqlite hash message) fetchers (text "GA") input
      SqliteStore.new_database).0

duplicate_as_server_error :
    (create_match_for_player (create_on_sqlite hash message) fetchers (text "GA") input database).1
    ≡ failure 500 (store_failed message)
unfolding database Store.new_record payload_of validate_create_match_input is_game_id to_upper_case
    answer SqliteStore.create_match SqliteStore.new_database get_game_result_with_player_identities
    create_match_for_player create_on_sqlite
duplicate_as_server_error = refl

after_first-IsGood : IsGood after_first
after_first-IsGood =
    (created_match-IsWellFormed hash fetchers (text "GA") input Store.empty_store after_first first
      (text "abc-1") empty_store-IsGood made).3

ids_left : after_first.next_id ≤ Store.max_safe_integer
ids_left =
    unfold after_first create_match_for_player create_in_memory validate_create_match_input
      is_game_id to_upper_case get_game_result_with_player_identities answer Store.create_match
      Store.empty_store member in
    omega arith

ids_below : All (λ m. m.match_id < database.next_id) database.matches
ids_below =
    unfold database create_match_for_player create_on_sqlite validate_create_match_input is_game_id
      to_upper_case get_game_result_with_player_identities answer Store.new_record
      SqliteStore.create_match SqliteStore.new_database payload_of in
    (omega arith, tt)

duplicate_reported_example :
    (((create_match_for_player (create_in_memory hash) fetchers (text "GA") input after_first).1
        ≡ failure 409 duplicate_game_id)
      ↔ ((validate_create_match_input (some (text "GA")) input ≡ none)
          × (error_of (
                get_game_result_with_player_identities fetchers
                  (text "lichess")
                  (text "abc-1")
                  none)
              ≡ none)
          × (is_some (Store.find_by_game_id (text "abc-1") after_first) ≡ true)))
    × (((create_match_for_player
            (create_on_sqlite hash message)
            fetchers
            (text "GA")
            input
            database).1
          ≡ failure 500 (store_failed message))
        ↔ ((validate_create_match_input (some (text "GA")) input ≡ none)
            × (error_of (
                  get_game_result_with_player_identities fetchers
                    (text "lichess")
                    (text "abc-1")
                    none)
                ≡ none)
            × (is_some (SqliteStore.find_by_game_id (text "abc-1") database) ≡ true)))
duplicate_reported_example =
    duplicate_reported hash fetchers (text "GA") input after_first database message
      after_first-IsGood ids_left refl ids_below
