-- ===== src/Match/SqliteStore.antt =====
-- The match store on SQLite: apps/backend/src/store/sqlite-match-store.ts. The tables are lists of
-- rows in the order of their ids.
pub mod Rows
pub mod Refinement
mod Examples
use smile4money.Common.{
  ℕ, ◌+◌, ◌-◌, ◌*◌, ◌/◌, Bool, true, false, ◌&&◌, ◌||◌, Option, none, some, List, [], ◌∷◌, ◌++◌,
  length, max, leb, keep, if◌then◌else◌, or_else, ◌==◌,
}
use smile4money.Common.Keys.{◌===◌, nat_eq}
use smile4money.Common.Text.{Text, text, text_eq, is_truthy}
use smile4money.Match.{MatchRecord, MatchState, CreateMatchPayload, CanonicalSettlementEvidence}
use smile4money.Match.Store.{new_record, last_of}

pub record SqliteMatchStore : Type 0 where
  pub matches : List MatchRecord
  pub settlement_evidence : List CanonicalSettlementEvidence
  pub next_id : ℕ

unfoldable pub new_database : SqliteMatchStore
new_database = record { matches = []; settlement_evidence = []; next_id = 0 }

-- The id of the next row, above all that are there.
unfoldable pub next_free : List MatchRecord → ℕ
next_free [] = 0
next_free (m ∷ ms) = max (m.match_id + 1) (next_free ms)

abbrev pub day_ms : ℕ
day_ms = 24 * 60 * 60 * 1000

-- The stored time has a `T` where the limit has a space, so the texts compare as the days do.
unfoldable pub drop_old_evidence :
    ℕ → List CanonicalSettlementEvidence → List CanonicalSettlementEvidence
drop_old_evidence now es =
    keep (λ e. leb ((now - 30 * day_ms) / day_ms) (e.evaluated_at / day_ms)) es

-- Opening the store on what an earlier process left.
unfoldable pub initialize : ℕ → SqliteMatchStore → SqliteMatchStore
unfolding next_free drop_old_evidence
initialize now s = record s {
  settlement_evidence = drop_old_evidence now s.settlement_evidence;
  next_id = next_free s.matches;
}

-- The timer that removes old evidence once a day.
unfoldable pub clean_up_evidence : ℕ → SqliteMatchStore → SqliteMatchStore
unfolding drop_old_evidence
clean_up_evidence now s = record s {
  settlement_evidence = drop_old_evidence now s.settlement_evidence;
}

abbrev pub is_taken : ℕ → Text → List MatchRecord → Bool
is_taken i g [] = false
is_taken i g (m ∷ ms) = (m.match_id == i || m.game_id === g) || is_taken i g ms

-- `none` is the violation of a constraint. The id is used up in either case.
unfoldable pub create_match :
    (Text → Text) → CreateMatchPayload → SqliteMatchStore → SqliteMatchStore × Option MatchRecord
unfolding new_record
create_match sha256 p s =
    let m = new_record sha256 s.next_id p in
    if is_taken s.next_id p.game_id s.matches
    then (record s { next_id = s.next_id + 1 }, none)
    else (record s { matches = s.matches ++ (m ∷ []); next_id = s.next_id + 1 }, some m)

unfoldable pub find_row : Text → List MatchRecord → Option MatchRecord
find_row g [] = none
find_row g (m ∷ ms) = if m.game_id === g then some m else find_row g ms

unfoldable pub find_by_game_id : Text → SqliteMatchStore → Option MatchRecord
unfolding find_row
find_by_game_id g s = find_row g s.matches

unfoldable pub save_settlement_evidence :
    CanonicalSettlementEvidence → SqliteMatchStore → SqliteMatchStore
save_settlement_evidence e s = record s { settlement_evidence = s.settlement_evidence ++ (e ∷ []) }

unfoldable pub get_settlement_evidence_history :
    ℕ → SqliteMatchStore → List CanonicalSettlementEvidence
get_settlement_evidence_history i s = keep (λ e. e.match_id === i) s.settlement_evidence

unfoldable pub get_settlement_evidence : ℕ → SqliteMatchStore → Option CanonicalSettlementEvidence
get_settlement_evidence i s = last_of (keep (λ e. e.match_id === i) s.settlement_evidence)

unfoldable pub count : SqliteMatchStore → ℕ
count s = length s.matches

unfoldable pub clear : SqliteMatchStore → SqliteMatchStore
clear s = record s { matches = []; next_id = 0 }
