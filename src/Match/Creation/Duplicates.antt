-- ===== src/Match/Creation/Duplicates.antt =====
-- What the API answers for a game id that is taken (`createMatchForPlayer` of
-- apps/backend/src/services/match-service.ts with the stores of
-- apps/backend/src/store/match-store.ts and apps/backend/src/store/sqlite-match-store.ts).
use smile4money.Common.{
  Bool, All, ◌<◌, ℕ, ◌≡◌, ◌≤◌, ◌↔◌, refl, sym, ap, subst, ◌∙◌, true, false, none, some, is_some,
  or_else, if◌then◌else◌, arith, le→leb, leb, ◌+◌, Bool-cases, Option-cases, inl, inr, [],
}
use smile4money.Common.Keys.{nat_eq}
use smile4money.Common.OrderedSet.{member, insert}
use smile4money.Common.OrderedMap.{set}
use smile4money.Common.Text.{Text, text, text_eq, contains}
use smile4money.Match.{MatchRecord, CreateMatchPayload}
use smile4money.Match.Store
use smile4money.Match.Listing.{IsGood}
use smile4money.Match.Creation.{
  CreateMatchInput, Fetchers, Stored, stored, rejected, success, failure, duplicate_game_id,
  store_failed, Failure, invalid_input, invalid_game, InputError, create_on_sqlite,
  validate_create_match_input, payload_of, error_of, answer, create_match_for_player,
  create_in_memory,
}
use smile4money.Match.SqliteStore
use smile4money.Match.SqliteStore.Rows.{taken-find}
use smile4money.Match.Creation.Accepted.{found_for}

-- The failures that only a store causes.
abbrev IsOfStore : Failure → Type 0
IsOfStore duplicate_game_id = Unit
IsOfStore (store_failed message) = Unit
IsOfStore _ = ⊥

not_of_store :
    (status : ℕ) (e : Failure) (other_status : ℕ) (other_ : Failure)
    → failure status e ≡ failure other_status other_
    → IsOfStore e
    → (IsOfStore other_ → ⊥)
    → ⊥
not_of_store status e other_status other_ h a b =
    let same : e ≡ other_ = cc in b (subst IsOfStore same a)

was_taken :
    (taken : Bool) (status : ℕ) (e : Failure) (m : MatchRecord)
    → failure status e ≡ (if taken then failure status e else success m)
    → taken ≡ true
was_taken true status e m h = refl
was_taken false status e m h = absurd (ground (arith, h))

module _ (sha256 : Text → Text) (f : Fetchers) where
  -- What the store answers for a game id that is free.
  after_accepted : CreateMatchPayload → Store.MatchStore → Store.MatchStore
  after_accepted p s = record s {
    matches = set s.next_id (Store.new_record sha256 s.next_id p) s.matches;
    game_ids = insert p.game_id s.game_ids;
    next_id = s.next_id + 1;
  }

  accepts :
      (p : CreateMatchPayload) (s : Store.MatchStore)
      → leb s.next_id Store.max_safe_integer ≡ true
      → member p.game_id s.game_ids ≡ false
      → create_in_memory sha256 p s
        ≡ stored (Store.new_record sha256 s.next_id p) (after_accepted p s)
  unfolding create_in_memory Store.create_match after_accepted
  accepts p s in_range e = ground (arith, in_range, e)

  refuses :
      (p : CreateMatchPayload) (s : Store.MatchStore)
      → leb s.next_id Store.max_safe_integer ≡ true
      → member p.game_id s.game_ids ≡ true
      → Store.create_match sha256 p s ≡ Store.refused Store.duplicate_game_id
  unfolding Store.create_match
  refuses p s in_range e = rw (in_range, e) refl

  rejects :
      (p : CreateMatchPayload) (s : Store.MatchStore)
      → Store.create_match sha256 p s ≡ Store.refused Store.duplicate_game_id
      → create_in_memory sha256 p s ≡ rejected (text "duplicate game_id") s
  unfolding create_in_memory
  rejects p s e = rw (e, create_in_memory) refl

  answered_in_memory :
      (p : CreateMatchPayload) (s : Store.MatchStore)
      → s.next_id ≤ Store.max_safe_integer
      → (answer (create_in_memory sha256 p s)).1 ≡ (
          if member p.game_id s.game_ids
          then failure 409 duplicate_game_id
          else success (Store.new_record sha256 s.next_id p))
  answered_in_memory p s le =
      let in_range = le→leb s.next_id Store.max_safe_integer le in
      elim (Bool-cases (member p.game_id s.game_ids)) [
        | inl e ↦ rw (e, rejects p s (refuses p s in_range e)) (unfold answer in refl)
        | inr e ↦ rw (e, accepts p s in_range e) (unfold answer in refl)
      ]

  row_made :
      (p : CreateMatchPayload) (s : SqliteStore.SqliteMatchStore)
      → (SqliteStore.create_match sha256 p s).1 ≡ (
          if SqliteStore.is_taken s.next_id p.game_id s.matches
          then none
          else some (Store.new_record sha256 s.next_id p))
  unfolding SqliteStore.create_match
  row_made p s = ground arith

  row_refused :
      (message : Text) (p : CreateMatchPayload) (s : SqliteStore.SqliteMatchStore)
      → (SqliteStore.create_match sha256 p s).1 ≡ none
      → create_on_sqlite sha256 message p s
        ≡ rejected message (SqliteStore.create_match sha256 p s).0
  unfolding create_on_sqlite
  row_refused message p s e = ground (arith, e)

  row_stored :
      (message : Text) (p : CreateMatchPayload) (s : SqliteStore.SqliteMatchStore) (m : MatchRecord)
      → (SqliteStore.create_match sha256 p s).1 ≡ some m
      → create_on_sqlite sha256 message p s ≡ stored m (SqliteStore.create_match sha256 p s).0
  unfolding create_on_sqlite
  row_stored message p s m e = ground (arith, e)

  refused_with :
      {S : Type 0} (message : Text) (t : S)
      → contains (text "duplicate") message ≡ false
      → (answer (rejected message t)).1 ≡ failure 500 (store_failed message)
  unfolding answer
  refused_with message t plain = ground (arith, plain)

  answered_on_sqlite :
      (message : Text) (p : CreateMatchPayload) (s : SqliteStore.SqliteMatchStore)
      → contains (text "duplicate") message ≡ false
      → All (λ m. m.match_id < s.next_id) s.matches
      → (answer (create_on_sqlite sha256 message p s)).1 ≡ (
          if is_some (SqliteStore.find_by_game_id p.game_id s)
          then failure 500 (store_failed message)
          else success (Store.new_record sha256 s.next_id p))
  unfolding SqliteStore.find_by_game_id
  answered_on_sqlite message p s plain fresh =
      let taken = taken-find s.next_id p.game_id s.matches fresh in
      elim (Bool-cases (SqliteStore.is_taken s.next_id p.game_id s.matches)) [
        | inl e ↦
            let made : (SqliteStore.create_match sha256 p s).1 ≡ none = row_made p s ∙ rw e refl in
            rw (← taken, e, row_refused message p s made)
              (refused_with message (SqliteStore.create_match sha256 p s).0 plain)
        | inr e ↦
            let m = Store.new_record sha256 s.next_id p in
            let made : (SqliteStore.create_match sha256 p s).1 ≡ some m =
              row_made p s ∙ rw e refl in
            rw (← taken, e, row_stored message p s m made) (unfold answer in refl)
      ]

  module _ {S : Type 0} (create : CreateMatchPayload → S → Stored S) (player1 : Text)
      (i : CreateMatchInput) (s : S) where
    reply_invalid :
        (x : InputError)
        → validate_create_match_input (some player1) i ≡ some x
        → (create_match_for_player create f player1 i s).1 ≡ failure 400 (invalid_input x)
    unfolding create_match_for_player
    reply_invalid x v = ground (arith, v)

    reply_unfound :
        (x : Text)
        → validate_create_match_input (some player1) i ≡ none
        → error_of (found_for sha256 f i) ≡ some x
        → (create_match_for_player create f player1 i s).1 ≡ failure 400 (invalid_game x)
    unfolding create_match_for_player
    reply_unfound x v w = ground (arith, v, w)

    reply_of_store :
        validate_create_match_input (some player1) i ≡ none
        → error_of (found_for sha256 f i) ≡ none
        → (create_match_for_player create f player1 i s).1
          ≡ (answer (create (payload_of player1 i (found_for sha256 f i)) s)).1
    unfolding create_match_for_player
    reply_of_store v w = ground (arith, v, w)

    -- What the API answers, if the store answers this for the payload.
    replied :
        (taken : Bool) (status : ℕ) (e : Failure) (m : MatchRecord)
        → (answer (create (payload_of player1 i (found_for sha256 f i)) s)).1
          ≡ (if taken then failure status e else success m)
        → IsOfStore e
        → ((create_match_for_player create f player1 i s).1 ≡ failure status e) ↔ (
            (validate_create_match_input (some player1) i ≡ none)
            × (error_of (found_for sha256 f i) ≡ none)
            × (taken ≡ true))
    replied taken status e m reply of_store =
        elim (Option-cases (validate_create_match_input (some player1) i)) [
          | inr (x, v) ↦ (
            λ h. absurd (
                not_of_store status e 400 (invalid_input x) (sym h ∙ reply_invalid x v) of_store
                  (λ k. k)),
            λ h. ground (arith, h, v),
          )
          | inl v ↦ elim (Option-cases (error_of (found_for sha256 f i))) [
            | inr (x, w) ↦ (
              λ h. absurd (
                  not_of_store status e 400 (invalid_game x) (sym h ∙ reply_unfound x v w) of_store
                    (λ k. k)),
              λ h. ground (arith, h, w),
            )
            | inl w ↦ (
              λ h. (v, w, was_taken taken status e m (sym h ∙ reply_of_store v w ∙ reply)),
              λ h. reply_of_store v w ∙ reply ∙ ground (arith, h.2),
            )
          ]
        ]

  -- With the store in memory, while ids are left, the API reports a duplicate exactly when the input is
  -- valid, the game was found and its id is taken. The API stands on the store on SQLite: if the driver's
  -- message of a violated constraint does not hold the word duplicate, and the ids in the table are
  -- below the next one, then the same requests, and no others, are answered with status 500 and that
  -- message.
  pub duplicate_reported :
      (player1 : Text) (i : CreateMatchInput) (s : Store.MatchStore)
      (t : SqliteStore.SqliteMatchStore) (message : Text)
      → IsGood s
      → s.next_id ≤ Store.max_safe_integer
      → contains (text "duplicate") message ≡ false
      → All (λ m. m.match_id < t.next_id) t.matches
      → (((create_match_for_player (create_in_memory sha256) f player1 i s).1
            ≡ failure 409 duplicate_game_id)
          ↔ ((validate_create_match_input (some player1) i ≡ none)
              × (error_of (found_for sha256 f i) ≡ none)
              × (is_some (Store.find_by_game_id (or_else i.game_id []) s) ≡ true)))
        × (((create_match_for_player (create_on_sqlite sha256 message) f player1 i t).1
              ≡ failure 500 (store_failed message))
            ↔ ((validate_create_match_input (some player1) i ≡ none)
                × (error_of (found_for sha256 f i) ≡ none)
                × (is_some (SqliteStore.find_by_game_id (or_else i.game_id []) t) ≡ true)))
  duplicate_reported player1 i s t message good le plain fresh =
      let p = payload_of player1 i (found_for sha256 f i) in
      let id : p.game_id ≡ or_else i.game_id [] = unfold payload_of in refl in
      let taken : member p.game_id s.game_ids
          ≡ is_some (Store.find_by_game_id (or_else i.game_id []) s) =
        ap (λ g. member g s.game_ids) id ∙ good.indexed (or_else i.game_id []) in
      (
        replied (create_in_memory sha256) player1 i s
            (is_some (Store.find_by_game_id (or_else i.game_id []) s)) 409 duplicate_game_id
            (Store.new_record sha256 s.next_id p)
            (answered_in_memory p s le
              ∙ ap
                  (λ b.
                    if b
                    then failure 409 duplicate_game_id
                    else success (Store.new_record sha256 s.next_id p))
                  taken)
            tt,
        replied (create_on_sqlite sha256 message) player1 i t
            (is_some (SqliteStore.find_by_game_id (or_else i.game_id []) t)) 500
            (store_failed message) (Store.new_record sha256 t.next_id p)
            (answered_on_sqlite message p t plain fresh
              ∙ ap
                  (λ g.
                    if is_some (SqliteStore.find_by_game_id g t)
                    then failure 500 (store_failed message)
                    else success (Store.new_record sha256 t.next_id p))
                  id)
            tt,
      )
