-- ===== src/Match/Creation/Accepted.antt =====
-- The matches that the API creates (`createMatchForPlayer` of
-- apps/backend/src/services/match-service.ts with apps/backend/src/store/match-store.ts).
use smile4money.Common.{
  ℕ, ◌≡◌, ◌≤◌, refl, sym, ap, subst, ◌∙◌, true, false, Option, none, some, is_some, or_else,
  if◌then◌else◌, arith, Bool-cases, Option-cases, inl, inr, [], ◌∷◌,
}
use smile4money.Common.Keys.{◌===◌, nat_eq}
use smile4money.Common.Text.{Text, text, text_eq, is_empty, is_truthy, contains}
use smile4money.Match.{MatchRecord, CreateMatchPayload}
use smile4money.Match.Store
use smile4money.Match.Listing.{IsGood, create_match-created, create_match-entered}
use smile4money.Match.Creation.{
  Amount, whole, CreateMatchInput, Fetchers, Identities, Stored, stored, rejected, success,
  validate_create_match_input, get_game_result_with_player_identities, payload_of, error_of, answer,
  create_match_for_player, create_in_memory, is_game_id, is_known_platform, is_in_range, whole_of,
  min_stake, max_stake,
}

-- The rules of the API for a match.
abbrev pub IsWellFormed : MatchRecord → Type 0
IsWellFormed m =
    (is_empty m.player2 ≡ false)
    × (min_stake ≤ m.stake_amount)
    × (m.stake_amount ≤ max_stake)
    × (is_empty m.token ≡ false)
    × (is_game_id m.game_id ≡ true)
    × (is_known_platform (some m.platform) ≡ true)

-- What is valid of an input.
abbrev Fits : CreateMatchInput → Type 0
Fits i =
    (is_empty (or_else i.player2 []) ≡ false)
    × (min_stake ≤ whole_of i.stake_amount)
    × (whole_of i.stake_amount ≤ max_stake)
    × (is_empty (or_else i.token []) ≡ false)
    × (is_game_id (or_else i.game_id []) ≡ true)
    × (is_known_platform (some (or_else i.platform [])) ≡ true)

truthy_given : (o : Option Text) → is_truthy o ≡ true → is_empty (or_else o []) ≡ false
truthy_given none h = ground arith
truthy_given (some []) h = ground arith
truthy_given (some (c ∷ s)) h = refl

range_given :
    (a : Option Amount) → is_in_range a ≡ true → (min_stake ≤ whole_of a) × (whole_of a ≤ max_stake)
range_given none h = ground arith
range_given (some (whole n)) h = ground arith
range_given (some Amount.negative) h = ground arith
range_given (some Amount.fractional) h = ground arith

known_given :
    (p : Option Text) → is_known_platform p ≡ true → is_known_platform (some (or_else p [])) ≡ true
known_given none h = ground arith
known_given (some p) h = h

passed :
    (player1 : Option Text) (i : CreateMatchInput)
    → validate_create_match_input player1 i ≡ none
    → (is_truthy i.player2 ≡ true)
      × (is_in_range i.stake_amount ≡ true)
      × (is_truthy i.token ≡ true)
      × (is_game_id (or_else i.game_id []) ≡ true)
      × (is_known_platform i.platform ≡ true)
unfolding validate_create_match_input
passed player1 i h = ground arith

input-Fits :
    (player1 : Option Text) (i : CreateMatchInput)
    → validate_create_match_input player1 i ≡ none
    → Fits i
input-Fits player1 i h =
    let (p2, range, token, game, platform) = passed player1 i h in
    let (low, high) = range_given i.stake_amount range in
    (
      truthy_given i.player2 p2,
      low,
      high,
      truthy_given i.token token,
      game,
      known_given i.platform platform,
    )

answered :
    {S : Type 0} (o : Stored S) (t : S) (m : MatchRecord)
    → answer o ≡ (t, success m)
    → o ≡ stored m t
unfolding answer
answered (stored n u) t m h = ground arith
answered (rejected message u) t m h = elim (Bool-cases (contains (text "duplicate") message)) [
  | inl e ↦ ground arith
  | inr e ↦ ground arith
]

module _ (sha256 : Text → Text) (f : Fetchers) where
  abbrev pub found_for : CreateMatchInput → Identities
  found_for i =
      get_game_result_with_player_identities f (or_else i.platform []) (or_else i.game_id [])
        i.username

  -- What a success tells of the parts of the call.
  successful :
      {S : Type 0} (create : CreateMatchPayload → S → Stored S) (player1 : Text)
      (i : CreateMatchInput) (s t : S) (m : MatchRecord)
      → create_match_for_player create f player1 i s ≡ (t, success m)
      → (validate_create_match_input (some player1) i ≡ none)
        × (create (payload_of player1 i (found_for i)) s ≡ stored m t)
  unfolding create_match_for_player
  successful create player1 i s t m h =
      elim (Option-cases (validate_create_match_input (some player1) i)) [
        | inr (e, v) ↦ ground (arith, v)
        | inl v ↦ elim (Option-cases (error_of (found_for i))) [
          | inr (e, w) ↦ ground (arith, v, w)
          | inl w ↦ (
            v,
            answered (create (payload_of player1 i (found_for i)) s) t m (ground (arith, v, w)),
          )
        ]
      ]

  in_memory_created :
      (p : CreateMatchPayload) (s t : Store.MatchStore) (m : MatchRecord)
      → create_in_memory sha256 p s ≡ stored m t
      → Store.create_match sha256 p s ≡ Store.created m t
  unfolding create_in_memory
  in_memory_created p s t m h = ground arith

  recorded :
      (player1 : Text) (i : CreateMatchInput) (id : ℕ)
      → Fits i
      → IsWellFormed (Store.new_record sha256 id (payload_of player1 i (found_for i)))
  unfolding Store.new_record payload_of
  recorded player1 i id fits = fits

  recorded_id :
      (id : ℕ) (p : CreateMatchPayload) → (Store.new_record sha256 id p).game_id ≡ p.game_id
  unfolding Store.new_record
  recorded_id id p = refl

  -- A match that the API creates in memory keeps its rules: the stake is in range, the game id is made of
  -- at most 64 letters, digits, `_` and `-`, the platform is known, token and opponent are given. It is
  -- then found under its game id, under which nothing was found before, and every other match is found
  -- as before.
  pub created_match-IsWellFormed :
      (player1 : Text) (i : CreateMatchInput) (s t : Store.MatchStore) (m : MatchRecord) (g : Text)
      → IsGood s
      → create_match_for_player (create_in_memory sha256) f player1 i s ≡ (t, success m)
      → IsWellFormed m
        × (Store.find_by_game_id g t
            ≡ (if m.game_id === g then some m else Store.find_by_game_id g s))
        × (is_some (Store.find_by_game_id m.game_id s) ≡ false)
        × IsGood t
  created_match-IsWellFormed player1 i s t m g good h =
      let p = payload_of player1 i (found_for i) in
      let (valid, made) = successful (create_in_memory sha256) player1 i s t m h in
      let done = in_memory_created p s t m made in
      let (et, em, free) = create_match-entered sha256 p s t m good done in
      let (find, id, next, count, still_good) = create_match-created sha256 p s t m g good done in
      let fits = recorded player1 i s.next_id (input-Fits (some player1) i valid) in
      let same : m.game_id ≡ p.game_id = ap (λ r. r.game_id) em ∙ recorded_id s.next_id p in
      (
        subst IsWellFormed (sym em) fits,
        find ∙ ap (λ k. if k === g then some m else Store.find_by_game_id g s) (sym same),
        ap (λ k. is_some (Store.find_by_game_id k s)) same ∙ sym (good.indexed p.game_id) ∙ free,
        still_good,
      )
