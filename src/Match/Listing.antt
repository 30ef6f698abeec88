-- ===== src/Match/Listing.antt =====
-- The index of game ids and what the operations of the match store list (apps/backend/src/store/match-store.ts).
use smile4money.Common.{
  ℕ, ◌+◌, ◌<◌, ◌≤◌, ◌≡◌, refl, ◌↔◌, true, false, none, some, is_some, List, [], ◌∷◌, ◌++◌, length,
  All, All-append, length-append, if◌then◌else◌, or_else, arith,
}
use mathlib.Core.Option
use mathlib.Core.List.{append-nil}
use smile4money.Common.Keys.{◌===◌, nat_eq}
use smile4money.Common.OrderedMap.{OrderedMap, get, set, get-set}
use smile4money.Common.OrderedSet.{member, insert, member-insert}
use smile4money.Common.Text.{Text, text_eq, text_beq_iff}
use smile4money.Match.{MatchRecord, CreateMatchPayload, CanonicalSettlementEvidence}
use smile4money.Match.Store.{
  MatchStore, created, refused, duplicate_game_id, max_safe_integer, empty_store, new_record,
  create_match, find_record, find_by_game_id, unlink_records, unlink_identities,
  save_settlement_evidence, get_settlement_evidence, get_settlement_evidence_history, last_of,
  count, is_linked, unlinked,
}

-- Ids are below the next one, and the index holds the game ids of the records and no other.
pub record IsGood (s : MatchStore) : Type 0 where
  pub ids_below : All (λ e. (e.0 < s.next_id) × (e.1.match_id ≡ e.0)) s.matches
  pub indexed : (g : Text) → member g s.game_ids ≡ is_some (find_by_game_id g s)

-- A new key goes to the end of the map.
set_fresh :
    (i : ℕ) (m : MatchRecord) (ms : OrderedMap ℕ MatchRecord) (n : ℕ)
    → All (λ e. (e.0 < n) × (e.1.match_id ≡ e.0)) ms
    → n ≤ i
    → set i m ms ≡ ms ++ ((i, m) ∷ [])
unfolding set
set_fresh i m [] n h le = refl
set_fresh i m ((j, w) ∷ ms) n h le = ground (arith, set_fresh i m ms n h.1 le)

find_record-append :
    (g : Text) (i : ℕ) (m : MatchRecord) (ms : OrderedMap ℕ MatchRecord)
    → find_record g (ms ++ ((i, m) ∷ [])) ≡ (
        if is_some (find_record g ms)
        then find_record g ms
        else if m.game_id === g
        then some m
        else none)
unfolding find_record
find_record-append g i m [] = refl
find_record-append g i m ((j, w) ∷ ms) = ground (arith, find_record-append g i m ms)

All-grow :
    (n : ℕ) (ms : OrderedMap ℕ MatchRecord)
    → All (λ e. (e.0 < n) × (e.1.match_id ≡ e.0)) ms
    → All (λ e. (e.0 < n + 1) × (e.1.match_id ≡ e.0)) ms
All-grow n [] h = tt
All-grow n ((j, w) ∷ ms) h = ((omega arith, h.0.1), All-grow n ms h.1)

length-snoc :
    (i : ℕ) (m : MatchRecord) (ms : OrderedMap ℕ MatchRecord)
    → length (ms ++ ((i, m) ∷ [])) ≡ length ms + 1
length-snoc i m ms = length-append ms ((i, m) ∷ [])

module _ (sha256 : Text → Text) where
  -- The store in which `p` is entered.
  unfoldable pub entered : CreateMatchPayload → MatchStore → MatchStore
  entered p s = record s {
    matches = s.matches ++ ((s.next_id, new_record sha256 s.next_id p) ∷ []);
    game_ids = insert p.game_id s.game_ids;
    next_id = s.next_id + 1;
  }

  pub create_match-entered :
      (p : CreateMatchPayload) (s t : MatchStore) (m : MatchRecord)
      → IsGood s
      → create_match sha256 p s ≡ created m t
      → (t ≡ entered p s)
        × (m ≡ new_record sha256 s.next_id p)
        × (member p.game_id s.game_ids ≡ false)
  unfolding create_match entered
  create_match-entered p s t m g h =
      ground
        (arith, set_fresh s.next_id (new_record sha256 s.next_id p) s.matches s.next_id g.ids_below)

  pub create_match-fresh :
      (p : CreateMatchPayload) (s : MatchStore)
      → IsGood s
      → s.next_id ≤ max_safe_integer
      → member p.game_id s.game_ids ≡ false
      → create_match sha256 p s ≡ created (new_record sha256 s.next_id p) (entered p s)
  unfolding create_match entered
  create_match-fresh p s g le h =
      ground
        (arith, set_fresh s.next_id (new_record sha256 s.next_id p) s.matches s.next_id g.ids_below)

  entered-find :
      (p : CreateMatchPayload) (s : MatchStore) (g : Text)
      → IsGood s
      → member p.game_id s.game_ids ≡ false
      → find_by_game_id g (entered p s)
        ≡ (if p.game_id === g then some (new_record sha256 s.next_id p) else find_by_game_id g s)
  unfolding find_by_game_id entered new_record
  entered-find p s g v h = ground (
    arith,
    find_record-append g s.next_id (new_record sha256 s.next_id p) s.matches,
    text_beq_iff p.game_id g,
    v.indexed g,
  )

  pub entered-IsGood :
      (p : CreateMatchPayload) (s : MatchStore)
      → IsGood s
      → member p.game_id s.game_ids ≡ false
      → IsGood (entered p s)
  unfolding entered new_record
  entered-IsGood p s v h = record {
    ids_below =
        All-append _ s.matches _ (All-grow s.next_id s.matches v.ids_below)
          ((omega arith, refl), tt);
    indexed = λ g.
        ground (arith, member-insert p.game_id g s.game_ids, entered-find p s g v h, v.indexed g);
  }

  same_id :
      (p : CreateMatchPayload) (s : MatchStore)
      → (new_record sha256 s.next_id p).match_id ≡ s.next_id
  unfolding new_record
  same_id p s = refl

  pub next_entered :
      (p : CreateMatchPayload) (s : MatchStore) → (entered p s).next_id ≡ s.next_id + 1
  unfolding entered
  next_entered p s = refl

  count-entered : (p : CreateMatchPayload) (s : MatchStore) → count (entered p s) ≡ count s + 1
  unfolding count entered
  count-entered p s = length-snoc s.next_id (new_record sha256 s.next_id p) s.matches

  -- A match that is created has the next id and is found under its game id; what is found under
  -- every other game id stays; the store holds one record more, its next id is one higher, and its
  -- index of game ids stays true.
  pub create_match-created :
      (p : CreateMatchPayload) (s t : MatchStore) (m : MatchRecord) (g : Text)
      → IsGood s
      → create_match sha256 p s ≡ created m t
      → (find_by_game_id g t ≡ (if p.game_id === g then some m else find_by_game_id g s))
        × (m.match_id ≡ s.next_id)
        × (t.next_id ≡ s.next_id + 1)
        × (count t ≡ count s + 1)
        × IsGood t
  create_match-created p s t m g v h =
      let (et, em, free) = create_match-entered p s t m v h in
      rw (et, em)
        (
          entered-find p s g v free,
          same_id p s,
          next_entered p s,
          count-entered p s,
          entered-IsGood p s v free,
        )

  -- While ids are left, a match is refused exactly when its game id is taken, and then as a
  -- duplicate.
  pub create_match_duplicate :
      (p : CreateMatchPayload) (s : MatchStore)
      → IsGood s
      → s.next_id ≤ max_safe_integer
      → (create_match sha256 p s ≡ refused duplicate_game_id)
        ↔ (is_some (find_by_game_id p.game_id s) ≡ true)
  unfolding create_match
  create_match_duplicate p s v h = ground (arith, v.indexed p.game_id)

pub empty_store-IsGood : IsGood empty_store
unfolding empty_store find_by_game_id member
empty_store-IsGood = record { ids_below = tt; indexed = λ g. refl }

-- What unlinking an address makes of a record.
abbrev pub after_unlink : Text → MatchRecord → MatchRecord
after_unlink a m = if is_linked a m then unlinked m else m

find_record-unlink :
    (a g : Text) (ms : OrderedMap ℕ MatchRecord)
    → find_record g (unlink_records a ms).0 ≡ Option.map (after_unlink a) (find_record g ms)
unfolding find_record unlink_records
find_record-unlink a g [] = refl
find_record-unlink a g ((i, m) ∷ ms) = ground (arith, find_record-unlink a g ms)

unlink_records_again :
    (a : Text) (ms : OrderedMap ℕ MatchRecord) → (unlink_records a (unlink_records a ms).0).1 ≡ 0
unfolding unlink_records
unlink_records_again a [] = refl
unlink_records_again a ((i, m) ∷ ms) = ground (arith, unlink_records_again a ms)

-- Unlinking an address removes the usernames and the identity hash of exactly the records in which
-- the address plays and one of them is set: the record found under each game id is the former one
-- without them, or the former one. Nothing else of the store changes, and unlinking again finds
-- nothing left to do.
pub unlink_identities_lem :
    (a g : Text) (s : MatchStore)
    → let (t, n) = unlink_identities a s in
      (find_by_game_id g t ≡ Option.map (after_unlink a) (find_by_game_id g s))
      × (t.game_ids ≡ s.game_ids)
      × (t.next_id ≡ s.next_id)
      × (t.evidence_by_match ≡ s.evidence_by_match)
      × ((unlink_identities a t).1 ≡ 0)
unfolding unlink_identities find_by_game_id
unlink_identities_lem a g s =
    (find_record-unlink a g s.matches, refl, refl, refl, unlink_records_again a s.matches)

last_of-snoc {ℓ} : {A : Type ℓ} (xs : List A) (x : A) → last_of (xs ++ (x ∷ [])) ≡ some x
last_of-snoc [] x = refl
last_of-snoc (y ∷ []) x = refl
last_of-snoc (y ∷ z ∷ xs) x = last_of-snoc (z ∷ xs) x

-- Evidence is only ever appended: saving it makes it the last entry of its match's history, which
-- keeps all former entries in order, and leaves the histories of other matches and all matches.
pub save_settlement_evidence_lem :
    (e : CanonicalSettlementEvidence) (s : MatchStore) (i : ℕ)
    → let t = save_settlement_evidence e s in
      (get_settlement_evidence_history i t
        ≡ get_settlement_evidence_history i s ++ (if e.match_id === i then e ∷ [] else []))
      × (get_settlement_evidence e.match_id t ≡ some e)
      × (t.matches ≡ s.matches)
unfolding save_settlement_evidence get_settlement_evidence_history get_settlement_evidence
save_settlement_evidence_lem e s i = (
  ground (
    arith,
    get-set e.match_id i (or_else (get e.match_id s.evidence_by_match) [] ++ (e ∷ []))
        s.evidence_by_match,
    append-nil (or_else (get i s.evidence_by_match) []),
  ),
  ground (
    arith,
    get-set e.match_id e.match_id (or_else (get e.match_id s.evidence_by_match) [] ++ (e ∷ []))
        s.evidence_by_match,
    last_of-snoc (or_else (get e.match_id s.evidence_by_match) []) e,
  ),
  refl,
)
