-- ===== src/Match/SqliteStore/Refinement.antt =====
-- The match store on SQLite beside the one in memory: apps/backend/src/store/sqlite-match-store.ts and
-- apps/backend/src/store/match-store.ts.
use smile4money.Common.{
  ℕ, ◌+◌, ◌≡◌, ◌≤◌, ◌<◌, refl, sym, ap, ◌∙◌, Bool, true, false, is_some, List, [], ◌∷◌, ◌++◌,
  length, keep, map, All, All-append, or_else, arith, Bool-cases, inl, inr, le→leb,
}
use mathlib.Core.Option
use mathlib.Core.List.{append-nil}
use smile4money.Common.Keys.{◌===◌, nat_eq}
use smile4money.Common.OrderedMap.{get, get-set, values}
use smile4money.Common.OrderedSet.{member}
use smile4money.Common.Text.{Text, text_eq}
use smile4money.Match.{CreateMatchPayload, CanonicalSettlementEvidence}
use smile4money.Match.Store
use smile4money.Match.Listing.{
  IsGood, entered, entered-IsGood, create_match-fresh, next_entered, empty_store-IsGood,
}
use smile4money.Match.SqliteStore.{
  SqliteMatchStore, new_database, create_match, find_by_game_id, find_row, is_taken,
  save_settlement_evidence, get_settlement_evidence_history, get_settlement_evidence, count,
}
use smile4money.Match.SqliteStore.Rows.{
  erased, find-erased, find-values, is_some-map, taken-find, keep-append, map-append, values-append,
  ids_grow, length-erased, length-values,
}

pub data Call : Type 0 where
  creates : CreateMatchPayload → Call
  saves : CanonicalSettlementEvidence → Call

abbrev pub after_create : Store.CreateResult → Store.MatchStore → Store.MatchStore
after_create (Store.created m t) s = t
after_create (Store.refused e) s = s

abbrev pub is_created : Store.CreateResult → Bool
is_created (Store.created m t) = true
is_created (Store.refused e) = false

module _ (sha256 : Text → Text) where
  -- The stores after the calls, and which matches were accepted.
  unfoldable pub on_sqlite : List Call → SqliteMatchStore → SqliteMatchStore × List Bool
  on_sqlite [] s = (s, [])
  on_sqlite (creates p ∷ calls) s =
      let r = create_match sha256 p s in
      let rest = on_sqlite calls r.0 in (rest.0, is_some r.1 ∷ rest.1)
  on_sqlite (saves e ∷ calls) s = on_sqlite calls (save_settlement_evidence e s)

  unfoldable pub in_memory : List Call → Store.MatchStore → Store.MatchStore × List Bool
  in_memory [] m = (m, [])
  in_memory (creates p ∷ calls) m =
      let r = Store.create_match sha256 p m in
      let rest = in_memory calls (after_create r m) in (rest.0, is_created r ∷ rest.1)
  in_memory (saves e ∷ calls) m = in_memory calls (Store.save_settlement_evidence e m)

-- The stores hold the same but for the ids.
record IsLike (s : SqliteMatchStore) (m : Store.MatchStore) : Type 0 where
  rows : map erased s.matches ≡ map erased (values m.matches)
  ids_below : All (λ r. r.match_id < s.next_id) s.matches
  good : IsGood m
  fewer : m.next_id ≤ s.next_id
  histories :
      (i : ℕ)
      → keep (λ e. e.match_id === i) s.settlement_evidence ≡ or_else (get i m.evidence_by_match) []

like-find :
    (s : SqliteMatchStore) (m : Store.MatchStore) (g : Text)
    → IsLike s m
    → Option.map erased (find_by_game_id g s) ≡ Option.map erased (Store.find_by_game_id g m)
unfolding find_by_game_id Store.find_by_game_id
like-find s m g like =
    find-erased g s.matches
    ∙ ap (find_row g) like.rows
    ∙ sym (find-erased g (values m.matches))
    ∙ ap (Option.map erased) (sym (find-values g m.matches))

-- A game id is taken in both stores or in neither.
like-taken :
    (s : SqliteMatchStore) (m : Store.MatchStore) (g : Text)
    → IsLike s m
    → is_taken s.next_id g s.matches ≡ member g m.game_ids
like-taken s m g like =
    let found : Option.map erased (find_row g s.matches)
        ≡ Option.map erased (Store.find_by_game_id g m) =
      unfold find_by_game_id in like-find s m g like in
    taken-find s.next_id g s.matches like.ids_below
    ∙ sym (is_some-map (find_row g s.matches))
    ∙ ap is_some found
    ∙ is_some-map (Store.find_by_game_id g m)
    ∙ sym (like.good.indexed g)

save-IsLike :
    (e : CanonicalSettlementEvidence) (s : SqliteMatchStore) (m : Store.MatchStore)
    → IsLike s m
    → IsLike (save_settlement_evidence e s) (Store.save_settlement_evidence e m)
unfolding save_settlement_evidence Store.save_settlement_evidence
save-IsLike e s m like = record {
  rows = like.rows;
  ids_below = like.ids_below;
  good = record {
    ids_below = like.good.ids_below;
    indexed = λ g. unfold Store.find_by_game_id in like.good.indexed g;
  };
  fewer = like.fewer;
  histories = λ i. ground (
    arith,
    keep-append (λ e. e.match_id === i) s.settlement_evidence (e ∷ []),
    get-set e.match_id i (or_else (get e.match_id m.evidence_by_match) [] ++ (e ∷ []))
        m.evidence_by_match,
    like.histories i,
    append-nil (or_else (get i m.evidence_by_match) []),
  );
}

module _ (sha256 : Text → Text) (p : CreateMatchPayload) (s : SqliteMatchStore)
    (m : Store.MatchStore) where
  same_content :
      (i j : ℕ) → erased (Store.new_record sha256 i p) ≡ erased (Store.new_record sha256 j p)
  unfolding Store.new_record
  same_content i j = refl

  refused-IsLike :
      IsLike s m
      → is_taken s.next_id p.game_id s.matches ≡ true
      → (is_some (create_match sha256 p s).1 ≡ false) × IsLike (create_match sha256 p s).0 m
  unfolding create_match
  refused-IsLike like taken = rw taken (
    refl,
    record {
      rows = like.rows;
      ids_below = ids_grow s.next_id s.matches like.ids_below;
      good = like.good;
      fewer = omega (arith, like.fewer);
      histories = like.histories;
    },
  )

  rows_entered :
      IsLike s m
      → map erased (s.matches ++ (Store.new_record sha256 s.next_id p ∷ []))
        ≡ map erased (values (entered sha256 p m).matches)
  unfolding entered
  rows_entered like =
      let x = Store.new_record sha256 s.next_id p in
      let y = Store.new_record sha256 m.next_id p in
      map-append s.matches x
      ∙ ap (λ r. r ++ (erased x ∷ [])) like.rows
      ∙ ap (λ r. map erased (values m.matches) ++ (r ∷ [])) (same_content s.next_id m.next_id)
      ∙ sym (map-append (values m.matches) y)
      ∙ ap (map erased) (sym (values-append m.matches m.next_id y))

  evidence_entered : (entered sha256 p m).evidence_by_match ≡ m.evidence_by_match
  unfolding entered
  evidence_entered = refl

  created-IsLike :
      IsLike s m
      → is_taken s.next_id p.game_id s.matches ≡ false
      → member p.game_id m.game_ids ≡ false
      → (is_some (create_match sha256 p s).1 ≡ true)
        × IsLike (create_match sha256 p s).0 (entered sha256 p m)
  unfolding create_match
  created-IsLike like free fresh =
      let x = Store.new_record sha256 s.next_id p in
      let below : x.match_id < s.next_id + 1 = unfold Store.new_record in omega arith in
      rw free (
        refl,
        record {
          rows = rows_entered like;
          ids_below =
              All-append _ s.matches (x ∷ []) (ids_grow s.next_id s.matches like.ids_below)
                (below, tt);
          good = entered-IsGood sha256 p m like.good fresh;
          fewer = omega (arith, like.fewer, next_entered sha256 p m);
          histories = λ i. like.histories i ∙ ap (λ h. or_else (get i h) []) (sym evidence_entered);
        },
      )

  -- Both stores accept the match or both refuse it, and stay alike.
  create-IsLike :
      IsLike s m
      → m.next_id ≤ Store.max_safe_integer
      → let r = Store.create_match sha256 p m in
        (is_some (create_match sha256 p s).1 ≡ is_created r)
        × IsLike (create_match sha256 p s).0 (after_create r m)
  create-IsLike like le = elim (Bool-cases (is_taken s.next_id p.game_id s.matches)) [
    | inl e ↦
        let taken : member p.game_id m.game_ids ≡ true = sym (like-taken s m p.game_id like) ∙ e in
        let outcome : Store.create_match sha256 p m ≡ Store.refused Store.duplicate_game_id =
          unfold Store.create_match in
          rw (le→leb m.next_id Store.max_safe_integer le, taken) refl in
        rw outcome (refused-IsLike like e)
    | inr e ↦
        let fresh : member p.game_id m.game_ids ≡ false = sym (like-taken s m p.game_id like) ∙ e in
        rw (create_match-fresh sha256 p m like.good le fresh) (created-IsLike like e fresh)
  ]

  create_next : (create_match sha256 p s).0.next_id ≡ s.next_id + 1
  unfolding create_match
  create_next = ground arith

module _ (sha256 : Text → Text) where
  -- The answers of the stores to the calls agree, and so do the stores after them.
  run-IsLike :
      (calls : List Call) (s : SqliteMatchStore) (m : Store.MatchStore)
      → IsLike s m
      → s.next_id + length calls ≤ Store.max_safe_integer
      → ((on_sqlite sha256 calls s).1 ≡ (in_memory sha256 calls m).1)
        × IsLike (on_sqlite sha256 calls s).0 (in_memory sha256 calls m).0
  unfolding on_sqlite in_memory
  run-IsLike [] s m like le = (refl, like)
  run-IsLike (creates p ∷ calls) s m like le =
      let (same, next) = create-IsLike sha256 p s m like (omega (arith, like.fewer)) in
      let (answers, last) =
        run-IsLike calls (create_match sha256 p s).0
          (after_create (Store.create_match sha256 p m) m) next
          (omega (arith, create_next sha256 p s m)) in
      (rw (same, answers) refl, last)
  run-IsLike (saves e ∷ calls) s m like le =
      run-IsLike calls (save_settlement_evidence e s) (Store.save_settlement_evidence e m)
        (save-IsLike e s m like) (unfold save_settlement_evidence in omega arith)

new-IsLike : IsLike new_database Store.empty_store
new-IsLike = record {
  rows = unfold new_database Store.empty_store in refl;
  ids_below = unfold new_database in tt;
  good = empty_store-IsGood;
  fewer = unfold new_database Store.empty_store in omega arith;
  histories = λ i. unfold new_database Store.empty_store get in refl;
}

like-count : (s : SqliteMatchStore) (m : Store.MatchStore) → IsLike s m → count s ≡ Store.count m
unfolding count Store.count
like-count s m like =
    sym (length-erased s.matches)
    ∙ ap length like.rows
    ∙ length-erased (values m.matches)
    ∙ length-values m.matches

-- Between two clean-ups of its evidence, and while ids are left, the store on SQLite accepts and refuses
-- the same matches as the one in memory; it finds the same match under every game id, but for the id of
-- the match, counts as many, and lists the same evidence for every match id.
pub refines_memory_store :
    (sha256 : Text → Text) (calls : List Call) (g : Text) (i : ℕ)
    → length calls ≤ Store.max_safe_integer
    → let s = on_sqlite sha256 calls new_database in
      let m = in_memory sha256 calls Store.empty_store in
      (s.1 ≡ m.1)
      × (Option.map erased (find_by_game_id g s.0)
          ≡ Option.map erased (Store.find_by_game_id g m.0))
      × (count s.0 ≡ Store.count m.0)
      × (get_settlement_evidence_history i s.0 ≡ Store.get_settlement_evidence_history i m.0)
      × (get_settlement_evidence i s.0 ≡ Store.get_settlement_evidence i m.0)
refines_memory_store sha256 calls g i le =
    let (answers, like) =
      run-IsLike sha256 calls new_database Store.empty_store new-IsLike
        (unfold new_database in omega (arith, le)) in
    let s = (on_sqlite sha256 calls new_database).0 in
    let m = (in_memory sha256 calls Store.empty_store).0 in
    (
      answers,
      like-find s m g like,
      like-count s m like,
      unfold get_settlement_evidence_history Store.get_settlement_evidence_history in
          like.histories i,
      unfold get_settlement_evidence Store.get_settlement_evidence in
          ap Store.last_of (like.histories i),
    )
