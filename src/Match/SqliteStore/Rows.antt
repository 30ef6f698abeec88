-- ===== src/Match/SqliteStore/Rows.antt =====
-- Rows of the table of matches (apps/backend/src/store/sqlite-match-store.ts): what is found in them,
-- and which ids are free.
use smile4money.Common.{
  ℕ, max, not, ◌+◌, ◌≡◌, ◌≤◌, ◌<◌, refl, ap, suc, Bool, Option, none, some, is_some, List, [], ◌∷◌,
  ◌++◌, length, keep, map, All, arith,
}
use mathlib.Core.Option
use smile4money.Common.Keys.{nat_eq}
use smile4money.Common.OrderedMap.{OrderedMap, values}
use smile4money.Common.Text.{Text, text_eq}
use smile4money.Match.{MatchRecord, CreateMatchPayload}
use smile4money.Match.Store
use smile4money.Match.SqliteStore.{
  SqliteMatchStore, initialize, next_free, create_match, find_by_game_id, find_row, is_taken,
}

-- A record but for its id.
abbrev pub erased : MatchRecord → MatchRecord
erased m = record m { match_id = 0 }

pub find-erased :
    (g : Text) (ms : List MatchRecord)
    → Option.map erased (find_row g ms) ≡ find_row g (map erased ms)
unfolding find_row
find-erased g [] = refl
find-erased g (m ∷ ms) = ground (arith, find-erased g ms)

pub find-values :
    (g : Text) (m : OrderedMap ℕ MatchRecord) → Store.find_record g m ≡ find_row g (values m)
unfolding find_row Store.find_record
find-values g [] = refl
find-values g ((i, r) ∷ m) = ground (arith, find-values g m)

pub is_some-map : (o : Option MatchRecord) → is_some (Option.map erased o) ≡ is_some o
is_some-map none = refl
is_some-map (some m) = refl

pub taken-find :
    (i : ℕ) (g : Text) (ms : List MatchRecord)
    → All (λ r. r.match_id < i) ms
    → is_taken i g ms ≡ is_some (find_row g ms)
unfolding find_row
taken-find i g [] h = refl
taken-find i g (m ∷ ms) h = ground (arith, taken-find i g ms h.1)

pub keep-append :
    {A : Type 0} (p : A → Bool) (xs ys : List A) → keep p (xs ++ ys) ≡ keep p xs ++ keep p ys
keep-append p [] ys = refl
keep-append p (x ∷ xs) ys = ground (arith, keep-append p xs ys)

pub map-append :
    (xs : List MatchRecord) (x : MatchRecord)
    → map erased (xs ++ (x ∷ [])) ≡ map erased xs ++ (erased x ∷ [])
map-append [] x = refl
map-append (y ∷ xs) x = ap (λ r. erased y ∷ r) (map-append xs x)

pub values-append :
    (m : OrderedMap ℕ MatchRecord) (i : ℕ) (x : MatchRecord)
    → values (m ++ ((i, x) ∷ [])) ≡ values m ++ (x ∷ [])
values-append [] i x = refl
values-append ((j, y) ∷ m) i x = ap (λ r. y ∷ r) (values-append m i x)

pub ids_grow :
    (n : ℕ) (ms : List MatchRecord)
    → All (λ r. r.match_id < n) ms
    → All (λ r. r.match_id < n + 1) ms
ids_grow n [] h = tt
ids_grow n (m ∷ ms) h = (omega (arith, h.0), ids_grow n ms h.1)

pub length-erased : (ms : List MatchRecord) → length (map erased ms) ≡ length ms
length-erased [] = refl
length-erased (m ∷ ms) = ap suc (length-erased ms)

pub length-values : (m : OrderedMap ℕ MatchRecord) → length (values m) ≡ length m
length-values [] = refl
length-values (x ∷ m) = ap suc (length-values m)

pub ids_weaken :
    (n k : ℕ) (ms : List MatchRecord)
    → n ≤ k
    → All (λ r. r.match_id < n) ms
    → All (λ r. r.match_id < k) ms
ids_weaken n k [] le h = tt
ids_weaken n k (m ∷ ms) le h = (omega (arith, h.0), ids_weaken n k ms le h.1)

next_free_above : (ms : List MatchRecord) → All (λ r. r.match_id < next_free ms) ms
unfolding next_free
next_free_above [] = tt
next_free_above (m ∷ ms) = (
  omega arith,
  ids_weaken (next_free ms) (max (m.match_id + 1) (next_free ms)) ms (omega arith)
      (next_free_above ms),
)

-- A store that is opened again finds the matches that it had, and refuses a match exactly when its game
-- id is one of theirs.
pub reopened_store_accepts :
    (sha256 : Text → Text) (now : ℕ) (p : CreateMatchPayload) (g : Text) (s : SqliteMatchStore)
    → let t = initialize now s in
      (find_by_game_id g t ≡ find_by_game_id g s)
      × (is_some (create_match sha256 p t).1 ≡ not (is_some (find_by_game_id p.game_id s)))
unfolding initialize find_by_game_id create_match
reopened_store_accepts sha256 now p g s = (
  refl,
  ground (arith, taken-find (next_free s.matches) p.game_id s.matches (next_free_above s.matches)),
)
