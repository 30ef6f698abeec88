-- ===== src/Dlq/SqliteStore/Rows.antt =====
-- The rows of the table as the entries of a map (the statements of
-- apps/backend/src/store/sqlite-queue-store.ts beside
-- apps/backend/src/store/in-memory-queue-store.ts).
use smile4money.Common.{
  ℕ, ◌≡◌, ◌≢◌, ◌≤◌, refl, sym, ap, ◌∙◌, Bool, true, false, Option, none, some, List, [], ◌∷◌, ◌++◌,
  String, length, le→leb, or_else, keep, map, All, All-append, arith, Bool-cases, Option-cases, inl,
  inr, suc,
}
use smile4money.Common.Keys.{◌===◌, string_eq}
use smile4money.Common.OrderedMap.{OrderedMap, get, has, set, delete, values, Distinct}
use smile4money.Dlq.{DlqEntry, Updates, merge}
use smile4money.Dlq.Memory
use smile4money.Dlq.SqliteStore.{
  Row, truthy_time, entry_of, is_taken, delete_row, insert_created, by_created, update_rows,
  set_columns,
}

set_time :
    (l : Option (Option ℕ)) (o : Option ℕ)
    → l ≢ some (some 0)
    → truthy_time (or_else l o) ≡ or_else l (truthy_time o)
set_time none o h = refl
set_time (some none) o h = refl
set_time (some (some n)) o h = ground arith

module _ {P : Type 0} where
  -- The map that the rows stand for.
  unfoldable pub entries : List (Row P) → OrderedMap String (DlqEntry P)
  entries [] = []
  entries (r ∷ t) = (r.id, entry_of r) ∷ entries t

  -- An update that sets the columns which the store can set, to a time that it can hold.
  abbrev pub IsAttempt : Updates P → Type 0
  IsAttempt u =
      (u.payload ≡ none)
      × (u.failure_reason ≡ none)
      × (u.created_at ≡ none)
      × (u.trace_context ≡ none)
      × (u.last_attempt_at ≢ some (some 0))

  pub taken-entries : (i : String) (t : List (Row P)) → is_taken i t ≡ has i (entries t)
  unfolding entries has
  taken-entries i [] = refl
  taken-entries i (r ∷ t) = ground (arith, taken-entries i t)

  pub entries-append :
      (r : Row P) (t : List (Row P))
      → has r.id (entries t) ≡ false
      → entries (t ++ (r ∷ [])) ≡ set r.id (entry_of r) (entries t)
  unfolding entries has set
  entries-append r [] h = refl
  entries-append r (q ∷ t) h = ground (arith, entries-append r t)

  pub entries-delete :
      (i : String) (t : List (Row P)) → entries (delete_row i t) ≡ delete i (entries t)
  unfolding entries delete_row delete
  entries-delete i [] = refl
  entries-delete i (r ∷ t) = ground (arith, entries-delete i t)

  merged :
      (u : Updates P) (r : Row P) → IsAttempt u → entry_of (set_columns u r) ≡ merge (entry_of r) u
  unfolding entry_of
  merged u r h = rw (h.0, h.1, h.2, h.3, set_time u.last_attempt_at r.last_attempt_at h.4) refl

  update_absent :
      (i : String) (f : Row P → Row P) (t : List (Row P))
      → has i (entries t) ≡ false
      → update_rows i f t ≡ t
  unfolding entries has update_rows
  update_absent i f [] h = refl
  update_absent i f (r ∷ t) h = ground (arith, update_absent i f t)

  update_first :
      (i j : String) (u : Updates P) (w : DlqEntry P) (m : OrderedMap String (DlqEntry P))
      → (j === i) ≡ true
      → Memory.update i u ((j, w) ∷ m) ≡ (j, merge w u) ∷ m
  unfolding Memory.update get set
  update_first i j u w m e = ground (arith, e)

  update_later :
      (i j : String) (u : Updates P) (w : DlqEntry P) (m : OrderedMap String (DlqEntry P))
      → (j === i) ≡ false
      → Memory.update i u ((j, w) ∷ m) ≡ (j, w) ∷ Memory.update i u m
  unfolding Memory.update get set
  update_later i j u w m e = elim (Option-cases (get i m)) [
    | inl g ↦ ground (arith, e)
    | inr (v, g) ↦ ground (arith, e)
  ]

  pub entries-update :
      (i : String) (u : Updates P) (t : List (Row P))
      → IsAttempt u
      → Distinct (entries t)
      → entries (update_rows i (set_columns u) t) ≡ Memory.update i u (entries t)
  unfolding entries update_rows
  entries-update i u [] h d = unfold Memory.update get in refl
  entries-update i u (r ∷ t) h d = elim (Bool-cases (r.id === i)) [
    | inl e ↦
        let same : has i (entries t) ≡ false = ground (arith, string_eq.beq_iff r.id i) in
        rw (e, update_absent i (set_columns u) t same, merged u r h)
          (sym (update_first i r.id u (entry_of r) (entries t) e))
    | inr e ↦ rw e (
        ap (λ m. (r.id, entry_of r) ∷ m) (entries-update i u t h d.1)
        ∙ sym (update_later i r.id u (entry_of r) (entries t) e))
  ]

  -- Whether the rows are in the order of `createdAt`, and below a bound.
  abbrev pub IsAscending : List (Row P) → Type 0
  IsAscending [] = Unit
  IsAscending (r ∷ t) = All (λ q. r.created_at ≤ q.created_at) t × IsAscending t

  insert_first :
      (r : Row P) (t : List (Row P))
      → All (λ q. r.created_at ≤ q.created_at) t
      → insert_created r t ≡ r ∷ t
  unfolding insert_created
  insert_first r [] h = refl
  insert_first r (q ∷ t) h = rw (le→leb r.created_at q.created_at h.0) refl

  pub sorted_already : (t : List (Row P)) → IsAscending t → by_created t ≡ t
  unfolding by_created
  sorted_already [] h = refl
  sorted_already (r ∷ t) h = ap (insert_created r) (sorted_already t h.1) ∙ insert_first r t h.0

  pub keep_same : (p : Row P → Bool) (t : List (Row P)) → All (λ r. p r ≡ true) t → keep p t ≡ t
  keep_same p [] h = refl
  keep_same p (r ∷ t) h = rw h.0 (ap (λ t. r ∷ t) (keep_same p t h.1))

  pub values-entries : (t : List (Row P)) → values (entries t) ≡ map entry_of t
  unfolding entries
  values-entries [] = refl
  values-entries (r ∷ t) = ap (λ es. entry_of r ∷ es) (values-entries t)

  pub length-entries : (t : List (Row P)) → length (entries t) ≡ length t
  unfolding entries
  length-entries [] = refl
  length-entries (r ∷ t) = ap suc (length-entries t)

  pub All-delete :
      (Q : Row P → Type 0) (i : String) (t : List (Row P)) → All Q t → All Q (delete_row i t)
  unfolding delete_row
  All-delete Q i [] h = tt
  All-delete Q i (r ∷ t) h = elim (Bool-cases (r.id === i)) [
    | inl e ↦ rw e (All-delete Q i t h.1)
    | inr e ↦ rw e (h.0, All-delete Q i t h.1)
  ]

  pub delete-IsAscending :
      (i : String) (t : List (Row P)) → IsAscending t → IsAscending (delete_row i t)
  unfolding delete_row
  delete-IsAscending i [] h = tt
  delete-IsAscending i (r ∷ t) h = elim (Bool-cases (r.id === i)) [
    | inl e ↦ rw e (delete-IsAscending i t h.1)
    | inr e ↦
        rw e (All-delete (λ q. r.created_at ≤ q.created_at) i t h.0, delete-IsAscending i t h.1)
  ]

  pub All-update :
      (Q : Row P → Type 0) (i : String) (u : Updates P) (t : List (Row P))
      → ((r : Row P) → Q r → Q (set_columns u r))
      → All Q t
      → All Q (update_rows i (set_columns u) t)
  unfolding update_rows
  All-update Q i u [] step h = tt
  All-update Q i u (r ∷ t) step h = elim (Bool-cases (r.id === i)) [
    | inl e ↦ rw e (step r h.0, All-update Q i u t step h.1)
    | inr e ↦ rw e (h.0, All-update Q i u t step h.1)
  ]

  pub update-IsAscending :
      (i : String) (u : Updates P) (t : List (Row P))
      → IsAscending t
      → IsAscending (update_rows i (set_columns u) t)
  unfolding update_rows
  update-IsAscending i u [] h = tt
  update-IsAscending i u (r ∷ t) h =
      let later = All-update (λ q. r.created_at ≤ q.created_at) i u t (λ q k. k) h.0 in
      elim (Bool-cases (r.id === i)) [
        | inl e ↦ rw e (later, update-IsAscending i u t h.1)
        | inr e ↦ rw e (later, update-IsAscending i u t h.1)
      ]

  pub append-IsAscending :
      (r : Row P) (t : List (Row P))
      → IsAscending t
      → All (λ q. q.created_at ≤ r.created_at) t
      → IsAscending (t ++ (r ∷ []))
  append-IsAscending r [] h a = (tt, tt)
  append-IsAscending r (q ∷ t) h a = (
    All-append (λ p. q.created_at ≤ p.created_at) t (r ∷ []) h.0 (a.0, tt),
    append-IsAscending r t h.1 a.1,
  )
