-- ===== src/Dlq/Memory.antt =====
-- The in-memory queue store fills the contract: apps/backend/src/store/in-memory-queue-store.ts.
use smile4money.Common.{
  ℕ, ◌≡◌, refl, false, none, some, List, [], ◌∷◌, String, length, All, if◌then◌else◌, Option-cases,
  ap, suc, inl, inr, arith,
}
use smile4money.Common.Keys.{◌===◌, string_eq}
use smile4money.Common.OrderedMap.{
  OrderedMap, get, has, set, delete, values, Distinct, get-set, get-delete, has-get, set-Distinct,
  delete-Distinct,
}
use smile4money.Dlq.{DlqEntry, Updates, merge, map_entry, IsFresh, IsDistinct, QueueStore}

module _ {P : Type 0} where
  unfoldable pub add : DlqEntry P → OrderedMap String (DlqEntry P) → OrderedMap String (DlqEntry P)
  add e s = set e.id e s

  unfoldable pub get_all : OrderedMap String (DlqEntry P) → List (DlqEntry P)
  get_all s = values s

  unfoldable pub remove : String → OrderedMap String (DlqEntry P) → OrderedMap String (DlqEntry P)
  remove i s = delete i s

  unfoldable pub update :
      String → Updates P → OrderedMap String (DlqEntry P) → OrderedMap String (DlqEntry P)
  update i u s = elim (get i s) [ none ↦ s | some existing ↦ set i (merge existing u) s ]

  unfoldable pub count : OrderedMap String (DlqEntry P) → ℕ
  count s = length s

  unfoldable pub clear : OrderedMap String (DlqEntry P) → OrderedMap String (DlqEntry P)
  clear s = []

  -- Every entry stands under its own id, and no id stands twice.
  abbrev pub IsGood : OrderedMap String (DlqEntry P) → Type 0
  IsGood s = All (λ e. e.0 ≡ e.1.id) s × Distinct s

  set-keyed :
      (i : String) (e : DlqEntry P) (s : OrderedMap String (DlqEntry P))
      → i ≡ e.id
      → All (λ e. e.0 ≡ e.1.id) s
      → All (λ e. e.0 ≡ e.1.id) (set i e s)
  unfolding set
  set-keyed i e [] k h = (k, tt)
  set-keyed i e ((j, w) ∷ s) k h = ground (arith, string_eq.beq_iff j i, set-keyed i e s k h.1)

  delete-keyed :
      (i : String) (s : OrderedMap String (DlqEntry P))
      → All (λ e. e.0 ≡ e.1.id) s
      → All (λ e. e.0 ≡ e.1.id) (delete i s)
  unfolding delete
  delete-keyed i [] h = h
  delete-keyed i ((j, w) ∷ s) h = ground (arith, delete-keyed i s h.1)

  get-keyed :
      (i : String) (s : OrderedMap String (DlqEntry P)) (e : DlqEntry P)
      → All (λ e. e.0 ≡ e.1.id) s
      → get i s ≡ some e
      → i ≡ e.id
  unfolding get
  get-keyed i [] e h g = cc
  get-keyed i ((j, w) ∷ s) e h g = ground (arith, string_eq.beq_iff j i, get-keyed i s e h.1)

  pub find-update :
      (i j : String) (u : Updates P) (s : OrderedMap String (DlqEntry P))
      → get i (update j u s) ≡ (if j === i then map_entry (λ e. merge e u) (get i s) else get i s)
  unfolding update
  find-update i j u s = elim (Option-cases (get j s)) [
    | inl p ↦ rw (p, update) (ground (arith, string_eq.beq_iff j i))
    | inr (e, p) ↦ rw (p, update) (ground (arith, get-set j i (merge e u) s, string_eq.beq_iff j i))
  ]

  found_under :
      (j : String) (w : DlqEntry P) (s : OrderedMap String (DlqEntry P)) (es : List (DlqEntry P))
      → has j s ≡ false
      → All (λ e. get e.id s ≡ some e) es
      → All (λ e. get e.id ((j, w) ∷ s) ≡ some e) es
  unfolding get
  found_under j w s [] a h = tt
  found_under j w s (e ∷ es) a h =
      (ground (arith, string_eq.beq_iff j e.id, has-get j s), found_under j w s es a h.1)

  listing_found :
      (s : OrderedMap String (DlqEntry P)) → IsGood s → All (λ e. get e.id s ≡ some e) (values s)
  listing_found [] h = tt
  listing_found ((j, w) ∷ s) h = (
    unfold get in ground (arith, string_eq.beq_iff j w.id),
    found_under j w s (values s) h.1.0 (listing_found s (h.0.1, h.1.1)),
  )

  find-get_all :
      (i : String) (s : OrderedMap String (DlqEntry P))
      → IsGood s
      → IsFresh i (values s)
      → get i s ≡ none
  unfolding get
  find-get_all i [] h f = refl
  find-get_all i ((j, w) ∷ s) h f =
      ground (arith, string_eq.beq_iff j i, find-get_all i s (h.0.1, h.1.1) f.1)

  absent-IsFresh :
      (i : String) (s : OrderedMap String (DlqEntry P))
      → All (λ e. e.0 ≡ e.1.id) s
      → has i s ≡ false
      → IsFresh i (values s)
  unfolding has
  absent-IsFresh i [] k h = tt
  absent-IsFresh i ((j, w) ∷ s) k h = ground (arith, absent-IsFresh i s k.1)

  get_all-IsDistinct : (s : OrderedMap String (DlqEntry P)) → IsGood s → IsDistinct (values s)
  get_all-IsDistinct [] h = tt
  get_all-IsDistinct ((j, w) ∷ s) h =
      ground (arith, absent-IsFresh j s h.0.1, get_all-IsDistinct s (h.0.1, h.1.1))

  pub add-IsGood :
      (e : DlqEntry P) (s : OrderedMap String (DlqEntry P)) → IsGood s → IsGood (add e s)
  unfolding add
  add-IsGood e s h = (set-keyed e.id e s refl h.0, set-Distinct e.id e s h.1)

  pub remove-IsGood :
      (i : String) (s : OrderedMap String (DlqEntry P)) → IsGood s → IsGood (remove i s)
  unfolding remove
  remove-IsGood i s h = (delete-keyed i s h.0, delete-Distinct i s h.1)

  pub update-IsGood :
      (i : String) (u : Updates P) (s : OrderedMap String (DlqEntry P))
      → IsGood s
      → IsGood (update i u s)
  unfolding update
  update-IsGood i u s h = elim (Option-cases (get i s)) [
    | inl p ↦ rw (p, update) h
    | inr (e, p) ↦
        rw (p, update)
          (set-keyed i (merge e u) s (get-keyed i s e h.0 p) h.0, set-Distinct i (merge e u) s h.1)
  ]

module _ {P : Type 0} where
  pub find-add :
      (i : String) (e : DlqEntry P) (s : OrderedMap String (DlqEntry P))
      → get i (add e s) ≡ (if e.id === i then some e else get i s)
  unfolding add
  find-add i e s = get-set e.id i e s

  pub find-remove :
      (i j : String) (s : OrderedMap String (DlqEntry P))
      → get i (remove j s) ≡ (if j === i then none else get i s)
  unfolding remove
  find-remove i j s = get-delete j i s

  pub every_listed :
      (s : OrderedMap String (DlqEntry P)) → IsGood s → All (λ e. get e.id s ≡ some e) (get_all s)
  unfolding get_all
  every_listed s h = listing_found s h

  pub unlisted :
      (i : String) (s : OrderedMap String (DlqEntry P))
      → IsGood s
      → IsFresh i (get_all s)
      → get i s ≡ none
  unfolding get_all
  unlisted i s h f = find-get_all i s h f

  pub listed_once : (s : OrderedMap String (DlqEntry P)) → IsGood s → IsDistinct (get_all s)
  unfolding get_all
  listed_once s h = get_all-IsDistinct s h

  length-values : (s : OrderedMap String (DlqEntry P)) → length s ≡ length (values s)
  length-values [] = refl
  length-values (x ∷ s) = ap suc (length-values s)

  pub count-get_all : (s : OrderedMap String (DlqEntry P)) → count s ≡ length (get_all s)
  unfolding count get_all
  count-get_all s = length-values s

-- The in-memory store keeps the contract.
abbrev pub memory : (P : Type 0) → QueueStore P
memory P = record {
  Store = OrderedMap String (DlqEntry P);
  IsGood = IsGood;
  add = add;
  get_all = get_all;
  remove = remove;
  update = update;
  count = count;
  find = get;
  find-add = find-add;
  find-remove = find-remove;
  find-update = find-update;
  listing_found = every_listed;
  find-get_all = unlisted;
  get_all-IsDistinct = listed_once;
  count-get_all = count-get_all;
  add-IsGood = add-IsGood;
  remove-IsGood = remove-IsGood;
  update-IsGood = update-IsGood;
}
