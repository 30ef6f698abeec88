-- ===== src/Dlq/Eviction.antt =====
-- What eviction and writing do to the entries of the dead-letter queue
-- (`evictExpiredDlqEntries` and `writeToDlq` of apps/backend/src/queue.ts).
use smile4money.Common.{
  ℕ, ◌≡◌, refl, inl, inr, Bool, true, false, none, some, List, [], ◌∷◌, String, Bool-cases, All,
  keep, if◌then◌else◌, arith,
}
use smile4money.Common.Keys.{◌===◌, string_eq}
use smile4money.Dlq.{DlqEntry, IsFresh, QueueStore}
use smile4money.Dlq.Worker.{evict_expired_dlq_entries, remove_entries, is_expired, write_to_dlq}

module _ {P : Type 0} (q : QueueStore P) where
  open q use {
    Store, IsGood, add, get_all, remove, update, count, find, find-add, find-remove, listing_found,
    find-get_all, add-IsGood, remove-IsGood,
  }

  mentions : String → List (DlqEntry P) → Bool
  mentions i [] = false
  mentions i (e ∷ es) = if e.id === i then true else mentions i es

  unmentioned-IsFresh : (i : String) (es : List (DlqEntry P)) → mentions i es ≡ false → IsFresh i es
  unfolding mentions
  unmentioned-IsFresh i [] h = tt
  unmentioned-IsFresh i (e ∷ es) h = ground (arith, unmentioned-IsFresh i es)

  find-remove_entries :
      (i : String) (es : List (DlqEntry P)) (s : Store)
      → find i (remove_entries q es s) ≡ (if mentions i es then none else find i s)
  unfolding remove_entries mentions
  find-remove_entries i [] s = refl
  find-remove_entries i (e ∷ es) s =
      ground (arith, find-remove_entries i es (remove e.id s), find-remove i e.id s)

  mentions-keep :
      (p : DlqEntry P → Bool) (e : DlqEntry P) (s : Store) (es : List (DlqEntry P))
      → All (λ x. find x.id s ≡ some x) es
      → find e.id s ≡ some e
      → mentions e.id (keep p es) ≡ (if mentions e.id es then p e else false)
  unfolding mentions
  mentions-keep p e s [] a h = refl
  mentions-keep p e s (x ∷ es) a h =
      ground (arith, mentions-keep p e s es a.1 h, string_eq.beq_iff x.id e.id)

  mentions-get_all :
      (e : DlqEntry P) (s : Store)
      → IsGood s
      → find e.id s ≡ some e
      → mentions e.id (get_all s) ≡ true
  mentions-get_all e s g h = elim (Bool-cases (mentions e.id (get_all s))) [
    | inl yes_it ↦ yes_it
    | inr fresh ↦ cc (find-get_all e.id s g (unmentioned-IsFresh e.id (get_all s) fresh))
  ]

  -- Eviction removes an entry exactly when it is older than the limit: of a store in good order it
  -- leaves what is stored under each id, but for the entries created more than `ttl_days` before.
  pub find-evict :
      (ttl_days now : ℕ) (s : Store) (e : DlqEntry P)
      → IsGood s
      → find e.id s ≡ some e
      → find e.id (evict_expired_dlq_entries q ttl_days now s).0
        ≡ (if is_expired q ttl_days now e then none else some e)
  unfolding evict_expired_dlq_entries
  find-evict ttl_days now s e g h = ground (
    arith,
    find-remove_entries e.id (keep (is_expired q ttl_days now) (get_all s)) s,
    mentions-keep (is_expired q ttl_days now) e s (get_all s) (listing_found s g) h,
    mentions-get_all e s g h,
  )

  -- A failed submission is written under its id with no attempt on record and the given payload,
  -- reason and time; what is stored under every other id stays, and the store stays in good order.
  pub find-write_to_dlq :
      (id i : String) (now : ℕ) (payload : P) (reason : String) (s : Store)
      → IsGood s
      → let (t, entry) = write_to_dlq q id now payload reason s in
        (find i t ≡ (if id === i then some entry else find i s))
        × (entry.payload ≡ payload)
        × (entry.attempts ≡ 0)
        × (entry.created_at ≡ now)
        × IsGood t
  unfolding write_to_dlq
  find-write_to_dlq id i now payload reason s g =
      (find-add i _ s, refl, refl, refl, add-IsGood _ s g)
