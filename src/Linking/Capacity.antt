-- ===== src/Linking/Capacity.antt =====
-- How many challenges wait at most (`createIdentityLinkChallenge` of
-- apps/backend/src/services/player-identity.ts).
use smile4money.Common.{
  ℕ, ◌+◌, ◌≡◌, ◌≤◌, subst, sym, true, false, Bool, some, List, [], ◌∷◌, length, All, arith,
  Bool-cases, Option-cases, inl, inr, leb,
}
use smile4money.Common.OrderedMap.{OrderedMap, set, delete, length-set, length-delete-le}
use smile4money.Common.Text.{Text, text_eq, is_empty, trim}
use smile4money.Linking.{
  Links, PendingLink, IdentityLinkChallenge, create_identity_link_challenge, begin_confirm,
  finish_confirm, make_room, evict_oldest, without_expired, max_pending_links, link_nonce_ttl_ms,
}
use smile4money.Linking.Proofs.{
  World, Event, challenges, begins, finishes, step, after_all, start, flight_at,
}

without_expired-length-le :
    (now : ℕ) (m : OrderedMap Text PendingLink) → length (without_expired now m) ≤ length m
unfolding without_expired
without_expired-length-le now [] = omega arith
without_expired-length-le now ((n, p) ∷ m) = ground (arith, without_expired-length-le now m)

abbrev NoEmptyKey : OrderedMap Text PendingLink → Type 0
NoEmptyKey m = All (λ e. is_empty e.0 ≡ false) m

without_expired-NoEmptyKey :
    (now : ℕ) (m : OrderedMap Text PendingLink) → NoEmptyKey m → NoEmptyKey (without_expired now m)
unfolding without_expired
without_expired-NoEmptyKey now [] h = tt
without_expired-NoEmptyKey now ((n, p) ∷ m) h = ground (arith, without_expired-NoEmptyKey now m h.1)

make_room-length :
    (m : OrderedMap Text PendingLink) → NoEmptyKey m → length m ≤ 4096 → length (make_room m) ≤ 4095
unfolding make_room evict_oldest delete
make_room-length [] h le = omega arith
make_room-length ((n, p) ∷ m) h le = ground (arith, length-delete-le n m, text_eq.beq_iff n n)

delete-NoEmptyKey :
    (k : Text) (m : OrderedMap Text PendingLink) → NoEmptyKey m → NoEmptyKey (delete k m)
unfolding delete
delete-NoEmptyKey k [] h = tt
delete-NoEmptyKey k ((n, p) ∷ m) h = ground (arith, delete-NoEmptyKey k m h.1)

make_room-NoEmptyKey : (m : OrderedMap Text PendingLink) → NoEmptyKey m → NoEmptyKey (make_room m)
unfolding make_room evict_oldest
make_room-NoEmptyKey [] h = tt
make_room-NoEmptyKey ((n, p) ∷ m) h =
    elim (Bool-cases (leb max_pending_links (length ((n, p) ∷ m)))) [
      | inl e ↦ rw (e, h.0) (delete-NoEmptyKey n ((n, p) ∷ m) h)
      | inr e ↦ rw e h
    ]

set-NoEmptyKey :
    (k : Text) (p : PendingLink) (m : OrderedMap Text PendingLink)
    → is_empty k ≡ false
    → NoEmptyKey m
    → NoEmptyKey (set k p m)
unfolding set
set-NoEmptyKey k p [] ne h = (ne, tt)
set-NoEmptyKey k p ((n, q) ∷ m) ne h = ground (arith, set-NoEmptyKey k p m ne h.1)

-- At most as many challenges as the limit, none of them under an empty nonce.
abbrev Fits : OrderedMap Text PendingLink → Type 0
Fits m = (length m ≤ 4096) × NoEmptyKey m

entered-Fits :
    (k : Text) (p : PendingLink) (now : ℕ) (m : OrderedMap Text PendingLink)
    → is_empty k ≡ false
    → Fits m
    → Fits (set k p (make_room (without_expired now m)))
entered-Fits k p now m ne (le, h) =
    let left = without_expired now m in
    let kept = without_expired-NoEmptyKey now m h in
    let room = make_room-length left kept (omega (arith, without_expired-length-le now m)) in
    (
      ground (arith, length-set k p (make_room left), room),
      set-NoEmptyKey k p (make_room left) ne (make_room-NoEmptyKey left kept),
    )

delete-Fits : (k : Text) (m : OrderedMap Text PendingLink) → Fits m → Fits (delete k m)
delete-Fits k m (le, h) = (omega (arith, length-delete-le k m), delete-NoEmptyKey k m h)

-- The nonces that are drawn are not empty.
abbrev pub IsDrawn : Event → Type 0
IsDrawn (challenges nonce address platform username now) = is_empty nonce ≡ false
IsDrawn (begins nonce address signature now) = Unit
IsDrawn (finishes n verified now) = Unit

create-Fits :
    (nonce address platform username : Text) (now : ℕ) (s : Links)
    (r : Links × IdentityLinkChallenge)
    → is_empty nonce ≡ false
    → Fits s.pending_links
    → create_identity_link_challenge nonce address platform username now s ≡ some r
    → Fits r.0.pending_links
unfolding create_identity_link_challenge
create-Fits nonce address platform username now s r ne h e =
    let p : PendingLink = record {
      address = address;
      platform = platform;
      username = trim username;
      expires_at = now + link_nonce_ttl_ms;
    } in
    let same : r.0.pending_links ≡ set nonce p (make_room (without_expired now s.pending_links)) =
      ground arith in
    subst Fits (sym same) (entered-Fits nonce p now s.pending_links ne h)

begin-Fits :
    (verify : Text → Text → Text → Bool) (nonce address signature : Text) (now : ℕ) (s : Links)
    → Fits s.pending_links
    → Fits (begin_confirm verify nonce address signature now s).0.pending_links
unfolding begin_confirm
begin-Fits verify nonce address signature now s h =
    ground (arith, delete-Fits nonce s.pending_links h)

finish-Fits :
    (nonce : Text) (p : PendingLink) (address : Text) (verified : Bool) (now : ℕ) (s : Links)
    → Fits s.pending_links
    → Fits (finish_confirm nonce p address verified now s).0.pending_links
unfolding finish_confirm
finish-Fits nonce p address true now s h = delete-Fits nonce s.pending_links h
finish-Fits nonce p address false now s h = h

module _ (verify : Text → Text → Text → Bool) where
  step-Fits :
      (e : Event) (w : World)
      → IsDrawn e
      → Fits w.links.pending_links
      → Fits (step verify e w).links.pending_links
  unfolding step
  step-Fits (challenges nonce address platform username now) w ne h =
      elim (Option-cases
        (create_identity_link_challenge nonce address platform username now w.links)) [
          | inl e ↦ rw e h
          | inr (r, e) ↦ rw e (create-Fits nonce address platform username now w.links r ne h e)
        ]
  step-Fits (begins nonce address signature now) w ne h =
      let r = begin_confirm verify nonce address signature now w.links in
      elim (Option-cases r.1) [
        | inl e ↦ rw e (begin-Fits verify nonce address signature now w.links h)
        | inr (p, e) ↦ rw e (begin-Fits verify nonce address signature now w.links h)
      ]
  step-Fits (finishes n verified now) w ne h = elim (Option-cases (flight_at n w.flights)) [
    | inl e ↦ rw e h
    | inr (f, e) ↦ rw e (finish-Fits f.nonce f.pending f.address verified now w.links h)
  ]

  after_all-Fits :
      (es : List Event) (w : World)
      → All IsDrawn es
      → Fits w.links.pending_links
      → Fits (after_all verify es w).links.pending_links
  unfolding after_all
  after_all-Fits [] w d h = h
  after_all-Fits (e ∷ es) w d h = after_all-Fits es (step verify e w) d.1 (step-Fits e w d.0 h)

  -- In every order of calls that draw nonces which are not empty, at most 4096 challenges wait.
  pub pending_bounded :
      (es : List Event)
      → All IsDrawn es
      → length (after_all verify es start).links.pending_links ≤ max_pending_links
  pending_bounded es d = (after_all-Fits es start d (omega arith, tt)).0
