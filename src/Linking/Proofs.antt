-- ===== src/Linking/Proofs.antt =====
-- What stands behind a link, whatever the order of the calls (`createIdentityLinkChallenge` and
-- `confirmIdentityLink` of apps/backend/src/services/player-identity.ts).
use smile4money.Common.{
  ℕ, zero, suc, ◌≡◌, refl, sym, Bool, true, false, Option, none, some, List, [], ◌∷◌, ◌⊎◌, inl, inr,
  if◌then◌else◌, arith, All, Bool-cases, Option-cases, subst,
}
use smile4money.Common.Keys.{◌===◌}
use smile4money.Common.OrderedMap.{OrderedMap, get, set}
use smile4money.Common.Text.{Text, text_eq, trim, text_beq_iff}
use smile4money.Linking.{
  Links, no_links, PendingLink, VerifiedLink, IdentityLinkChallenge, link_message, link_key,
  is_unfit, create_identity_link_challenge, begin_confirm, finish_confirm, get_linked_wallet,
}

-- A confirmation that waits for the check of the profile.
pub record Flight : Type 0 where
  pub nonce : Text
  pub address : Text
  pub pending : PendingLink

-- A profile that was found to hold the proof of a nonce.
pub record Check : Type 0 where
  pub platform : Text
  pub username : Text
  pub nonce : Text

pub record World : Type 0 where
  pub links : Links
  pub flights : List Flight
  pub checks : List Check

pub data Event : Type 0 where
  challenges : Text → Text → Text → Text → ℕ → Event
  begins : Text → Text → Text → ℕ → Event
  finishes : ℕ → Bool → ℕ → Event

abbrev pub start : World
start = record { links = no_links; flights = []; checks = [] }

abbrev pub after_challenge : Option (Links × IdentityLinkChallenge) → World → World
after_challenge none w = w
after_challenge (some r) w = record w { links = r.0 }

abbrev pub after_begin : Text → Text → Links × Option PendingLink → World → World
after_begin nonce address r w = elim r.1 [
  | none ↦ record w { links = r.0 }
  | some p ↦ record w {
    links = r.0;
    flights = record { nonce = nonce; address = address; pending = p } ∷ w.flights;
  }
]

abbrev pub flight_at : ℕ → List Flight → Option Flight
flight_at n [] = none
flight_at zero (f ∷ fs) = some f
flight_at (suc n) (f ∷ fs) = flight_at n fs

abbrev pub without_flight : ℕ → List Flight → List Flight
without_flight n [] = []
without_flight zero (f ∷ fs) = fs
without_flight (suc n) (f ∷ fs) = f ∷ without_flight n fs

abbrev pub checked : Flight → Check
checked f = record { platform = f.pending.platform; username = f.pending.username; nonce = f.nonce }

abbrev pub after_finish : ℕ → Bool → ℕ → Option Flight → World → World
after_finish n verified now none w = w
after_finish n verified now (some f) w = record {
  links = (finish_confirm f.nonce f.pending f.address verified now w.links).0;
  flights = without_flight n w.flights;
  checks = if verified then checked f ∷ w.checks else w.checks;
}

module _ (verify : Text → Text → Text → Bool) where
  -- Calls of any clients in any order: each event is a call, or the rest of one that was waiting.
  unfoldable pub step : Event → World → World
  step (challenges nonce address platform username now) w =
      after_challenge (create_identity_link_challenge nonce address platform username now w.links) w
  step (begins nonce address signature now) w =
      after_begin nonce address (begin_confirm verify nonce address signature now w.links) w
  step (finishes n verified now) w = after_finish n verified now (flight_at n w.flights) w

  unfoldable pub after_all : List Event → World → World
  after_all [] w = w
  after_all (e ∷ es) w = after_all es (step e w)

  -- The owner of the address signed the message of the challenge.
  abbrev pub IsSigned : Text → Text → PendingLink → Type 0
  IsSigned nonce address p =
      (p.address ≡ address)
      × ((signature : Text) × (verify address (link_message nonce p) signature ≡ true))

  abbrev IsSignedFlight : Flight → Type 0
  IsSignedFlight f = IsSigned f.nonce f.address f.pending

abbrev pub Among : Check → List Check → Type 0
Among c [] = ⊥
Among c (d ∷ ds) = (c ≡ d) ⊎ Among c ds

module _ (verify : Text → Text → Text → Bool) where
  -- The link was asked for with a nonce, signed by its address, and its profile held the proof.
  abbrev pub IsProven : Text → VerifiedLink → List Check → Type 0
  IsProven key l checks =
      (key ≡ link_key l.platform l.username)
      × ((f : Flight) × IsSigned verify f.nonce f.address f.pending
          × (f.address ≡ l.address)
          × (checked f ≡ record { platform = l.platform; username = l.username; nonce = f.nonce })
          × Among (checked f) checks)

  abbrev AllProven : List Check → OrderedMap Text VerifiedLink → Type 0
  AllProven checks m = All (λ e. IsProven e.0 e.1 checks) m

  abbrev IsSound : World → Type 0
  IsSound w = All (IsSignedFlight verify) w.flights × AllProven w.checks w.links.verified_links

  set-All :
      (Q : Text × VerifiedLink → Type 0) (k : Text) (v : VerifiedLink)
      (m : OrderedMap Text VerifiedLink)
      → Q (k, v)
      → All Q m
      → All Q (set k v m)
  unfolding set
  set-All Q k v [] q h = (q, tt)
  set-All Q k v ((j, w) ∷ m) q h = elim (Bool-cases (j === k)) [
    | inl e ↦ rw e (subst (λ i. Q (i, v)) (sym ((text_eq.beq_iff j k).0 e)) q, h.1)
    | inr e ↦ rw e (h.0, set-All Q k v m q h.1)
  ]

  weaken :
      (c : Check) (checks : List Check) (m : OrderedMap Text VerifiedLink)
      → AllProven checks m
      → AllProven (c ∷ checks) m
  weaken c checks [] h = tt
  weaken c checks ((k, l) ∷ m) ((key, (f, signed, same, what, among)), h) =
      ((key, (f, signed, same, what, inr among)), weaken c checks m h)

  challenge_keeps :
      (nonce address platform username : Text) (now : ℕ) (s : Links)
      (r : Links × IdentityLinkChallenge)
      → create_identity_link_challenge nonce address platform username now s ≡ some r
      → r.0.verified_links ≡ s.verified_links
  unfolding create_identity_link_challenge
  challenge_keeps nonce address platform username now s r h = ground arith

  begin_keeps :
      (nonce address signature : Text) (now : ℕ) (s : Links)
      → (begin_confirm verify nonce address signature now s).0.verified_links ≡ s.verified_links
  unfolding begin_confirm
  begin_keeps nonce address signature now s = ground arith

  fit_address :
      (p : PendingLink) (address signature : Text) (now : ℕ)
      → is_unfit p address signature now ≡ false
      → p.address ≡ address
  unfolding is_unfit
  fit_address p address signature now h = ground (arith, text_beq_iff p.address address)

  -- What a call has found when it waits for the check of the profile.
  begun :
      (nonce address signature : Text) (now : ℕ) (s : Links) (p q : PendingLink)
      → get nonce s.pending_links ≡ some q
      → (begin_confirm verify nonce address signature now s).1 ≡ some p
      → (q ≡ p)
        × (is_unfit q address signature now ≡ false)
        × (verify address (link_message nonce q) signature ≡ true)
  unfolding begin_confirm
  begun nonce address signature now s p q e h =
      elim (Bool-cases (is_unfit q address signature now)) [
        | inl u ↦ ground arith
        | inr u ↦ elim (Bool-cases (verify address (link_message nonce q) signature)) [
          | inl v ↦ ground arith
          | inr v ↦ ground arith
        ]
      ]

  begin-IsSigned :
      (nonce address signature : Text) (now : ℕ) (s : Links) (p : PendingLink)
      → (begin_confirm verify nonce address signature now s).1 ≡ some p
      → IsSigned verify nonce address p
  begin-IsSigned nonce address signature now s p h =
      elim (Option-cases (get nonce s.pending_links)) [
        | inl e ↦ unfold begin_confirm in ground arith
        | inr (q, e) ↦
            let (same, fit, signed) = begun nonce address signature now s p q e h in
            subst (IsSigned verify nonce address) same
              (fit_address q address signature now fit, (signature, signed))
      ]

  flight-IsSigned :
      (n : ℕ) (fs : List Flight) (f : Flight)
      → All (IsSignedFlight verify) fs
      → flight_at n fs ≡ some f
      → IsSignedFlight verify f
  flight-IsSigned n [] f h e = ground arith
  flight-IsSigned zero (g ∷ fs) f h e =
      let same : g ≡ f = ground arith in subst (IsSignedFlight verify) same h.0
  flight-IsSigned (suc n) (g ∷ fs) f h e = flight-IsSigned n fs f h.1 e

  without-IsSigned :
      (n : ℕ) (fs : List Flight)
      → All (IsSignedFlight verify) fs
      → All (IsSignedFlight verify) (without_flight n fs)
  without-IsSigned n [] h = tt
  without-IsSigned zero (f ∷ fs) h = h.1
  without-IsSigned (suc n) (f ∷ fs) h = (h.0, without-IsSigned n fs h.1)

  with_links :
      (w : World) (s : Links)
      → s.verified_links ≡ w.links.verified_links
      → IsSound w
      → IsSound (record w { links = s })
  with_links w s same h = (h.0, subst (AllProven w.checks) (sym same) h.1)

  challenge-IsSound :
      (nonce address platform username : Text) (now : ℕ) (w : World)
      → IsSound w
      → IsSound (step verify (challenges nonce address platform username now) w)
  unfolding step
  challenge-IsSound nonce address platform username now w h =
      let o = create_identity_link_challenge nonce address platform username now w.links in
      elim (Option-cases o) [
        | inl e ↦ rw e h
        | inr (r, e) ↦
            rw e
              (with_links w r.0 (challenge_keeps nonce address platform username now w.links r e) h)
      ]

  begin-IsSound :
      (nonce address signature : Text) (now : ℕ) (w : World)
      → IsSound w
      → IsSound (step verify (begins nonce address signature now) w)
  unfolding step
  begin-IsSound nonce address signature now w h =
      let r = begin_confirm verify nonce address signature now w.links in
      let same = begin_keeps nonce address signature now w.links in
      elim (Option-cases r.1) [
        | inl e ↦ rw e (with_links w r.0 same h)
        | inr (p, e) ↦ rw e (
          (begin-IsSigned nonce address signature now w.links p e, h.0),
          subst (AllProven w.checks) (sym same) h.1,
        )
      ]

  finished-IsSound :
      (n : ℕ) (verified : Bool) (now : ℕ) (f : Flight) (w : World)
      → IsSignedFlight verify f
      → IsSound w
      → IsSound (after_finish n verified now (some f) w)
  unfolding finish_confirm
  finished-IsSound n false now f w signed h = (without-IsSigned n w.flights h.0, h.1)
  finished-IsSound n true now f w signed h = (
    without-IsSigned n w.flights h.0,
    set-All (λ e. IsProven e.0 e.1 (checked f ∷ w.checks))
        (link_key f.pending.platform f.pending.username)
        (record {
          address = f.address;
          platform = f.pending.platform;
          username = f.pending.username;
          linked_at = now;
        })
        w.links.verified_links (refl, (f, signed, refl, refl, inl refl))
        (weaken (checked f) w.checks w.links.verified_links h.1),
  )

  step-IsSound : (e : Event) (w : World) → IsSound w → IsSound (step verify e w)
  step-IsSound (challenges nonce address platform username now) w h =
      challenge-IsSound nonce address platform username now w h
  step-IsSound (begins nonce address signature now) w h =
      begin-IsSound nonce address signature now w h
  step-IsSound (finishes n verified now) w h =
      unfold step in
      elim (Option-cases (flight_at n w.flights)) [
        | inl e ↦ rw e h
        | inr (f, e) ↦
            rw e (finished-IsSound n verified now f w (flight-IsSigned n w.flights f h.0 e) h)
      ]

  after_all-IsSound : (es : List Event) (w : World) → IsSound w → IsSound (after_all verify es w)
  unfolding after_all
  after_all-IsSound [] w h = h
  after_all-IsSound (e ∷ es) w h = after_all-IsSound es (step verify e w) (step-IsSound e w h)

  get-IsProven :
      (checks : List Check) (m : OrderedMap Text VerifiedLink) (k : Text) (l : VerifiedLink)
      → AllProven checks m
      → get k m ≡ some l
      → IsProven k l checks
  unfolding get
  get-IsProven checks [] k l h e = ground arith
  get-IsProven checks ((j, v) ∷ m) k l h e = elim (Bool-cases (j === k)) [
    | inl q ↦
        let same : v ≡ l = ground arith in
        subst (λ i. IsProven i l checks) ((text_eq.beq_iff j k).0 q)
          (subst (λ x. IsProven j x checks) same h.0)
    | inr q ↦ get-IsProven checks m k l h.1 (ground arith)
  ]

  -- In every order of calls, a wallet that is linked to a name has signed the message of a challenge for
  -- that name, and the name's profile was found to hold the proof of the same nonce.
  pub linked_wallet-IsProven :
      (es : List Event) (platform username address : Text)
      → let w = after_all verify es start in
        get_linked_wallet platform username w.links ≡ some address
        → (l : VerifiedLink) × (l.address ≡ address)
          × IsProven (link_key platform (trim username)) l w.checks
  unfolding get_linked_wallet
  linked_wallet-IsProven es platform username address h =
      let w = after_all verify es start in
      let key = link_key platform (trim username) in
      elim (Option-cases (get key w.links.verified_links)) [
        | inl e ↦ ground arith
        | inr (l, e) ↦ (
          l,
          ground arith,
          get-IsProven w.checks w.links.verified_links key l (after_all-IsSound es start (tt, tt)).1
              e,
        )
      ]
