-- ===== src/Submit/Outbox/Safety.antt =====
-- The transactions that the outbox sends for a match, with crashes at any point
-- (`advanceSettlement` of apps/backend/src/services/oracle-submit.ts).
use smile4money.Common.{
  ℕ, zero, suc, ◌≡◌, refl, ◌⊎◌, inl, inr, none, some, List, [], ◌∷◌, ◌++◌, drop, All, All-drop,
  All-append, arith, Option-cases, Bool-cases,
}
use smile4money.Common.Text.{Text, text_eq}
use smile4money.Submit.Outbox.{
  SettlementRecord, submitted, Transaction, Client, Event, saved, broadcast, is_done, settle,
  advance_settlement,
}

-- The record that a restart finds: the last one saved, or the one that was loaded.
unfoldable pub durable : SettlementRecord → List Event → SettlementRecord
durable r [] = r
durable r (saved s ∷ es) = s
durable r (broadcast e ∷ es) = durable r es

pub broadcasts : List Event → List Text
broadcasts [] = []
broadcasts (saved s ∷ es) = broadcasts es
broadcasts (broadcast e ∷ es) = e ∷ broadcasts es

abbrev Concerns : Transaction → Event → Type 0
Concerns tx (saved r) = r.transaction ≡ some tx
Concerns tx (broadcast e) = e ≡ tx.envelope

-- The oldest event, if there is one, is a save.
abbrev StartsSaved : List Event → Type 0
StartsSaved [] = Unit
StartsSaved (saved r ∷ []) = Unit
StartsSaved (broadcast e ∷ []) = ⊥
StartsSaved (x ∷ y ∷ es) = StartsSaved (y ∷ es)

settle-Concerns :
    (c : Client) (now : ℕ) (tx : Transaction) (r : SettlementRecord) (es : List Event)
    → r.transaction ≡ some tx
    → All (Concerns tx) es
    → All (Concerns tx) (settle c now tx r es).events
unfolding settle
settle-Concerns c now tx r es h a = ground arith

settle-StartsSaved :
    (c : Client) (now : ℕ) (tx : Transaction) (r : SettlementRecord) (es : List Event)
    → StartsSaved es
    → StartsSaved (settle c now tx r es).events
unfolding settle
settle-StartsSaved c now tx r [] a = ground arith
settle-StartsSaved c now tx r (e ∷ es) a = ground arith

advance-Concerns :
    (c : Client) (now : ℕ) (r : SettlementRecord) (tx : Transaction)
    → r.transaction ≡ some tx
    → All (Concerns tx) (advance_settlement c now r).events
unfolding advance_settlement
advance-Concerns c now r tx h = ground (arith, settle-Concerns c now tx r [] h tt)

advance-fresh :
    (c : Client) (now : ℕ) (r : SettlementRecord)
    → r.transaction ≡ none
    → let es = (advance_settlement c now r).events in
      (es ≡ []) ⊎ ((tx : Transaction) × All (Concerns tx) es × StartsSaved es)
unfolding advance_settlement
advance-fresh c now r h = elim (Option-cases c.prepare) [
  | inl e ↦ inl (ground arith)
  | inr (tx, e) ↦ elim (Option-cases r.submission) [
    | inl f ↦ inl (ground arith)
    | inr (sub, f) ↦ elim (Bool-cases (is_done r.state)) [
      | inl d ↦ inl (ground arith)
      | inr d ↦ inr (tx, ground (arith, first_step tx), ground (arith, first_start tx))
    ]
  ]
]
  where
    prepared : Transaction → SettlementRecord
    prepared tx = record r { transaction = some tx; state = submitted }

    first_step :
        (tx : Transaction)
        → All (Concerns tx) (settle c now tx (prepared tx) (saved (prepared tx) ∷ [])).events
    first_step tx =
        settle-Concerns c now tx (prepared tx) (saved (prepared tx) ∷ []) refl (refl, tt)

    first_start :
        (tx : Transaction)
        → StartsSaved (settle c now tx (prepared tx) (saved (prepared tx) ∷ [])).events
    first_start tx = settle-StartsSaved c now tx (prepared tx) (saved (prepared tx) ∷ []) tt

drop-nil : (k : ℕ) → drop {A = Event} k [] ≡ []
drop-nil zero = refl
drop-nil (suc k) = refl

StartsSaved-drop : (k : ℕ) (es : List Event) → StartsSaved es → StartsSaved (drop k es)
StartsSaved-drop zero es h = h
StartsSaved-drop (suc k) [] h = h
StartsSaved-drop (suc k) (saved r ∷ []) h = StartsSaved-drop k [] tt
StartsSaved-drop (suc k) (broadcast e ∷ []) h = absurd h
StartsSaved-drop (suc k) (x ∷ y ∷ es) h = StartsSaved-drop k (y ∷ es) h

-- One attempt to advance a settlement: the client, the time, and how many of the newest effects
-- are lost to a crash.
pub record Attempt : Type 0 where
  pub client : Client
  pub now : ℕ
  pub lost : ℕ

unfoldable pub events_of : Attempt → SettlementRecord → List Event
events_of a r = drop a.lost (advance_settlement a.client a.now r).events

-- The envelopes broadcast by a sequence of attempts, each started on what is durable.
unfoldable pub run_broadcasts : SettlementRecord → List Attempt → List Text
run_broadcasts r [] = []
run_broadcasts r (a ∷ as_) =
    broadcasts (events_of a r) ++ run_broadcasts (durable r (events_of a r)) as_

broadcasts-Concerns :
    (tx : Transaction) (es : List Event)
    → All (Concerns tx) es
    → All (λ e. e ≡ tx.envelope) (broadcasts es)
unfolding broadcasts
broadcasts-Concerns tx [] h = tt
broadcasts-Concerns tx (saved r ∷ es) h = broadcasts-Concerns tx es h.1
broadcasts-Concerns tx (broadcast e ∷ es) h = (h.0, broadcasts-Concerns tx es h.1)

durable-Concerns :
    (tx : Transaction) (r : SettlementRecord) (es : List Event)
    → r.transaction ≡ some tx
    → All (Concerns tx) es
    → (durable r es).transaction ≡ some tx
unfolding durable
durable-Concerns tx r [] h a = h
durable-Concerns tx r (saved s ∷ es) h a = a.0
durable-Concerns tx r (broadcast e ∷ es) h a = durable-Concerns tx r es h a.1

durable-StartsSaved :
    (tx : Transaction) (r : SettlementRecord) (es : List Event)
    → All (Concerns tx) es
    → StartsSaved es
    → (es ≡ []) ⊎ ((durable r es).transaction ≡ some tx)
unfolding durable
durable-StartsSaved tx r [] a s = inl refl
durable-StartsSaved tx r (saved q ∷ es) a s = inr a.0
durable-StartsSaved tx r (broadcast e ∷ []) a s = absurd s
durable-StartsSaved tx r (broadcast e ∷ y ∷ es) a s =
    elim (durable-StartsSaved tx r (y ∷ es) a.1 s) [ inl none_left ↦ cc | inr h ↦ inr h ]

signed_run :
    (tx : Transaction) (r : SettlementRecord) (attempts : List Attempt)
    → r.transaction ≡ some tx
    → All (λ e. e ≡ tx.envelope) (run_broadcasts r attempts)
unfolding run_broadcasts events_of
signed_run tx r [] h = tt
signed_run tx r (a ∷ attempts) h =
    let concerns = All-drop (Concerns tx) a.lost _ (advance-Concerns a.client a.now r tx h) in
    All-append (λ e. e ≡ tx.envelope) _ _ (broadcasts-Concerns tx _ concerns)
      (signed_run tx (durable r (events_of a r)) attempts (durable-Concerns tx r _ h concerns))

-- After the first attempt on an unsigned record either nothing has happened, or all that happened
-- concerns one transaction, which is durable.
first_attempt :
    (a : Attempt) (r : SettlementRecord)
    → r.transaction ≡ none
    → (events_of a r ≡ [])
      ⊎ ((tx : Transaction) × All (Concerns tx) (events_of a r)
          × ((durable r (events_of a r)).transaction ≡ some tx))
unfolding events_of
first_attempt a r h = elim (advance-fresh a.client a.now r h) [
  | inl silent ↦ inl (rw silent (drop-nil a.lost))
  | inr (tx, concerns, starts) ↦
      elim (durable-StartsSaved tx r _ (All-drop (Concerns tx) a.lost _ concerns)
        (StartsSaved-drop a.lost _ starts)) [
          | inl silent ↦ inl silent
          | inr signed ↦ inr (tx, All-drop (Concerns tx) a.lost _ concerns, signed)
        ]
]

-- Whatever the client answers, however often a settlement is advanced, and wherever a crash cuts
-- an attempt short: all envelopes that are ever broadcast for a record without a transaction are
-- one and the same, so the match cannot be settled twice by two transactions.
pub single_envelope :
    (r : SettlementRecord) (attempts : List Attempt)
    → r.transaction ≡ none
    → (envelope : Text) × All (λ e. e ≡ envelope) (run_broadcasts r attempts)
unfolding run_broadcasts events_of durable broadcasts
single_envelope r [] h = ([], tt)
single_envelope r (a ∷ attempts) h = elim (first_attempt a r h) [
  | inl silent ↦ rw (silent, durable, broadcasts) (single_envelope r attempts h)
  | inr (tx, concerns, signed) ↦ (
    tx.envelope,
    All-append (λ e. e ≡ tx.envelope) _ _ (broadcasts-Concerns tx _ concerns)
        (signed_run tx (durable r (events_of a r)) attempts signed),
  )
]
