-- ===== src/Submit/Outbox/Verdict.antt =====
-- When the outbox broadcasts, confirms and quarantines, and when a match is bound to its chain
-- record (`advanceSettlement` and `assertChainBinding` of apps/backend/src/services/oracle-submit.ts).
use smile4money.Common.{
  ℕ, ◌≡◌, refl, ◌↔◌, ◌⊎◌, inl, inr, Bool, true, false, none, some, List, [], ◌∷◌, arith, leb,
  Option-cases, ==_iff,
}
use smile4money.Common.Text.{Text, text, text_eq, text_beq_iff}
use smile4money.Match.{MatchRecord}
use smile4money.Submit.Outbox.{
  SettlementRecord, submitted, confirmed, quarantined, success, failed, not_found, Transaction,
  Client, Event, saved, broadcast, is_done, settle, advance_settlement, ChainMatch,
  assert_chain_binding,
}

-- Each broadcast of an envelope has an older save of a record with that very envelope.
abbrev pub IsSavedIn : Text → List Event → Type 0
IsSavedIn e [] = ⊥
IsSavedIn e (saved r ∷ es) =
    ((tx : Transaction) × (r.transaction ≡ some tx) × (tx.envelope ≡ e)) ⊎ IsSavedIn e es
IsSavedIn e (broadcast _ ∷ es) = IsSavedIn e es

abbrev pub IsCommitted : List Event → Type 0
IsCommitted [] = Unit
IsCommitted (saved r ∷ es) = IsCommitted es
IsCommitted (broadcast e ∷ es) = IsSavedIn e es × IsCommitted es

settle-IsCommitted :
    (c : Client) (now : ℕ) (tx : Transaction) (r : SettlementRecord) (es : List Event)
    → r.transaction ≡ some tx
    → IsCommitted es
    → IsCommitted (settle c now tx r es).events
unfolding settle
settle-IsCommitted c now tx r es h a = ground arith

-- An envelope is broadcast only after a record that holds it was saved.
pub advance_settlement-IsCommitted :
    (c : Client) (now : ℕ) (r : SettlementRecord) → IsCommitted (advance_settlement c now r).events
unfolding advance_settlement
advance_settlement-IsCommitted c now r = elim (Option-cases r.transaction) [
  | inr (tx, e) ↦ ground (arith, settle-IsCommitted c now tx r [] e tt)
  | inl e ↦ elim (Option-cases c.prepare) [
    | inl f ↦ ground arith
    | inr (tx, f) ↦ ground (arith, fresh tx)
  ]
]
  where
    prepared : Transaction → SettlementRecord
    prepared tx = record r { transaction = some tx; state = submitted }

    fresh :
        (tx : Transaction)
        → IsCommitted (settle c now tx (prepared tx) (saved (prepared tx) ∷ [])).events
    fresh tx = settle-IsCommitted c now tx (prepared tx) (saved (prepared tx) ∷ []) refl tt

abbrev pub is_expired : SettlementRecord → ℕ → Bool
is_expired r now = elim r.transaction [ none ↦ false | some tx ↦ leb tx.expires_at now ]

-- A settlement that is confirmed or quarantined is left alone, without an effect. Any other is
-- confirmed only if the chain reports success, and quarantined only if the chain reports failure
-- or does not know the transaction once it has expired.
pub advance_settlement_verdict :
    (c : Client) (now : ℕ) (r : SettlementRecord)
    → let p = advance_settlement c now r in
      (is_done r.state ≡ true → (p.settlement ≡ r) × (p.events ≡ []))
      × (is_done r.state ≡ false
          → p.settlement.state ≡ confirmed
          → (c.status_before ≡ some success) ⊎ (c.status_after ≡ some success))
      × (is_done r.state ≡ false
          → p.settlement.state ≡ quarantined
          → ((c.status_before ≡ some failed) ⊎ (c.status_after ≡ some failed))
            ⊎ ((c.status_before ≡ some not_found) × (is_expired p.settlement now ≡ true)))
unfolding advance_settlement settle
advance_settlement_verdict c now r = (λ d. ground arith, λ d s. ground arith, λ d s. ground arith)

-- The check of a match against the chain passes exactly when id, game and both players agree and
-- the chain's platform is the one that the match's platform is called there.
pub assert_chain_binding_iff :
    (m : MatchRecord) (chain : ChainMatch) (platform : Text) (rest : List Text)
    → chain.platform ≡ platform ∷ rest
    → (assert_chain_binding m chain ≡ true) ↔ (
        (chain.id ≡ m.match_id)
        × (chain.game_id ≡ m.game_id)
        × (chain.player1 ≡ m.player1)
        × (chain.player2 ≡ m.player2)
        × (((m.platform ≡ text "lichess") × (platform ≡ text "Lichess"))
            ⊎ ((m.platform ≡ text "chessdotcom") × (platform ≡ text "ChessDotCom"))))
unfolding assert_chain_binding
assert_chain_binding_iff m chain platform rest h = (
  λ t. ground (
    arith,
    ==_iff chain.id m.match_id,
    text_beq_iff chain.game_id m.game_id,
    text_beq_iff chain.player1 m.player1,
    text_beq_iff chain.player2 m.player2,
    text_beq_iff m.platform (text "lichess"),
    text_beq_iff m.platform (text "chessdotcom"),
    text_beq_iff platform (text "Lichess"),
    text_beq_iff platform (text "ChessDotCom"),
  ),
  λ t. ground (
    arith,
    ==_iff chain.id m.match_id,
    text_beq_iff chain.game_id m.game_id,
    text_beq_iff chain.player1 m.player1,
    text_beq_iff chain.player2 m.player2,
    text_beq_iff m.platform (text "lichess"),
    text_beq_iff m.platform (text "chessdotcom"),
    text_beq_iff platform (text "Lichess"),
    text_beq_iff platform (text "ChessDotCom"),
  ),
)
