-- ===== src/Submit/Outbox.antt =====
-- The durable outbox of settlements: `assertChainBinding` and `advanceSettlement` of
-- apps/backend/src/services/oracle-submit.ts, with the record of
-- apps/backend/src/store/settlement-store.ts. The settlement client is a parameter: what each of
-- its calls returns in one step, `none` where it throws. Saving a record succeeds.
pub mod Safety
pub mod Verdict
use smile4money.Common.{
  ℕ, Bool, true, false, ◌==◌, ◌&&◌, Option, none, some, List, [], ◌∷◌, leb, if◌then◌else◌,
}
use smile4money.Common.Text.{Text, text, text_eq}
use smile4money.Common.Keys.{◌===◌}
use smile4money.Match.{MatchRecord}
use smile4money.Submit.{OracleSubmission}

pub data SettlementState : Type 0 where
  active pending submitted confirmed quarantined : SettlementState

pub data ChainStatus : Type 0 where
  success failed not_found : ChainStatus

pub data SettlementError : Type 0 where
  failed_on_chain expired_uncertain : SettlementError

pub record Transaction : Type 0 where
  pub hash : Text
  pub envelope : Text
  pub expires_at : ℕ

pub record SettlementRecord : Type 0 where
  pub match_id : ℕ
  pub game_id : Text
  pub state : SettlementState
  pub submission : Option OracleSubmission
  pub transaction : Option Transaction
  pub chain_status : Option ChainStatus
  pub attempts : ℕ
  pub next_attempt_at : ℕ
  pub error : Option SettlementError

-- What the client's calls return during one step: `prepare`, `status`, `send` (whether it returns),
-- and `status` once more.
pub record Client : Type 0 where
  pub prepare : Option Transaction
  pub status_before : Option ChainStatus
  pub send : Bool
  pub status_after : Option ChainStatus

pub data Event : Type 0 where
  saved : SettlementRecord → Event
  broadcast : Text → Event

-- The record in memory, what was saved and broadcast (newest first), and whether a call threw.
pub record Progress : Type 0 where
  pub settlement : SettlementRecord
  pub events : List Event
  pub threw : Bool

abbrev pub is_done : SettlementState → Bool
is_done confirmed = true
is_done quarantined = true
is_done _ = false

abbrev pub confirm : SettlementRecord → SettlementRecord
confirm r = record r { state = confirmed; error = none }

abbrev pub quarantine : SettlementError → SettlementRecord → SettlementRecord
quarantine e r = record r { state = quarantined; error = some e }

abbrev pub save : SettlementRecord → List Event → Progress
save r es = record { settlement = r; events = saved r ∷ es; threw = false }

abbrev pub throw : SettlementRecord → List Event → Progress
throw r es = record { settlement = r; events = es; threw = true }

-- The status that is read again once the envelope is sent.
unfoldable pub after_send : Client → SettlementRecord → List Event → Progress
after_send c r es = elim c.status_after [
  | none ↦ throw r es
  | some success ↦ save (confirm (record r { chain_status = some success })) es
  | some failed ↦ save (quarantine failed_on_chain (record r { chain_status = some failed })) es
  | some not_found ↦ save (record r { chain_status = some not_found }) es
]

-- The status is read, and a transaction that the chain does not know yet is sent.
unfoldable pub settle : Client → ℕ → Transaction → SettlementRecord → List Event → Progress
unfolding after_send
settle c now tx r es = elim c.status_before [
  | none ↦ throw r es
  | some success ↦ save (confirm (record r { chain_status = some success })) es
  | some failed ↦ save (quarantine failed_on_chain (record r { chain_status = some failed })) es
  | some not_found ↦
      let known = record r { chain_status = some not_found } in
      if leb tx.expires_at now
      then save (quarantine expired_uncertain known) es
      else if c.send
      then after_send c known (broadcast tx.envelope ∷ saved known ∷ es)
      else throw known (broadcast tx.envelope ∷ saved known ∷ es)
]

unfoldable pub advance_settlement : Client → ℕ → SettlementRecord → Progress
unfolding settle
advance_settlement c now r =
    if is_done r.state
    then record { settlement = r; events = []; threw = false }
    else elim r.submission [
      | none ↦ record { settlement = r; events = []; threw = false }
      | some submission ↦ elim r.transaction [
        | some tx ↦ settle c now tx r []
        | none ↦ elim c.prepare [
          | none ↦ throw r []
          | some tx ↦
              let prepared = record r { transaction = some tx; state = submitted } in
              settle c now tx prepared (saved prepared ∷ [])
        ]
      ]
    ]

-- The match as the escrow contract has it.
pub record ChainMatch : Type 0 where
  pub id : ℕ
  pub game_id : Text
  pub player1 : Text
  pub player2 : Text
  pub platform : List Text

-- Whether the check passes; the source throws where it does not.
unfoldable pub assert_chain_binding : MatchRecord → ChainMatch → Bool
assert_chain_binding m chain =
    (chain.id == m.match_id)
    && (chain.game_id === m.game_id)
    && (chain.player1 === m.player1)
    && (chain.player2 === m.player2)
    && elim chain.platform [
      | [] ↦ false
      | p ∷ ps ↦
          if m.platform === text "lichess"
          then p === text "Lichess"
          else if m.platform === text "chessdotcom"
          then p === text "ChessDotCom"
          else false
    ]
