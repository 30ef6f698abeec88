-- ===== src/Submit/Examples.antt =====
-- A submission that succeeds at the third attempt, and a settlement that survives a crash.
use smile4money.Common.{
  ℕ, ◌≡◌, ◌⊎◌, refl, true, false, Option, none, some, List, [], ◌∷◌, String, All, ◌==◌,
  if◌then◌else◌,
}
use smile4money.Common.Text.{Text, text, text_eq}
use smile4money.Match.{MatchRecord, MatchState, player1_wins}
use smile4money.Dlq.Memory.{memory}
use smile4money.Dlq.Worker.{write_to_dlq}
use smile4money.Submit.{RetryConfig, OracleSubmission, submit_with_retry}
use smile4money.Submit.Retry.{Result, submit_with_retry-Result}
use smile4money.Submit.Outbox.{
  SettlementRecord, active, confirmed, quarantined, Transaction, Client, ChainMatch, success,
  failed, not_found, advance_settlement, is_done,
}
use smile4money.Submit.Outbox.Safety.{Attempt, run_broadcasts, single_envelope}
use smile4money.Submit.Outbox.Verdict.{
  IsCommitted, is_expired, advance_settlement-IsCommitted, advance_settlement_verdict,
}

abbrev config : RetryConfig
config = record { max_retries = 4; base_delay_ms = 1000; max_delay_ms = 3000 }

abbrev submission : OracleSubmission
submission = record {
  decision_id = some 1;
  match_id = 7;
  game_id = text "g1";
  result = player1_wins;
}

abbrev handler : ℕ → Option String
handler attempt = if attempt == 2 then none else some "RPC timeout"

submit_with_retry-Result_example :
    Result handler config []
      (λ err. write_to_dlq (memory OracleSubmission) "d" 50 submission err [])
      (submit_with_retry (memory OracleSubmission) submission handler config "d" 50 [])
submit_with_retry-Result_example =
    submit_with_retry-Result (memory OracleSubmission) submission handler config "d" 50 []

abbrev waiting : SettlementRecord
waiting = record {
  match_id = 7;
  game_id = text "g1";
  state = active;
  submission = some submission;
  transaction = none;
  chain_status = none;
  attempts = 0;
  next_attempt_at = 0;
  error = none;
}

abbrev signed : Text → Transaction
signed name = record { hash = name; envelope = name; expires_at = 100 }

abbrev client : Text → Client
client name = record {
  prepare = some (signed name);
  status_before = some not_found;
  send = true;
  status_after = some success;
}

-- The first attempt loses its last save, the second would prepare another envelope.
abbrev attempts : List Attempt
attempts =
    record { client = client (text "A"); now = 1; lost = 1 }
    ∷ record { client = client (text "B"); now = 2; lost = 0 }
    ∷ []

single_envelope_example :
    (envelope : Text) × All (λ e. e ≡ envelope) (run_broadcasts waiting attempts)
single_envelope_example = single_envelope waiting attempts refl

advance_settlement-IsCommitted_example :
    IsCommitted (advance_settlement (client (text "A")) 1 waiting).events
advance_settlement-IsCommitted_example =
    advance_settlement-IsCommitted (client (text "A")) 1 waiting

advance_settlement_verdict_example :
    let p = advance_settlement (client (text "A")) 1 waiting in
    (is_done waiting.state ≡ true → (p.settlement ≡ waiting) × (p.events ≡ []))
    × (is_done waiting.state ≡ false
        → p.settlement.state ≡ confirmed
        → ((client (text "A")).status_before ≡ some success)
          ⊎ ((client (text "A")).status_after ≡ some success))
    × (is_done waiting.state ≡ false
        → p.settlement.state ≡ quarantined
        → (((client (text "A")).status_before ≡ some failed)
            ⊎ ((client (text "A")).status_after ≡ some failed))
          ⊎ (((client (text "A")).status_before ≡ some not_found)
              × (is_expired p.settlement 1 ≡ true)))
advance_settlement_verdict_example = advance_settlement_verdict (client (text "A")) 1 waiting

abbrev chess_match : MatchRecord
chess_match = record {
  match_id = 7;
  player1 = text "GA";
  player2 = text "GB";
  player1_username = none;
  player2_username = none;
  stake_amount = 100;
  token = text "XLM";
  game_id = text "g1";
  platform = text "lichess";
  state = MatchState.pending;
  identity_hash = none;
  evidence = none;
}

abbrev on_chain : ChainMatch
on_chain = record {
  id = 7;
  game_id = text "g1";
  player1 = text "GA";
  player2 = text "GB";
  platform = text "Lichess" ∷ [];
}
