-- ===== src/Lib.antt =====
-- Models and proofs for smile4money, a chess wager service settled on Stellar: two players stake
-- tokens on a game, the backend polls the chess platform until the game ends, verifies the result
-- and submits it to the escrow contract.
--
-- The parts, and how they work together. A match that a player asks for is checked and created, and
-- held by a match store; a polling job watches its game; the oracle service checks the platform's
-- answer against the recorded players, whose names may be linked to their wallets by signature, and
-- keeps the evidence; the submission puts the result on the chain, with retries and a durable outbox;
-- what fails goes to the dead-letter queue, whose worker asks the circuit breaker before it retries
-- and whose store a maintenance hold can quiesce; the settlement age monitor watches how long all of
-- this takes, the disagreement service whether the chain agrees with the platforms, and the rate
-- limiter guards the API. In the browser, amounts are converted and the player's own limits are kept.
--
--   Common         lists, tests, keys, JavaScript's Map and Set as lists in insertion order, texts
--                  as lists of character codes, decimal digits
--   Breaker        apps/backend/src/services/circuit-breaker.ts: CircuitBreaker with its methods,
--                  persistence and callbacks as a log of effects
--   Disagreement   apps/backend/src/services/outcome-disagreement-monitor.ts:
--                  OutcomeDisagreementMonitor, and in Disagreement.Service
--                  apps/backend/src/services/outcome-disagreement-service.ts: the readers and
--                  createOutcomeDisagreementService, whose timers are jobs that wait
--   Dlq            apps/backend/src/queue.ts with apps/backend/src/store/persistent-queue-store.ts
--                  (the interface, a record of operations and laws),
--                  apps/backend/src/store/in-memory-queue-store.ts (Dlq.Memory, which fills it) and
--                  apps/backend/src/store/sqlite-queue-store.ts (Dlq.SqliteStore: withRetry, and
--                  each statement as an operation on the rows of a table)
--   Eligibility    apps/backend/src/services/game-eligibility.ts
--   Errors         apps/backend/src/errors/errorToHttpStatus.ts
--   Fetchers       apps/backend/src/fetchers/result.ts, apps/backend/src/fetchers/lichess.ts
--                  (Fetchers.Lichess) and apps/backend/src/fetchers/chessdotcom.ts
--                  (Fetchers.ChessDotCom)
--   Linking        apps/backend/src/services/player-identity.ts: the link of a name to a wallet
--   Maintenance    apps/backend/src/store/maintenance-gate.ts: MaintainableQueueStore as a step
--                  relation
--   Match          apps/backend/src/store/match-store.ts (Match.Store),
--                  apps/backend/src/store/sqlite-match-store.ts (Match.SqliteStore),
--                  apps/backend/src/services/match-service.ts (Match.Creation),
--                  apps/backend/src/services/player-identity.ts (Match.Identity),
--                  apps/backend/src/services/oracle-service.ts (Match.Oracle)
--   Money          apps/frontend/src/utils/payout.ts and apps/frontend/src/utils/xlm-precision.ts
--   Play           apps/frontend/src/utils/responsible-play.ts, its storage as a map that may be
--                  missing or full
--   Polling        apps/backend/src/services/polling.ts: PollingJobStore, and the polls of
--                  PollingWorker (Polling.Worker), with
--                  apps/backend/src/services/game-poller.ts (Polling.Poller)
--   RateLimit      apps/backend/src/middleware/rate-limit.ts: RateLimitStore and getClientIp
--   SettlementAge  apps/backend/src/services/settlement-age-monitor.ts: SettlementAgeMonitor, its
--                  snapshot (SettlementAge.Snapshot) and alerts (SettlementAge.Evaluation)
--   Submit         apps/backend/src/services/oracle-submit.ts: submitWithRetry and
--                  submitWithIdempotence, and in Submit.Outbox advanceSettlement with the record of
--                  apps/backend/src/store/settlement-store.ts
--
-- Functions and fields keep the source's names in snake case. State is passed explicitly: a method
-- takes the object's record and returns the new one with what it returns.
--
-- Numbers are natural numbers: times in milliseconds, counters, ids and stakes, none of which
-- reaches the limit of exact integers except where the source tests for it. A difference that the
-- source guards with Math.max(0, ...) is the subtraction that stops at 0. Multipliers are natural
-- numbers, a rate is a fraction, and comparisons and ranks of percentiles are exact. Dates are
-- numbers, so parsing a stored date that is no date is not covered.
--
-- A synchronous method, and each step of an asynchronous one, reads the clock once: the time is an
-- argument. Ids made of the time and a random part are arguments as well. Calls of stores
-- succeed, except for the lock of a table and the constraints of SQLite where Dlq.SqliteStore and
-- Match.SqliteStore model them; calls of the platforms, of the ledger and of the settlement client
-- are parameters whose result may say that they threw. Changing case affects ASCII letters only.
--
-- Code outside of the repository is a parameter: the hash (with the hypothesis that it is
-- injective where a theorem needs it), the platforms' answers, the handlers and callbacks.
--
-- All loops are structural recursions on the list they go through or on the number of attempts left.
-- Only the decimal digits of a number are written on fuel, one more than the number, of which each
-- digit takes one. A crash cuts an attempt of the outbox short after any number of its effects.
--
-- Not modelled: log output and metrics other than those of the settlement age monitor, timers except
-- as effects and jobs, reading the environment, the HTTP routes, the drivers of the durable stores,
-- the stores on MongoDB and of the circuit breaker, the Stellar SDK, the tracing, the window and
-- SQLite rate limiters, backup and restore, and of the frontend all but the amounts and the
-- responsible play: input and output, or parts that stand on their own. The contracts of contracts/
-- are not TypeScript and are not covered.
pub mod Common
pub mod Breaker
pub mod Dlq
pub mod Match
pub mod Errors
pub mod Submit
pub mod SettlementAge
pub mod Linking
pub mod Money
pub mod Play
pub mod Polling
pub mod Disagreement
pub mod RateLimit
pub mod Maintenance
pub mod Fetchers
pub mod Eligibility
