-- ===== src/Lib.antt =====
-- A verification library for the time-off request service: requests for days off, the balances that
-- the days are taken from, and the synchronisation of both with an external HCM system.
--
-- The program. Employees create requests; a manager approves, rejects or cancels them
-- (src/modules/timeoff-requests). An approval takes the days off a balance (src/modules/balances) by
-- an optimistic update of a versioned row, inside a transaction, and leaves a ledger entry and an
-- outbound sync event. A worker (src/modules/hcm-sync/workers) delivers the events to the HCM by the
-- client, retries transient failures and reverses the request on a final one. The HCM in turn sends
-- single updates (realtime) and whole snapshots (batch), and a reconciliation compares one balance
-- with it. POST requests pass the idempotency interceptor (src/modules/idempotency), and the filter
-- turns exceptions to replies.
--
-- Which file models what:
--   Domain: src/shared/domain and src/shared/types. Errors has the error codes and exceptions, Status
--     the machine of request-status.policy.ts, Days the guards of balance.policy.ts, Lifecycle the
--     diagram of the statuses as a relation.
--   Store: Rows has the tables of src/db/migrations as lists of rows; World the database, the clock,
--     the random sources, the client and the metrics, and actions, which return or throw and leave a
--     new world (withTransaction of src/db/database.service.ts is with_transaction). Keeps has the
--     rules for invariants of actions, Run equations for composed actions.
--   Database: Reset is resetAllTables and Migrations runMigrations of src/db/database.service.ts, over
--     the file system of Files; Applied and Once are about the runner. Configuration: src/config.
--   Balances: balances.repository.ts and balances.service.ts, one action for each method; Rows,
--     Consume and Delta say what they do to the row of each key.
--   Requests: Repository and Service are timeoff-requests.repository.ts and .service.ts; approve is
--     split at its early returns into approve_once, reserve, finish_approval and record_approval.
--     Approval, Atomic, Refusals and Closing are about approve, reject and cancel.
--   Hcm: Client is hcm.client.ts, Realtime realtime-sync.service.ts, Batch ingestBatch and Reconcile
--     reconcileOne of batch-sync.service.ts, Worker outbound-sync.worker.ts. Delivery and Applying are
--     about realtime events, Rows, Chunks and Ingestion about batches, Drift and Convergence about
--     reconciliations, Due, Backoff, Attempt, Outcome and Reversal about the worker. Liveness is about attempts
--     again and again. Overlap is the worker cut at its await, with other calls and runs in between; Alone, Twice and
--     Overlapping are about that.
--   Idempotency: Fingerprint is fingerprint.ts, Service idempotency.service.ts and the interceptor
--     around an arbitrary handler; Replay and Canonical are about them.
--   Observability: metrics.service.ts, app-logger.service.ts and app-logger.repository.ts;
--     Interceptor is trace.interceptor.ts, Tracing is about the ids of log rows. Prometheus is the text
--     of toPrometheus, Reading and Samples a reader of it; Digits, Lines and Exposition are about both.
--   Api: the controllers as one type of calls, and src/filters/domain-error.filter.ts.
--   Invariant: Writes is the interface of a predicate to the statements that write; Balances, Approval,
--     Requests, Hcm, Batch and Calls carry such a predicate to every call and every history of calls; Sound,
--     Recorded, Versions, Lifecycle and Granted are such predicates, and Overlap carries them to
--     runs of the worker that overlap, which Phases is about. Tests: runs at concrete inputs.
--   Accounts: Held is the sum of the days that granted requests hold, Effects, Grants, Approvals and
--     Reads what the calls on requests and balances do to it; Settling and Deliveries what the delivery
--     of an event does to it, Owed, Working, Keeping and Owing which deliveries are still to be made;
--     History is about histories of such calls and runs. Tables is about tables with keys.
--   Base and Json: shared types, tables as lists, integers, the order of texts, JSON values.
--
-- Bounds. approve makes at most three attempts, as the source does; the first one always decides
-- (Requests/Atomic). The chunk loop of a batch is given one round more than there are rows, which is
-- enough as every chunk has at least one row (Hcm/Chunks). The digits of a number get one round more
-- than the number, which is enough as each round divides it by ten (Observability/Digits). All other loops are over lists. Versions
-- and counters are natural numbers: they stay far below the 2^53 of a JavaScript number.
--
-- What is outside the sources is a parameter: the readings of the clock, of randomUUID and of
-- Math.random, the remote HCM, which answers by all that it was sent, the file system and what a SQL
-- text does to the schema. SQLite is modelled by what
-- the statements ask of it: the constraints that the code can violate throw and write nothing.
--
-- What is not modelled: rounding (an amount of days is an integer count of the smallest unit, an
-- infinity or NaN); JSON texts, for which the values stand that they are made of; messages of
-- exceptions, for which the exceptions stand; the order of UTF-16 code units outside the first plane;
-- other calls between the await of a reconciliation and what follows it; a limit of the worker that is
-- negative or no integer; the headers of replies and console output; the wiring of the
-- Nest module and main.ts.
pub mod Base
pub mod Json
pub mod Domain
pub mod Store
pub mod Database
pub mod Configuration
pub mod Balances
pub mod Requests
pub mod Observability
pub mod Hcm
pub mod Idempotency
pub mod Api
pub mod Invariant
pub mod Accounts
pub mod Tests
