-- ===== src/Lib.antt =====
-- The settlement core of x402-facilitator-stellar, an HTTP facilitator that verifies and
-- settles x402 payments on Stellar: one payment is to be settled once, whatever retries, time
-- limits and concurrent instances do.
--
-- The parts, from the bottom up:
-- Common: shared helpers. Common/Dict is the association list that stands for a JavaScript Map
--   in the order of insertion; Common/Sort is the stable sort that stands for
--   Array.prototype.sort; Common/Text has trim and the caseless comparison; Common/Results has
--   the result monad for code that throws.
-- EventStore (src/eventstore/events.js, src/eventstore/projection.js): the events of a
--   settlement, their validation, and the fold that computes a settlement's current state.
--   EventStore/Fold has its laws.
-- Settlement (src/store/memory.js): the event-sourced store, a log of events for each key.
--   Settlement/Log and Settlement/Lifecycle say what each operation does to the log and to the
--   projections, Settlement/Refinement relates the store to a map from keys to states,
--   Settlement/Audit is about the audit trail.
-- PgSettlement (src/store/postgres.js): the tables of the Postgres settlement store with its
--   statements as functions; PgSettlement/Store has the store of one process with its mirror in
--   memory and statements that fail, PgSettlement/Log and PgSettlement/Refinement relate the
--   tables to the memory store, PgSettlement/Writes, PgSettlement/Safety and
--   PgSettlement/Repair are about failures, repair and stale reads, PgSettlement/History about
--   any calls and rebuilds, and PgSettlement/Transaction has the transaction of a settlement
--   statement by statement.
-- Reconciliation (src/store/reconciliation.js): the sweep that resolves unknown settlements;
--   Reconciliation/Resolution says what it resolves, Reconciliation/Unresolved what it makes of
--   the records of POST /settle.
-- ReadModel (src/settlement-cqrs.js, src/eventstore/projection-worker.js): the worker that
--   projects events into the table for queries; ReadModel/Batch and ReadModel/Reading say what
--   a batch holds and writes, ReadModel/Delivery which settlements reach the table,
--   ReadModel/Progress when the loop that catches up ends.
-- MultiSigner (src/multi-signer.js): envelopes that wait for co-signatures;
--   MultiSigner/Soundness has their invariant, MultiSigner/Threshold what an assembled
--   transaction carries.
-- TrustProxy (src/trust-proxy.js): the client's address behind proxies; TrustProxy/Addresses
--   reads addresses as numbers, TrustProxy/Masks says what a range's mask compares,
--   TrustProxy/Spoofing what a client can make of its address.
-- CrdtRateLimit (src/crdt-rate-limit-store.js): the counters of a region and the upserts by
--   which the regions merge in one table (Merge), and a region that has lost its database
--   (Faults).
-- DistributedLock (src/distributed-lock.js): the manager in memory as a chain of promises for
--   each key (Order, Exclusion), and the loop of attempts on the Redis nodes with its fallback
--   (Redlock, Waiting). The fuel of the loop is one attempt more than the timeout has delays.
-- AssetCache (src/asset-cache.js): amounts as texts of code units and the units that they stand
--   for (Numbers, Conversion), and the way back (Printing).
-- Catalog (src/catalog/memory.js): the listings, their expiry, limits and pages; what the
--   version promises (Versions), which listings stay (Lifetime), the pages (Listing) and the
--   counts by recipient (Counts). The order of localeCompare is an argument.
-- KeyManager (src/key-manager.js): generations of signing keys and the snapshots that lease
--   them (Leases). Key ids and the check of a secret are arguments.
-- Idempotency (src/idempotency.js): claims on keys, in memory (Idempotency/Memory) and in
--   Postgres (Idempotency/Postgres).
-- Request and Settle (the POST /settle handler of src/app.js): a request with the keys derived
--   from it, and the handler over the two stores in memory. Settle/Replies and Settle/Outcome
--   follow one request and its repetition, Settle/Anomalies has the endings that a caller does
--   not expect. Settle/System has requests that overlap, as a sequence of events of one
--   process, with Settle/Claims, Settle/Exclusion and Settle/Overlap on what may run at the
--   same time.
-- RateLimit (src/rate-limit-store.js, src/rate-limit.js): RateLimit is the interface between
--   the limiter and its store and what a store promises, RateLimit/Store has the two stores and
--   that they keep the promise, RateLimit/Limiter the limiter over any store, RateLimit/Budget
--   and RateLimit/Rounds what it lets through.
-- Outbox (src/outbox/store.js, src/outbox/worker.js): the table of notifications with its
--   statements as functions, and the worker; Outbox/System has workers as sequences of steps,
--   Outbox/Safety and Outbox/Delivery are about loss, Outbox/Claims is about leases.
-- RpcRetry (src/rpc-retry.js): retries of calls of the Soroban RPC and the circuit breaker of a
--   host; RpcRetry/Breaker says when it opens and what passes it. The loop runs over the
--   attempts that are left.
-- Failover (src/failover-health.js): the health of the regions; Failover/Routing says where
--   traffic is to go and when a region is back.
-- Dlq (src/dlq/store.js, src/dlq/worker.js, src/dlq/manager.js): dead letters, the operator's
--   actions (Dlq/Manager), retries (Dlq/Retries) and alerts (Dlq/Alerts).
-- Settle takes the verdict of the rate limiter as an argument, and hands notifications to a
-- list, where the Postgres settlement store would insert them into the outbox.
--
-- Conventions. A JavaScript value that is null or undefined is `none`. A clock reading is an
-- argument of the call that makes it, so that time is any sequence of readings. A call that
-- throws returns a result, and `after` is the state that it leaves. The facilitator (the
-- package @x402/core) is not part of the repository: what it answers or throws, and whether a
-- transaction was submitted by then, are arguments of the handler. SHA-256 and JSON.stringify
-- are functions that the definitions are given, with nothing assumed of them. A database is
-- given by the tables that its statements meet, and a statement is one step, as its locks make
-- it; a transaction is one step where other calls use it, and PgSettlement/Transaction has it
-- in statements. A rate limiter's call has one reading of the clock. Loops run over lists, and
-- a loop that polls has the list of its polls; the loop of ReadModel that catches up, the loop
-- of attempts of DistributedLock and the printing of digits take fuel: ReadModel/Progress and
-- DistributedLock/Waiting say how much is enough, and a number has no more digits than itself
-- plus one.
--
-- Not modelled: the other routes, the Redis rate limit store, the payment schemes (built on the
-- Stellar SDK), search in the catalogue and its caches, the MCP server, webhook delivery,
-- credentials, configuration, and logs, metrics and tracing. The limiter takes the CIDR match
-- of TrustProxy as an argument. The first of these are state machines of their own; the last
-- are input and output only.
pub mod Common
pub mod EventStore
pub mod Settlement
pub mod PgSettlement
pub mod Reconciliation
pub mod ReadModel
pub mod MultiSigner
pub mod TrustProxy
pub mod Idempotency
pub mod Request
pub mod Settle
pub mod RateLimit
pub mod CrdtRateLimit
pub mod Outbox
pub mod Dlq
pub mod RpcRetry
pub mod Failover
pub mod DistributedLock
pub mod AssetCache
pub mod Catalog
pub mod KeyManager
