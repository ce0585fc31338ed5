-- ===== src/Lib.antt =====
-- The services of the Dike prediction market, dike-services, and how its web application, dike-web, sends
-- transactions, modelled from their sources.
--
-- The service has two halves that share Postgres, Redis and the metrics. The fee sponsorship takes a signed
-- transaction over HTTP, checks it, charges quotas in Redis, wraps it in a fee bump and submits it. The
-- indexer polls the node for the events of each deployed contract, stores and dispatches them and moves
-- the contract's checkpoint. The dispatch of an event, and the scheduled jobs, reconcile: they read what the
-- contracts report and write it to the tables that the API serves.
--
-- The modules, and the code that each models:
--   Sponsorship (dike-services/src/sponsorship): Types, Request, Validator, Signature, Allowlist, Fees,
--     FeeBump, Quota, Replay, Submitter and Service are the files of these names; sponsor of Service is
--     FeeSponsorshipService.sponsor, a function from a world to an answer and a world. Sdk holds what the
--     code reads of the Stellar SDK, as parameters.
--   Observability: Metrics is MetricsStore and its operations (dike-services/src/observability/metrics.ts), and
--     Bus the updates of dike-services/src/observability/event-bus.ts.
--   Task: an asynchronous method, as a function from the database, the metrics and the published updates to
--     how it ends and what they are then; what was written before a throw stays written.
--   Store (dike-services/src/db/repositories/state-repository.ts): Tables and Upserts are buildUpsertSpec
--     and the upserts that use it, with the columns that dike-services/migrations/001_init.sql declares NOT NULL;
--     Database has the statements of the indexer, Governance and Listings those of the
--     jobs, and Bootstrap bootstrapManifest; a table is a list of rows in the order of insertion.
--   Reconciliation (dike-services/src/jobs/reconciliation.ts): Markets, Requests, Positions and Governance have the
--     methods of ReconciliationService; Environment holds the contracts as parameters.
--   Indexer (dike-services/src/indexer): Source is EventSource.pollContract, Worker is IndexerWorker.tick,
--     Dispatcher has the readers and the routing of EventDispatcher, Handlers its handlers, with the worker
--     over them in Handlers.Whole, and Codecs the normal form of values in
--     dike-services/src/contracts/codecs.ts.
--   Domain (dike-services/src/domain): the tags and the derived state of a market.
--   Jobs (dike-services/src/jobs/scheduled.ts): discoverMarketIds, and ScheduledJobs.tick in Scheduled.
--   Api (dike-services/src/api): Validation has the parsers of request-validation.ts, and Authorization the admin
--     key and the rights of an address in server.ts.
--   Migrations (dike-services/src/db/migrations.ts): runMigrations.
--   Wallet (dike-web/lib/stellar): Errors and Polling are of transaction.ts, and Execute is executeTransaction.
--   Prelude: shared tests, lists, integers and dictionaries.
--
-- State is passed explicitly. An asynchronous call is one step, and calls of the sponsorship run one
-- after the other in the statements on histories. Fees are unbounded integers, as bigint is. Ledgers,
-- times and counters are natural numbers. The polling loop of the submitter runs on fuel, for which one turn for each
-- millisecond of the time-out is enough; the page loop of the event source has its own bound of 100.
-- The poll of the web application makes 60 more reads after the first, and the pages of recent approvals have
-- the bound of 10 of the source. A task of the reconciliation sees one answer of each contract call; the steps
-- of a scheduled tick see different ones.
--
-- Not modelled: the other HTTP routes, the configuration, the logs and timers, which are glue; the read queries of the
-- API, which are SQL; the rest of the web application in dike-web, and the smart contracts in dike-contracts. Numbers that
-- are not integers are left out. Of the schema of the tables the keys and the NOT NULL columns are modelled, and not the
-- types of the columns. The statements of the worker that are not its dispatcher's or
-- the lease's do not fail: recordRawEvent in the loop and getDeployments among them. That a statement of the
-- lock or of a transaction of the migrations fails is left out. The Stellar SDK, Redis expiry, the RPC node, the
-- sessions that a pool gives to its queries and the clock are arguments of the
-- definitions, and what is asked of them stands as hypotheses of the theorems that need it.
pub mod Prelude
pub mod Sponsorship
pub mod Migrations
pub mod Observability
pub mod Store
pub mod Indexer
pub mod Api
pub mod Domain
pub mod Task
pub mod Wallet
pub mod Reconciliation
pub mod Jobs
