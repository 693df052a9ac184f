-- ===== src/Lib.antt =====
-- Verification library of HostForge, a control plane that deploys services and databases on one host.
--
-- The program keeps its state in SQLite. HTTP handlers enqueue work in the table `operations`; pools of
-- workers (internal/workers) claim it, run a handler and record the outcome; every transition is
-- projected in the same transaction onto the read models `database_operations` and `deployments`
-- (internal/repository). At start, before any worker, the runtime recovers what a dead process left.
--
-- Base, Sql, Clock: shared helpers; tables as lists of rows with UPDATE … WHERE, RowsAffected and the
--   first row of an ORDER BY; times as written (RFC3339Nano) and compared as texts.
-- Queue: internal/repository/operations.go and operations_deploy.go. Queue/Rows has the tables' rows.
--   EnqueueOperation and insertDatabaseOperationQueueRow are in Queue/Enqueue, ClaimNextOperation in
--   Queue/Claim, RenewOperationLease, DeferOperation and CompleteOperation in Queue/Lease, the
--   cancellations in Queue/Cancel, RecoverOperations in Queue/Recovery, and the projections onto
--   deployments in Queue/Deploys. Queue/Progress and Queue/Removal are the two writers of the table in
--   internal/repository/database_services.go: UpdateDatabaseOperation, by which handlers report, and
--   BeginDatabaseServiceDeletion. Queue/Steps has one command for each transaction that writes the table
--   of operations, and a run is any list of them: transactions are the only points where workers,
--   handlers and the API interleave.
--   Queue/Lifecycle is the specification, the moves that one operation may make; Queue/Changes shows
--   command by command which change of the table it is. The other files are about what follows.
-- Workers: internal/workers. Registry, Runtime (claim.go and runtime.go), HoldLease (holdLease of
--   claim.go, as a list of beats); Outcomes, Heartbeat and Admission have the theorems.
-- Deployments: CreateServiceDeployment and CancelDeployment of internal/repository/deployments_v2.go,
--   UpdateDeploymentStatus of store.go, RecordDeploymentEvent of platform_events.go.
-- Auth: internal/auth/auth.go; Auth/Sessions has what a session that is accepted comes from.
-- Backups: internal/repository/database_backups.go and one pass of each loop of
--   internal/services/database_backup_schedule.go. Rows has the tables; Destinations, Policies, Records
--   and Transfers the methods of the store, with what is read before a transaction apart from it; Loops
--   the two passes. Steps has one command for each method, Effects what a command may do to the tables.
-- Gateway: internal/repository/database_gateways.go. Names has the names for PgBouncer and PostgreSQL,
--   Access the normal form of a list of networks (netip's reading of one is an argument),
--   Credentials and Rotation what is done to an external connection's credentials, generation by
--   generation; Steps has one command for each call that writes them, Changes and Sealed what runs of
--   these keep; Blocked what a rolled-back rotation leaves. Queue is the claim
--   of a gateway operation, and Taken what it leaves.
-- Metrics: the sample ring of internal/hostmetrics/sampler.go, and the memory figures of parse.go in
--   the machine's 64-bit integers.
-- Ports: internal/docker/ports.go. Logs: the tails of internal/logs/files.go.
-- Examples: a small database and concrete inputs.
--
-- What comes from outside is an argument: HMAC, base64 and JSON, the clock, the ids that newID
-- draws, the work of a handler, what the operating system answers about a port, what the object
-- store and the sealed keys answer, and the next time of a schedule. Errors are values without a
-- database, since a failed transaction rolls back. There is no fuel: every loop of the model is
-- over a list or a number. Assumptions on callers: IsSound of a queue command says that no
-- operation is enqueued as already running, that a row of database_operations is enqueued with no
-- attempt used, no error, and an id without spaces round it, and that no report has the status
-- 'queued'. MeetsRunning says that the operation that a report names is running; the code does not
-- check this. Instants are numbers of nanoseconds, so a clock before 1970 and years past 9999 are
-- out of the model.
--
-- Not modelled: the statements on database_operations alone in database_services.go
-- (ClaimNextDatabaseOperation, RenewDatabaseOperationLease, FailExhaustedDatabaseOperations,
-- RequeueExpiredDatabaseOperations), which only tests call; a recovery between the calls on
-- backups, whose writes to database_backups and database_restore_jobs are with the queue, in its
-- own copy of those columns; the SQL engine beyond these statements, log output, contexts and
-- timers (a round of the drain loop reads the clock and the stop signal from a list), the host
-- readers and the rates, following a log file, the gateway's endpoints and routes and what else is
-- done to its operations, and the parts that only call Docker, Git, Caddy or HTTP.
pub mod Auth
pub mod Backups
pub mod Base
pub mod Sql
pub mod Clock
pub mod Queue
pub mod Workers
pub mod Metrics
pub mod Deployments
pub mod Ports
pub mod Gateway
pub mod Logs
pub mod Examples
