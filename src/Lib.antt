-- ===== src/Lib.antt =====
-- RepoLens: a durable job queue on SQL tables, the diagnosis runs that it executes, an agent with
-- budgets, and the indexing of code for retrieval (Go, internal/).
--
-- Base: Boolean tests, lists measured by native numbers, texts as codes, equality as an interface.
--
-- Sql: what the stores take from database/sql. A table is the list of its rows in the order of the
-- primary key; a SELECT is a `query`, an UPDATE by a key is `update` on the row that the key finds,
-- and the body of a transaction is a `Tx`, whose error drops everything that it wrote (Sql/Result).
-- `Moves` (Sql/Moves) says that a body, where it commits, moves the database by a relation that is
-- a preorder; it is proved of a body statement by statement.
--
-- Jobs: internal/jobs. Model and Db are the rows (model.go, cause.go, migrations/*.sql). The
-- operations of store.go are in Claim (CreateJobTx, ClaimJobs, MarkExecutionStarted,
-- ReturnUndispatchedClaim, RenewLease, RequestCancel, IsCancelRequested), Finalize
-- (ConditionalFinalizeSuccessTx, ConditionalFinalizeFailureTx, ConditionalFinalizeCancelTx),
-- Business (failBusinessTx, cancelDiagnosisRunTx), Revision (failAnalysisRevisionTx), Reap
-- (ReapExpiredJobs) and Requeue (ManualRequeueTx, RetryDiagnosis); retry.go is in Retry/Backoff and
-- Retry/Classify. Lifecycle is about all of them together: what may become of a row (Lifecycle),
-- that each statement and each operation keeps to it (Rows, Statements, Single, Final, Restart,
-- Reaping, Loops), what a claim hands out (Exclusive, Served), what a terminal failure leaves of the
-- resource (Failed, Failing), and the runs of the store (Traces). Jobs/Rows describes, column by
-- column, the rows that a requeue, a recovery and a report of the owner leave (Requeue/Outcome,
-- Reap/Outcome, Finalize/Owner, Finalize/Report). Worker is how worker.go resolves a call whose answer it does not have.
--
-- Pipeline: internal/analysispipeline over the stores of internal/snapshot, internal/revision and
-- internal/codeintel/store. Model are the rows of a revision and its three stages; Store, Builds
-- and Retry are store.go (CreatePreparation, retryPreparationOnce and what it resets, adopts or
-- creates), Resolver is resolver.go with ValidateLineage, Finalize and CodeIndex are the finalizers
-- of a stage, Symbols is saveAnalysisResultTx. Their bodies are transactions as those of Jobs, and
-- Sql/Read says what a body ensures where it commits. The proofs meet at a chain of rows
-- (Resolver/Chain): what a retry (Retry/Published) or the last finalizer (Finalize/Published)
-- publishes is what the resolver asks for. The SHA-256 hashes that identify a build and new UUIDs
-- are arguments; foreign keys, lengths of columns and columns that nothing reads are left out,
-- unique keys are in. A build id of 0 is no build, and `decimal` prints at most 20 digits, enough
-- for an int64.
--
-- Diagnosis: the transition tables of internal/diagnosis/state.go, beside what the job store
-- writes. Agent: internal/agent/guard.go. Indexing: internal/indexing/chunk.go. Retrieval: the
-- tokenizer and what AddDocument counts (internal/retrieval/tokenizer, internal/retrieval/bm25).
--
-- Evidence: internal/evidence. Citation is the check of a citation against a snapshot
-- (citation.go); Item and Issuer are the items of an attempt, their table, and how one is issued,
-- resolved and verified (item.go), over the ranges of lines that Snapshot/Files reads
-- (internal/platform/snapshotstore/snapshotstore.go, readBoundedLines); Report is the structure and
-- the classification of a report (report.go), and Draft turns the ids that a model cites into
-- citations through the interface EvidenceIssuer, which Issuer fills (report_draft.go). The proofs
-- run along that chain: what a limited read returned is read again (Snapshot/Files/ReadBack, and
-- Snapshot/Files/Whole for a read that goes on to the end of the file, by ToEnd), so that what is
-- issued is accepted (Issuer/RoundTrip), and the status of a report is told by what
-- its draft cites (Draft/Status).
--
-- What the model fixes. Times are instants in nanoseconds on one clock, and an operation reads it
-- once, also where the source reads it again or asks the database for it. Transactions follow one
-- another, as row locks and SKIP LOCKED make them; a SELECT without an order reads in the order of
-- the primary key. A failing driver is seen at the level of a whole transaction only (`transact`):
-- applied or not, with or without its answer. Tokens of uuid.New and rand.Int63n are parameters;
-- the range of the latter is a hypothesis. Counters and limits are natural numbers, and a value of
-- the source that is not positive is 0 where the source replaces it by a default. The durations of
-- the backoff are int64 patterns modulo 2^64. Texts are ASCII where their case or their white space
-- matters, and where paths are measured: of what strings.TrimSpace takes off, the white space
-- outside ASCII is left on. The loop of a bounded read sees whole lines where the
-- source puts fragments of a buffer together; nothing is computed with floating point. The loop of
-- ChunkFile runs on rounds, of which one per line is enough.
--
-- Not modelled: the branches of store.go for test schemas that lack tables or columns, the metrics
-- and log lines, and the parts of the program that the manifest lists so: the worker's concurrency,
-- the agent's loop, the scores of retrieval, the analysis of code, providers and I/O.
pub mod Agent
pub mod Base
pub mod Diagnosis
pub mod Evidence
pub mod Indexing
pub mod Jobs
pub mod Pipeline
pub mod Retrieval
pub mod Snapshot
pub mod Sql
pub mod Tests
