-- ===== src/Lib.antt =====
-- memgov: a local service that watches conversations on chat channels, plans work from the
-- messages and answers through an outbox. This library models the part that decides: the core
-- package, whose state is one SQLite file.
--
-- A table is a list of rows, oldest first, and an operation is a function from the store to a
-- result with the next store (Base.Errors, Base.Table); a failed operation is rolled back, so it
-- leaves the store as it was. Every operation runs in one transaction under one writer, so a
-- history is a list of calls; each component's Call says which calls those are. Audit rows
-- (Tx.Audit) are left out: nothing modelled reads them. Identifiers that the code draws at random
-- (NewID) are arguments, and the clock is an argument (Base.Time). Digests, JSON, lower case,
-- SQLite's julianday and the parsing of times are parameters.
--
-- - Schema: the tables of internal/core/schema_v2.sql and its successors that the model uses.
-- - Transaction: internal/core/db.go, Store.Mutate, with Request and Result of internal/core/types.go;
--   the state, the operation and the redaction of a stored answer are parameters.
-- - Channel: internal/core/channel.go. ReadChannel, ReadRoute, RouteFor; Channel.Normalize
--   has normalizeChannel, Channel.Setup AddChannel, Channel.Routes AddRoute and UpdateRoute,
--   Channel.Receiver the lease of a channel: ReadLease, AcquireLease, CheckLease, RenewLease, ReleaseLease (Channel.Receiver.Register
--   is what these promise, a register with a slot for each channel);
--   Channel.Capabilities has SetChannelCapabilities.
-- - Configure: internal/core/runtime.go. normalizeRuntimeInput; Configure.Checks has the checks of
--   ConfigureRuntime, Configure.Store what it and SetRuntimeStatus store. It uses Identity for the
--   owner and Tasks for the work that a change ends.
-- - Coverage: internal/core/coverage.go. ReadWatermark, ObserveMessage, RecordCoverage;
--   Coverage.Backfill has NextWindow, Coverage.Rewrites what the end of an import writes
--   (internal/core/history_import.go); Coverage.History has the calls as data.
-- - Identity: internal/core/message.go. Sender.validate, PrincipalFor, LinkIdentity.
-- - Intake: internal/core/message.go, Intake: Intake has what an adapter hands in and its keys,
--   Intake.Store and Intake.Apply what an event makes of a message (applyMessage, applyRecall),
--   Intake.Receive the call, with correctDWSHistoryTime of internal/core/history_time_recovery.go;
--   Intake.History has deliveries as data. It uses Channel for the route and Identity for the sender;
--   what storing a source answers is a field of the record Contents.
-- - Outbox: internal/core/outbox.go and internal/core/dispatch.go, with BeginDelivery and
--   FinishDelivery of internal/core/runtime.go. Outbox.Contexts has OpenContext, Outbox.Drafts the
--   making of a draft, Outbox.Checks what a preview checks, Outbox.Dispatch what is done with one;
--   Outbox.History has the calls as data, with the redaction of stored drafts (Outbox.Redaction,
--   internal/core/direct_retention.go). It uses Channel for the route of a draft, and a task only
--   through the record TaskView.
-- - Policy: internal/core/applied_config.go and checkAppliedPolicyEpoch: which configuration a piece
--   of work was claimed under, and whether that still holds; ReadRuntime.
-- - Work: internal/core/runtime_scheduling.go. The leases of workers and their directory locks;
--   Work.Limits has Scheduling.Normalize, Work.Capacity PoolAvailable and claimWork, Work.Lanes which
--   tasks must wait for each other.
-- - Tasks: internal/core/runtime.go, the life of a task. Tasks.Claim has ClaimRuntimeTask,
--   Tasks.Proposed what an agent hands in, Tasks.Outcome CompleteRuntimeTask, FailRuntimeTask and
--   SetRuntimeTaskStatus, Tasks.Confirm ConfirmRuntimeActionFromMessage, Tasks.Actions the claiming and the end of an action,
--   Tasks.Recovery FailRuntimeBatch and RecoverRuntime, Tasks.Reconfigured InvalidateRuntimeConfigWork
--   of runtime_config_guard.go, and Tasks.Approval who may approve and whether
--   an approval still holds (runtime_confirmation.go, runtime_destructive.go, runtime_card.go).
--   Tasks.Revised has what the rest of the program does to a stored task: SyncRuntimeMessages after
--   an edit or a recall, CompleteRuntimeBatch for a decision on it, the rejection in ConfirmRuntimeCard
--   (runtime_card.go), ResumeRuntimeTask (runtime_task_resume.go) and retention
--   (direct_retention.go), without the checks of these calls, so that each may come at any time.
--   Tasks.Moves and Tasks.Acts say which changes the calls are made of; Tasks.History has the calls as
--   data. It uses Policy for the configuration, Work for leases and capacity, and Channel for routes;
--   retained messages, the sessions of direct chats and forwards by the bot are the record Evidence.
--
-- No definition runs on fuel: loops over rows, roots and checks are recursions on lists, and those
-- over texts on their characters. Times are natural numbers of nanoseconds, and a subtraction on
-- them stops at 0; what the code makes of negative durations is said where it matters.
--
-- Not modelled: the command line, the HTTP and chat transports, the agents' processes and the
-- files they write, reports that only read, sources and their evidence, the synchronisation of a
-- runtime with its groups, and the batches in which an agent makes new tasks of messages. A draft that
-- reports on a task still sees the task through TaskView.
pub mod Base
pub mod Schema
pub mod Channel
pub mod Configure
pub mod Coverage
pub mod Identity
pub mod Intake
pub mod Outbox
pub mod Policy
pub mod Tasks
pub mod Transaction
pub mod Work
