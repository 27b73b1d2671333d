-- ===== src/Lib.antt =====
-- Verification library of the personal mail hub: the recovery controls, the send pipeline, the
-- mail actions, the backfill of a folder and the ranking of messages.
--
-- The hub keeps one mailbox in a database. A restored database must not send mail again that was
-- sent before the restore, so every mutation and every job carries a recovery generation
-- (packages/recovery), the send pipeline (packages/send) submits a frozen snapshot once, and the
-- action service (packages/actions) changes flags and moves messages on the mail server.
-- The backfill (packages/sync) imports the headers of a folder window by window. The ranking
-- (packages/home) says what deserves attention, in what order and why.
--
-- Files and the code that they model:
--
-- Base, Base/*: tests, lists, texts as lists of code points, and tables as lists of rows under a
--   text key, with the statements `select … limit 1` and `update … where … returning`.
-- Database: the closed state sets of packages/database/src/schema.ts.
-- Recovery: packages/recovery/src/status.ts (parseDeploymentGeneration, classifyControlState,
--   decideMutationGate, assessJob, mutationGateError), with its laws in Recovery/Uuid and
--   Recovery/Gate. Recovery/Controls: packages/recovery/src/controls.ts (readStatus, gateMutation,
--   initialize, beginRecovery, completeRecovery) on the tables that it reads, with the hooks as
--   parameters; Recovery/Lifecycle has the laws of the commands in sequence.
-- Send: the rows of packages/database/src/schema.ts and the SMTP types of
--   packages/contracts/src/index.ts and packages/send/src/smtp.ts that the send service works on.
--   Send/World is its state: the tables, the durable storage, and two logs of what went over the
--   network. The other children model packages/send/src/service.ts:
--   Send/Results: recipientResultsOf, smtpResponseOf, reconciledRecipientResults.
--   Send/Queue: the data of queueSend; Send/Queue/Prepare: what freezeSnapshot reads, composes and
--   stores before its transaction; Send/Queue/Commit: the transaction, queueSend, and
--   lockDraftForSend from packages/compose/src/service.ts.
--   Send/Lock: the release of the draft lock, from packages/compose/src/service.ts.
--   Send/Commit: commitAcceptance, recordFailure, recordUnknown, insertLocalSentMessage.
--   Send/Outbound: executeOutbound. Send/SentCopy: locateVerifiedCopy, concludeSentCopy and the
--   work of one append attempt. Send/Append: executeSentCopyAppend, with Send/Append/Authorized on when
--   it appends. Send/Reconcile:
--   reconcileUnknownOutcome, noteReconcilePass. Send/Recovery: recoverAbandonedAttempts.
--   Send/Sweep: executeQueued, appendDueSentCopies, reconcileUnknownOutcomes.
--   Send/Status is the specification of a row's life, as a relation between statuses.
--   Send/Interleaving makes every statement or transaction of executeOutbound a step, runs any
--   number of workers beside the other jobs and the transactions that queue sends, and lets a
--   process stop between two steps.
-- Actions: the types of packages/actions/src/kinds.ts, executor.ts and mailbox.ts and the rows of the
--   tables that the action service uses. Actions/Kinds: validateSubmission, canonicalScope and the
--   kinds. Actions/State is the service's state: the tables, the state of the mailbox and of all
--   else outside (record Environment), and a log of what was handed to the executor. The children
--   model packages/actions/src/service.ts: Actions/Disposition: commitDisposition, markExecuting,
--   finalizeActionStatus. Actions/Check: the checks of one item and the receipts of the executor's
--   answers. Actions/Execute: execute. Actions/Restore: dispositionRestoredActions and
--   reconcileIncomplete. Actions/Submit: submit. Actions/TwoWay is
--   packages/actions/src/two-way-executor.ts. Actions/Rows has the transitions of an item as a
--   relation, Actions/Sound the relation between the states before and after an operation; Writes,
--   Claim, Items, Run, Hold, Drive and Restored follow the code from one write up to a whole
--   operation, and Actions/Runs puts operations in sequence. Actions/Fresh is about the item that is
--   handed over, Actions/Submit/Replay about a repeated key.
-- Sync: the rows and the session of the header import; Sync/Store: loadFolder and importHeaderRecord of
--   packages/sync/src/store.ts; Sync/Backfill: packages/sync/src/backfill.ts. Sync/Backfill/Laws is
--   about the rows of one window, Sync/Backfill/Steady about a window against a server whose folder
--   keeps its generation, Sync/Backfill/Complete about batches in sequence.
-- Home: packages/home/src/ranking.ts, whose answers are read off stored rows; Home/Laws has the
--   laws of its order.
-- Sync/Tests, Home/Tests, Recovery/Tests, Send/Tests, Send/Queue/Tests, Actions/Tests: concrete runs.
--
-- How the code is read: a method is a function from the world to its answer and the world after
-- it; an exception is a value, and a transaction whose body throws leaves no write. A callee
-- outside of the repository is a parameter that answers or throws: the SMTP client, the IMAP
-- session, MIME parsing, SHA-256, the sanitizer's index texts, identifiers and the clock (record
-- Env). Within one Sent-copy session the mailbox may change between the search before the append
-- and the one after it, so the session has one mailbox for each. The MIME composer, the Markdown
-- renderer and the hash of a request are parameters too (record QueueEnv), and `queue_send` takes
-- what others write between the storing of the bytes and its transaction. Identifiers are
-- compared as texts, so the model speaks of identifiers in the lower case that the database
-- returns. Instants are natural numbers of milliseconds. Every loop is structural recursion over
-- a list of rows or candidates, so that no fuel is needed; the retry of the acceptance
-- transaction runs at most twice, as in the code.
--
-- Not modelled: texts of messages to the user, the payload fields of events that repeat columns,
-- logging, connection set-up and the user interface. Two runs of the same action that overlap in time
-- are not modelled: an operation of the action service runs to its end or to an exception. The
-- packages beside recovery, send and actions are not modelled, except for the draft lock of
-- packages/compose, the backfill of packages/sync and the ranking of packages/home.
pub mod Actions
pub mod Base
pub mod Database
pub mod Recovery
pub mod Send
pub mod Sync
pub mod Home
