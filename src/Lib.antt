-- ===== src/Lib.antt =====
-- A verification library of the Family AI Platform: the Family AI Gateway's event log and outbox,
-- the synchronisation of devices with it, its event stream, the pairing of mobile devices, and the
-- threads in which a person and an agent exchange messages and files.
--
-- The program. The gateway (apps/gateway) keeps all business data in one SQLite database. Triggers
-- on its tables, and `append`, add domain events to a person's log (apps/gateway/src/
-- domainEventCore.ts, domainEvents.ts); each event takes the person's next number and gets a row in
-- the outbox, which workers claim with a lease. A device reads the log by pages and acknowledges
-- events (deviceSync.ts, deviceSyncRoutes.ts), and what it reads must satisfy the public contract
-- (packages/contracts/src/sync.ts). A connection to the event stream is sent the same events as they
-- come (eventStream.ts). A device gets in by a pairing code (mobilePairing.ts), which gives it a
-- binding and a personal session, until it is revoked; a request, and each heartbeat of a stream,
-- is authenticated by its session (entrySessionAuth.ts, familyDomain.ts). A message that a person
-- sends is appended to a thread (chatWorkDomain.ts) with files uploaded before
-- (attachmentRepository.ts); it gets a turn, which goes to the provider of the agent and ends with a
-- reply or an error (chatWorkProvider.ts, chatWorkMessageService.ts, chatWorkContext.ts). What the
-- turns say of an agent is its status (agentStatus.ts). A trigger logs each message and each end of
-- a turn.
--
-- The models.
--   Common        shared names, tests, lists of rows, outcomes and operations on a database
--   Json          JSON values, as payloads
--   EventLog      tables and operations of DomainEventStore on the log; EventLog.Triggers has the
--                 triggers, EventLog.Gapless and EventLog.Paging the numbers and the pages
--   Outbox        claimOutboxBatch, markPublished, markFailed; Outbox.Leases on who holds an event
--   SyncContract  the schemas of the contract as tests: Formats, Events, Pages; Emitted and Recorded
--                 relate the triggers to it
--   DeviceSync    DeviceSyncRepository (readCursor, acknowledge) and, in Routes, the two routes;
--                 Cursor, Replies and AckReplies on what they answer
--   System        every writer of the event database as a step relation, and its histories
--   EventStream   a subscriber's queue and writer (enqueueFrame, drainQueue, ensureWriter) and the
--                 pass of the hub (pumpPersonPass); Delivery, Queues, Passes and Served on it;
--                 Heartbeats has heartbeatAll, with the sessions of EntrySession
--   Pairing       tables and look-ups of MobilePairingRepository; Codes (create, preview, revoke),
--                 Claims (claimPairing), Devices (authentication, renewal, logout, revocation);
--                 Attempts, Guesses, Creation, Redeem, Replays and Sessions on them
--   EntrySession  authenticate, authenticateEntrySession and requireEntryRequest on those tables;
--                 Requests on what they let through
--   Attachments   tables of AttachmentRepository; Names, and Uploads with its operations; Quota and
--                 Histories on what any sequence of them keeps
--   Chat          tables of threads and turns, and who may use a thread (requireThread,
--                 requireActiveMount, requireAdminAgentAssignment); Messages (appendThreadMessage),
--                 Pages (listThreadMessages), Contexts (resolveContext), Turns (prepareTurn,
--                 markTurnFailed, clearMissingExternalSession), Commits (commitTurnSucceeded),
--                 Capsule (buildProviderContext), Requests (the schema of a request) and Sending
--                 (sendForContext up to the provider, `begin_send`, and from its answer on,
--                 `finish_send`). Histories has every operation as a step relation; Kept and
--                 KeptTurns carry a property of the tables through each; Final, Logged, Failures,
--                 Stored, Asked, Answered, Unanswered, Repeats, Retries, Shortened, Unsendable and
--                 Numbers, Numbered, NumberedTurns are named for what they show
--   AgentStatus   statusFor, statusFacts, healthFor and snapshot; Problems on the status
--   Tests         runs on concrete data
--
-- The state. A table is the list of its rows in the order of insertion, and an operation is a
-- function from the database to an outcome and the database after it. `transaction` puts the
-- database back on an error; an operation outside a transaction keeps what it wrote. Constraints of
-- a table that an insertion can meet (primary keys, unique indexes, checks, and in the event log the
-- foreign keys) are tests before it, and a failed one is an error.
-- Numbers are natural numbers. Timestamps are milliseconds. Counters stay far below 2^53 in the
-- program; where the contract bounds them by the largest safe integer, a theorem assumes it.
-- The digest of node:crypto, random references, tokens and codes, the clock, the NFC form of a file
-- name, the path of a stored file, the size of a frame in bytes, and the answers of a connection and
-- of a provider are arguments.
-- The loop of the hub's pass runs on fuel, and one more than the number of the person's events is
-- enough; so do the digits of a number, which are fewer than the number and one. All other functions
-- are structural; the 64 rounds of the code generator are those of the source.
--
-- Not modelled: the headers of a request and the web entry; of the chat and work domain home chats,
-- episodes, work conversations and conversions; the lanes that run the sends of a thread one after
-- the other, so that two sends are two `begin_send` and `finish_send` in any order; of agents their
-- mounts and the catalogue of runtimes; of attachments the detection of file types and the storage,
-- which is file I/O; federation, the agent broker and the provider adapters, administration, and the
-- database's migrations, backups and locks. Of the event stream, its closing and the coalescing of
-- passes are left out.
pub mod Common
pub mod Json
pub mod Attachments
pub mod EventLog
pub mod Outbox
pub mod DeviceSync
pub mod SyncContract
pub mod System
pub mod Pairing
pub mod EntrySession
pub mod Chat
pub mod AgentStatus
pub mod EventStream
pub mod Tests
