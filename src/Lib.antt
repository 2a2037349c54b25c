-- ===== src/Lib.antt =====
-- A verification library of llm-bridge-server, the session server that runs agent CLIs through
-- harness wrappers, keeps a record of every session and streams each session's events to clients.
--
-- The part modelled is the core of internal/harness, the router of internal/oneshotrouting, and the
-- operations of internal/operations and internal/operationstore. One derivation per harness process
-- reads the session's raw event stream and produces what every client shows: the session's state, its status line, its token usage and spend, and a summary of
-- each turn. The manager publishes what the derivation emits, forces states that only the server
-- can decide, and writes every event to log-store through one ordered queue per session. A session
-- in a terminal has a hub instead, which replays and streams the terminal to its clients and lets
-- one of them type. The router sends the server's own one-shot model calls. The coordinator of
-- operations takes intents, and carries each to an end through attempts of workers, which hold it
-- under leases; its store keeps a receipt, the events and the spend of every operation.
--
-- Prelude: library names, Boolean tests, integers, and Go's string-keyed maps and sets.
-- Msg: the wire types of github.com/kayushkin/llm-bridge/msg, which is not in the repository. Only
--   the constants and fields that the code names are there. Msg/Api takes the functions of msg that
--   the code calls, and the clock, as parameters.
-- Derivation: internal/harness/derivation.go and derivation_status.go.
--   State: derivationState, in four records by the part of the code that writes them, its
--     constructors and the classes of states (isSessionEndState, HoldingSessionStates).
--   Question: looksLikeQuestion. Turns: recordForTurn, closeTurn. Spend: applyResultUsage,
--     applyAPICall, sessionCostEvent, the seeds. Status: foldStatus, foldSystemStatus,
--     clearTurnInFlight, statusLocked, changedStatusLocked. Machine: the switch of derive().
--   Derive: derive(), forceState, applyExternalState, seedStateReason.
--   Run: the inputs of a derivation in the order of its publish lock, and
--     ForceSessionStateWithDetail of internal/harness/manager.go on a live derivation.
--   The other files of Derivation hold the theorems, named for what they are about.
-- LogQueue: internal/harness/logstore_queue.go, its retry loop and its queues as a step relation.
--   pushOrDrop has fuel for twenty attempts, more than fit before its deadline.
-- AttachHub: internal/harness/attachhub.go, which fans a terminal's output to its clients.
--   Ring: appendRing, snapshotRing. Hub: NewAttachHub, broadcast, Attach, Detach, Write, Resize,
--     shutdown. appendRing has fuel for two rounds of its loop, which a chunk shorter than the
--     buffer never exceeds. Recent, Rounds, Replay, Streams, Writer and Faithful hold the proofs.
-- OneShot: internal/oneshotrouting/router.go, which finds the model and the instance of a one-shot
--   call. Route: ResolveRole, Resolve. Run: try, exhaustedLimit, Run, RunRole. The stores, the
--   context and the calls are parameters, read at the index of each model. Walk, Calls and Named
--   hold the theorems.
-- Operations: internal/operationstore, the operations that outlive a request, the leases under which
--   workers run them, the events that record them and what they spend. Types: the rows. Store:
--   store.go, in Rows, Create, Claim and Update. Spend: spend.go. Reads: Get, List, EventsAfter.
--   Run: the store's calls in the order of their transactions. Moves: what a call does to the
--   tables, one row at a time; Writes, Updates and Calls show it of each call. The other files hold
--   the theorems.
-- Coordinator: internal/operations/coordinator.go. Credentials: the test for credential keys.
--   Intents: Submit, checkIntent, StartChild. Attempts: finishAttempt, Cancel, settle. Writer: the
--   receipt writer. Reconcile: reconcileOne. Spending: prices and allowances. Attempting: the runs
--   of all these against the store, in any order. The rest are proofs.
-- Tests: runs of the model on concrete inputs, and each theorem at one.
--
-- A method that mutates its receiver returns the new record; a nil pointer is `none`; a map is an
-- association list; the mutexes are left out, since each operation is one critical section, and
-- interleavings are lists of operations. A time is a count of nanoseconds whose 0 is Go's zero
-- time, read at each call site of time.Now() from a parameter. An int is its 64-bit pattern, and
-- sums of them wrap. An amount of dollars is an integer multiple of a small unit: the rounding of
-- float64, its infinities and NaN have no model. The logs, the SQLite store of sessions, HTTP and the
-- processes have none either.
--
-- In the operation store, JSON decodes to what was encoded; a transaction that fails leaves the
-- database as it was; SQLite's order of ids, a fresh id, the methods of msg.OperationState, the
-- calendar, the texts of fmt and the hash of an intent are parameters; lease tokens, revisions and
-- attempts are numbers without a bound. The workers' loops, timers and contexts have no model:
-- their calls of the store are the steps of a run, in any order.
pub mod Prelude
pub mod Msg
pub mod Derivation
pub mod LogQueue
pub mod AttachHub
pub mod OneShot
pub mod Operations
pub mod Coordinator
pub mod Tests
