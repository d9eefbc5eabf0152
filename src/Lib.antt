-- ===== src/Lib.antt =====
-- The runner of the harness control protocol (HCP): a process on a user's machine that runs coding
-- harnesses for a control plane and reports each session as a numbered sequence of events.
--
-- Parts, and where they are modelled:
--
-- - Protocol: packages/hcp-protocol/src. Protocol.Json has JSON values with the canonical printer,
--   Protocol.Event the events and snapshots with the checks of the snapshot schema, Protocol.Command
--   the answers to commands. Protocol.Reducer is HcpSessionEventReducer of session-reducer.ts, which
--   a control plane feeds with what it receives: apply_event, apply_snapshot, resume_cursor and
--   events are its methods, and its private map of maps is the Reducer that they take and return.
-- - State: packages/hcp-runner/src/state/index.ts, the store in which the runner keeps what it sent.
--   StateData is the stored object, append_event is appendEvent, replay_events_after and
--   session_snapshot answer a cursor (State.Queries), and State.Receipts has the receipts of settled
--   commands. State.Window and State.Events compare the store with the history of what it accepted,
--   State.Replay and State.Fit the answers. The write to disk, `persist`, is a parameter: it may
--   fail, and then the call throws.
--   State.Work and State.WorkChecks are a session's native work and what a save of it may not lose,
--   State.NativeWork is saveNativeWorkState and removeEmptyNativeWorkState.
--   State.Review has the data of an MCP review, with its schema (Schema) and validateMcpTransition
--   (Transition); State.Reviews has saveMcpReview and clearMcpReview. JSON.parse, the digest and the
--   clock are parameters there.
-- - LocalActions: packages/hcp-runner/src/local-actions. LocalActions.Manager is
--   LocalCapabilityLeaseManager, LocalActions.Policy the checks of a structured command policy,
--   with what they promise in LocalActions.Policy.Satisfied,
--   LocalActions.Engine LocalCapabilityEngine, LocalActions.Errors the error mapping of the
--   dispatcher, LocalActions.Patch applyUnifiedDiff of the executors, whose edit scripts and printed
--   diffs (LocalActions.Patch.Script) are its specification. Thrown policy
--   errors are the errors of a Result.
-- - Connection: packages/hcp-runner/src/connection/runner-connection.ts. Connection.Commands is
--   #handleCommand, cut at the await of the handler: receive_command says whether the handler runs,
--   finish_command takes what it gave or threw. Connection.Actions is #handleLocalAction, cut at the
--   await of the dispatcher in the same way. Connection.Runs has the steps of a connection in any
--   order, Connection.Reconnect the delays of #scheduleReconnect.
-- - Accounts: packages/hcp-protocol/src/accounts.ts, the observations of account usage and
--   HcpAccountUsageReducer, whose map of sources is Sources.
-- - Content: the complete content of large values: references and chunks
--   (packages/hcp-protocol/src/content.ts), Content.Store the runner's store of them in memory
--   (packages/hcp-runner/src/harnesses/content-store.ts), Content.Reader the SDK's reader
--   (packages/hcp-sdk/src/content.ts). Content.Served puts the two together. SHA-256 is a parameter;
--   UTF-8 is Base.Utf8. The reader's loop has one round for each chunk that its options allow.
-- - Sdk: packages/hcp-sdk/src. Sdk.Sessions is HcpNativeSessions (native-sessions.ts): observe and
--   lose are what its subscription does, Sdk.Sessions.Calls has open and close, each cut into what
--   runs before its command is sent and behind its awaits, and Sdk.Sessions.Runs any order of these
--   steps. Sdk.Sessions.Steps has what each step keeps, Sdk.Sessions.Watched what the
--   registry observes while a call waits.
-- - Mcp: packages/hcp-runner/src/mcp. Mcp.Inputs is McpProxyInputs (proxy-inputs.ts): the requests
--   for input of MCP tools, each kept under a key until it is answered once.
-- - Host: packages/hcp-runner/src/host/provider-registry.ts, ProviderInstanceRegistry with the
--   continuation groups, and Host.Snapshot the snapshots of the providers.
-- - Base: the native numbers, the shared lists, dictionaries and results.
--
-- The store and the reducer meet in State.Replay and State.Fit: the reducer's invariant is that each
-- session is a run of the sequences 1, 2, 3, ..., and the store's is that it holds the last events of
-- such a run.
--
-- A Map or an object with string keys is an association list in insertion order. Times are numbers of
-- milliseconds. localeCompare is the interface Base.Collation; the platform's path functions, file
-- system and regular expressions are the record LocalActions.Policy.Platform. Nothing runs on fuel
-- but the printing of decimal numbers, which has fuel for one digit more than the number's value.
--
-- Not modelled: the handshake and the timers of the connection, the running of local actions, the
-- adapters of single harnesses, the native conversations of the store, the transport of the MCP proxy,
-- the reader of accounts, workspaces, most of the SDK, retained content on disk, and the schemas of single event types.
mod Base
pub mod Protocol
pub mod State
pub mod LocalActions
pub mod Connection
pub mod Accounts
pub mod Host
pub mod Content
pub mod Sdk
pub mod Mcp
