-- ===== src/Lib.antt =====
-- Verification of robloxstudio-mcp, an MCP server that drives Roblox Studio through a plugin.
--
-- The program has two sides. On the server, packages/core/src/bridge-service.ts keeps the queue
-- between MCP tools and Studio: tools submit requests, transports claim and answer them, timers
-- and abort signals end their waiters, operations are remembered so that a retry is replayed
-- rather than run twice, and peers, multiplayer groups and instances are registered, routed to and
-- dropped. In Studio, the plugin (studio-plugin/src) runs the requests; several of its modules are
-- modelled here, which are free of Studio's services. On the server the PNG encoder and decoder of
-- screenshots are modelled too.
--
-- Files and code:
--   Shared, Shared/*        Boolean tests, lists, maps in insertion order (JavaScript's `Map`), text
--   Bytes                   byte sequences: Luau's strings and Node's buffers
--   Json                    JSON values; `Platform` is what Node supplies: `JSON.stringify`,
--                           `JSON.parse`, `Buffer.byteLength` and SHA-256, taken as a parameter
--   Bridge/Types            the records and limits of bridge-service.ts and its state, `Bridge`
--   Bridge/Failure          parseObservations, parseFailureDetails, handlerOutcome
--   Bridge/Prune            pruneOperations, prunePendingCancellations
--   Bridge/Waiters          endRequestWaiter, removePendingRequest, notifyRequestCancelled, the
--                           timeout and abort callbacks, cleanupOldRequests, clearAllPendingRequests
--   Bridge/Settlement       recordResponse, resolveRequest, rejectRequest, getRequestStatus,
--                           canStillSettle
--   Bridge/Refusals         the failures of admitRequest
--   Bridge/Admission        admitRequest, operationFingerprint, isValidOperationId, getPeerById
--   Bridge/Replay           replayRetained
--   Bridge/Callers          sendRequest, submitRequest, joinOperation
--   Bridge/Delivery         setDeliveryActive, claimNextRequestForTransport,
--                           claimNextCancellationForTransport, releaseDeliveryClaims
--   Bridge/Progress         ownedOperation, observeTransportProgress, settleTransportResponse
--   Bridge/Roles, Peers     role names, peer lookups, updatePeerActivity, updatePeerMetadata
--   Bridge/Groups           create-, remove-, attach- and detach- of multiplayer groups
--   Bridge/Registration     registerPeer
--   Bridge/Departure        unregisterPeer, unregisterInstanceId, cleanupStalePeers
--   Searches                facts on find, some and filter
--   Bridge/Routing          resolveTarget and the scopes of instances
--   Bridge/Events           one event for each of these, and their runs
--   Luau                    Luau byte strings and the string functions that the plugin calls
--   Logs, Logs/*            studio-plugin/src/modules/RuntimeLogBuffer.ts
--   Edits, Edits/*          studio-plugin/src/modules/ScriptEdits.ts
--   Replace, Replace/*      studio-plugin/src/modules/ScriptReplace.ts and ScriptClasses.ts
--   Sanitizer, Sanitizer/*  studio-plugin/src/modules/AssetSanitizationPolicy.ts
--   Tickets, Tickets/*      studio-plugin/src/modules/PlaytestTickets.ts
--   Jobs, Jobs/*            studio-plugin/src/modules/CooperativeJobRunner.ts
--   Topology                studio-plugin/src/modules/TopologyId.ts
--   Png, Png/*              packages/core/src/png-encoder.ts and image-decode.ts
--   Tests, Tests/*          examples
--   Captures, Captures/*    studio-plugin/src/modules/CaptureTransfer.ts; Captures/Receive is the
--                           side that asks for the pixels
-- The other files below Bridge, Logs, Edits, Replace, Captures, Sanitizer, Tickets, Jobs and Png
-- hold proofs about these.
--
-- How state is modelled: each operation takes the state and the time and returns the state after
-- it. A promise, its timer and its abort listener are the environment's: settling a promise is an
-- `Effect`, a timer or an abort that fires is an `Event`. The clock stands still within one call,
-- and a listener does not call the service back while it is notified. Numbers are natural, as the
-- code's timestamps, sizes and counts are. A map is a list of its entries in insertion order.
--
-- Bounds and fuel: the loops over maps are structural. `trim` has the number of operation records
-- as fuel and removes one in each round; a departing peer that carries others has one level of
-- dependents, and `sweep_fuel` is above the number of peers; `least_free` looks at one ordinal
-- more than there are peers. The loops of Luau strings have the length of the string, and the
-- binary search of `lineAt` the number of lines. The loops over a PNG file, its rows and a
-- script's chunks have the number of bytes as fuel, the receiving of a capture one more than its
-- bytes, and the traversal of instances their number.
--
-- Not modelled: waitForRequestStatus and the asynchronous `...Everywhere` wrappers, the public
-- views and their sorting (getInstances, getConnectedInstances, getTopologySnapshot), listener
-- registration, the messages and topology data of routing errors, requiresScriptPreconditions and
-- requiresAtomicProperties; the diffs of ScriptEdits.ts and of the preview in ScriptReplace.ts;
-- the resizing and file reading of image-decode.ts; and the parts of the repository that
-- call HTTP, the file system, Studio services or the MCP library.
pub mod Searches
pub mod Shared
pub mod Jobs
pub mod Json
pub mod Bytes
pub mod Png
pub mod Replace
pub mod Sanitizer
pub mod Topology
pub mod Tickets
pub mod Luau
pub mod Logs
pub mod Edits
pub mod Captures
pub mod Tests
pub mod Bridge
