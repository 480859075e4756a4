-- ===== src/Lib.antt =====
-- A model of the chat server of relay-chatapp, with proofs.
--
-- The server keeps its live state in modules of plain JavaScript maps: the group rooms with
-- their members and roles, and the safety state of each socket and user. A message from a socket
-- first meets the safety gate, which may drop it, fail it or let it through to a handler;
-- handlers of the group chat then call the room manager. The model covers these parts:
--
--   * Rooms: backend/websocket/state/roomManager.js. Rooms.State has the maps `rooms` and
--     `userRooms` and the records for the room store, Rooms.Objects the objects in such a record; Rooms.Roles the role checks; Rooms.Ops
--     createRoom, deleteRoom and joinRoom; Rooms.Leave leaveRoom and transferOwnershipOrDelete;
--     Rooms.Admin updateRoomMeta, removeMember and setMemberRole; Rooms.Views the queries;
--     Rooms.Load loadFromStore. Rooms.Step runs any sequence of the operations. The proofs stand
--     in Index, IndexSets and Consistent (the two maps agree), Access (roles), Seniority and
--     Succession (ownership), Growth and Versions, Atomic (failed calls), ObjectKeys and Restore (the store),
--     Listing (queries) and Defects.
--   * Sockets: backend/websocket/safety/socketSafety.js with state/socketStateStore.js and
--     state/rateLimitStore.js, and safety/typingRateLimit.js with state/typingStore.js.
--     Sockets.State has the state of a socket, Sockets.Limits checkSendRateLimit and
--     checkRateLimit, Sockets.Users allowUserMessage and the typing limiter, Sockets.Gate
--     validateIncomingMessage and checkMessage. The proofs stand in Sliding, Floods, Rows,
--     UserWindows and UserFloods (windows), Escalation (warnings and closes) and Policy (the
--     gate).
--   * Sends: backend/websocket/safety/backpressure.js. Sends.Line has checkBackpressure,
--     queueMessage, processQueue, canSend and sendOrFail; Sends.Step has sendMessage, and runs
--     any sequence of events on one socket: a call, a turn of the event loop, a change of the
--     buffer, the close. The proofs stand in Busy and Sound (bound, one task), Order (first in,
--     first out), Marks (failed messages), Flow and Drain (the queue empties) and Stuck (a full
--     queue).
--   * Sessions: backend/websocket/state/sessionStore.js. Sessions.Session has the changes to one
--     session (the entry, the eviction and the removal of a socket), Sessions.Store the
--     operations on the two maps, Sessions.Step any sequence of them. The proofs stand in Choice
--     and Whole (one session), Listing (the maps), Kept and Eviction.
--   * Connections: backend/websocket/connection/connectionManager.js and lifecycle.js with
--     state/connectionStore.js and state/presenceStore.js, over Sessions and the deliveries.
--     Connections.State has the presence of users, Connections.Manager the calls on sockets, and
--     Connections.Step is the relation of one event to the next. The proofs stand in Held (sockets
--     of sessions), Online and Calls (one call) and Presence.
--   * Messages: the direct messages and what they leave in the stores. Messages.Life has the states
--     of backend/models/message.state.js and the chat ids of utils/chatId.js; Rows and Queries
--     backend/storage/message.store.js; Delivery services/delivery.service.js with
--     websocket/state/directDeliveryStore.js; RoomCounts websocket/state/roomDeliveryStore.js and
--     deliveryStore.js; Service and Receipts services/message.service.js, with a read cursor of
--     chat/readCursorStore.mongo.js as a row; Replay services/replay.service.js with
--     websocket/state/messageStore.js; Handler the answer of websocket/handlers/sendMessage.js.
--     Messages.Step is the relation of one call to the next; the FAILED mark that sendOrFail of
--     websocket/safety/backpressure.js writes on a row, in whatever state, is one of its steps. The proofs stand in Stored (the rows
--     after each call), Outcomes (receipts), Backed, Moves and Reached (memory and store), Acks,
--     Offered and Waiting (acknowledgements), Forward, Onward and Lifecycle (states), Once (replay),
--     Pages and Reading (history), Known, KnownOn and Resend (repeated sends), Restart, and
--     Calls and Timers (deliveries).
--   * Suspicious: backend/suspicious/suspicious.detector.js. Suspicious.Flags has the flags and the
--     buckets of times, Suspicious.Detector the calls, Suspicious.Calls any sequence of them. The
--     proofs stand in Windows and Histories (buckets), Counts and Bursts (flags).
--   * Base: the helpers that these share.
--
-- How the code becomes definitions. A Map or a Set is a list in its order of insertion; an id is
-- a text, a list of character codes, and `trim` takes off what `String.prototype.trim` takes
-- off. A function that changes the maps returns the new state; the errors it returns are
-- constructors. Each call has a clock, a function from the number of the reading to the time, in
-- place of `Date.now()`. The calls of one function run without a break except where the code
-- waits for the room store: there leaveRoom is split in two (`leave_first`, `leave_settle`), and
-- other calls may come between (`leave_start` and `resume` of Rooms.Step). In backpressure.js
-- the answer to a send and `setImmediate` are tasks that a later turn runs; sendOrFail marks a
-- message in the store at once, where the code awaits the store first. Whether `ws.send` throws
-- and whether the store has a message are parameters (`World`). The room store is the list of
-- its calls, in order; a store call that fails is not modelled. Time spans are compared by sums
-- in place of differences, so that the natural numbers lose nothing. A throttle that the code
-- computes as NaN throttles nothing and is 0 here; the warning threshold, a fraction in the
-- code, is a percentage. All loops run over lists, so no definition of the code uses fuel; the
-- client of Pages, which follows cursors, does: as many pages as there are messages are enough, and
-- one where there are none.
-- The size of a raw message and the type that JSON.parse finds in it are given with the message. In
-- the detector the readings of the clock in one call are one time, and the retention of flags, which
-- the environment sets, is a parameter. The readyState of sockets is state that the ws library
-- moves; the state in which its `close()` leaves an open socket is a parameter. A call of
-- message.service.js runs without a break, from its guards to its answer; other calls come between
-- the intake of a message and its acknowledgement. `generateMessageId` draws at random: the id is
-- given with the send, and the step of an intake says that it is new. The store under the messages
-- is the one of message.store.js, which config/db.js selects with MESSAGE_STORE=file, without the
-- file that it writes; its calls throw (`none`) where the code throws. How `localeCompare` orders
-- ids, and the members of a room, are parameters of the queries and of the replay.
--
-- Not modelled: logs and metrics, the events that register gives to the detector, the details of
-- the flags that the gate records, the ws library, the schemas of zod, MongoDB and Redis, the HTTP
-- server, sign-in, what the presence notifier sends, what sendMessage.js sends to sockets after the
-- acknowledgement, and the web client. services/message.core and
-- services/delivery.and.offline.semantics hold second versions of the rules that the server does
-- not load.
pub mod Base
pub mod Connections
pub mod Messages
pub mod Rooms
pub mod Sends
pub mod Sessions
pub mod Sockets
pub mod Suspicious
