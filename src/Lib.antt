-- ===== src/Lib.antt =====
-- woongkie-talkie: a chat server. Browsers hold WebSocket connections to rooms; HTTP requests create,
-- join, leave and delete rooms and edit, delete and answer messages; rooms and messages are stored
-- in MongoDB, and several servers exchange messages through Redis.
--
-- How the parts work together. A connection gets its room's hub from the room manager, queues the
-- history in its own buffer, registers with the hub and starts two pumps. The read pump checks what
-- the client sends, puts messages on the queue of the insert workers and hands them to the hub; the
-- hub delivers them to the buffers of its clients, itself or by way of Redis, and evicts a client
-- whose buffer is full; the write pump empties the buffer. The handlers of messages change the
-- stored messages and hand a notice to the room's hub; the handler that deletes a room has the
-- manager remove its hub. A hub subscribes to its room at the broker, which falls back to local
-- delivery while Redis does not answer, and keeps the presence of users in Redis. A request passes
-- the limits of its address and the check of its token before it reaches a handler, and the check
-- of the role before one of the administration.
--
-- Which file models what (a folder beside a file holds its proofs and its tests):
--   Base, Texts        lists, maps and stores; strings.TrimSpace and html.EscapeString
--   Chat               ChatMessage and Chat of pkg/mongoDB/chat.go
--   Hub                server/handler/hub.go: the hub's clients and broadcastLocal; Hub/Run has the
--                      cases of the select of Run, Hub/Rounds the loop, with the write pumps of
--                      server/handler/ws_client.go between its rounds
--   RoomManager        server/handler/room_manager.go: the map from rooms to hubs, each critical
--                      section of its own, and the idle case of Run, which changes the map too
--   Client             server/handler/ws_client.go: readPump as read_pump; Client/InsertWorker has
--                      runInsertWorker, Client/History the queueing of the history in
--                      server/handler/ws_handler.go
--   Mongo              the driver as an interface: what a filter, an update and a sorted search
--                      with a limit do to a list of documents, and that each call may fail, a
--                      failed write with or without having written, a failed deletion of many
--                      documents perhaps in part, and a limit of 0 is none; Mongo/Memory meets it
--   Rooms              pkg/mongoDB/room.go; Rooms/Handlers has server/handler/room.go
--   ConnLimit          server/middleware/ws_conn_limit.go
--   Messages           pkg/mongoDB/chat.go; Messages/Handlers has server/handler/message.go,
--                      server/handler/helpers.go and the messages of server/handler/room.go
--   Broker             pkg/redis/pubsub.go; Broker/Deafness has the start and the end of Run
--   Redis, Presence    the client of Redis as an interface, with what its commands do to sets and to
--                      keys that expire; pkg/redis/presence.go, and in Presence/Deadlines its
--                      abstract view: one deadline for each kind, room and user
--   Users              pkg/mongoDB/user.go
--   Auth               server/handler/auth.go, server/middleware/auth.go, pkg/config/jwt.go: names,
--                      tokens and cookies; Auth/Handlers has the handlers and the middleware
--   Admin              server/handler/admin.go, server/middleware/admin.go
--   RateLimit          server/middleware/ratelimit.go
--   Uploads            server/handler/upload.go: the checks of a file; Uploads/Handlers has the
--                      handlers, the writing to disk and pkg/mongoDB/file.go
--   Profiles           server/handler/crypto.go, server/handler/profile.go
--   Origins            server/middleware/csrf.go, pkg/config/websocket.go
-- The Go function FooBar is foo_bar here, a method with its receiver as an argument. State is
-- passed on explicitly; a panic is none, an error is err. Concurrency is a sequence of steps: the
-- rounds of a hub with the writes of its pumps, the critical sections of the manager, the operations
-- on rooms and messages, the requests for connections, the critical sections of the broker.
--
-- Bounds. Buffers hold 256 messages, histories 256, batches 50, texts 2000 code points, as in the
-- code. Every loop runs over a list that it is given, so that no fuel is needed. Times are natural
-- numbers of nanoseconds, of seconds in Presence, Auth and RateLimit; the clock, fresh ids, what a
-- channel takes in time and whether Redis answers a ping are inputs.
--
-- Parameters: bcrypt, the library of tokens, the parser of object ids, the JSON codec, the token
-- bucket of golang.org/x/time/rate, the layout of times, the MongoDB driver and the client of Redis;
-- encoding/json and net/url; for uploads the disk, paths, hosts and the sniffing of types. What the
-- code relies on of them stands in the interfaces as laws, which the tests show to hold of concrete
-- ones.
--
-- Not modelled: the creation of collections and indexes, migrations and the full-text search
-- (searches and writes that the interface of the driver does not have); configuration, logging,
-- metrics and the web client (input and output, or code of others).

pub mod Base
pub mod Chat
pub mod Texts
pub mod Hub
pub mod RoomManager
pub mod Mongo
pub mod Client
pub mod Rooms
pub mod Messages
pub mod ConnLimit
pub mod Broker
pub mod Redis
pub mod Presence
pub mod Users
pub mod Auth
pub mod Admin
pub mod RateLimit
pub mod Uploads
pub mod Profiles
pub mod Origins
