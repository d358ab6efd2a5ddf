-- ===== src/Lib.antt =====
-- GoChatX: a chat server of two processes, the gateway (cmd/gateway) and the auth service
-- (cmd/authsvc), with MongoDB, Redis and MySQL. This development models the WebSocket
-- handler of the gateway, the rooms and users that the handlers share, the storage of messages,
-- accounts, the REST API with its middlewares and routes, and how the two processes start.
--
-- Parts, and the files that model them:
-- - internal/storage/mango.go: Storage and Message. The MongoDB collection is the parameter
--   `Collection` of Storage/Documents, with the driver's documented behaviour as laws; Tests/Memory
--   is a collection in memory that meets them. SaveMessage is save_message, QueryHistory is
--   query_history, PullUndeliveredForUser is pull_undelivered_for_user, NewMangoStore is
--   new_mango_store.
-- - internal/gateway/room.go and clients.go: Hub. The maps `rooms` and `onlineUsers`, the rooms behind
--   their pointers and the channel of each connection are the record `Hub`; each function is the
--   operation of the same name, a `Go Hub` that runs whole, since the code holds the mutex.
--   The maps of Go are association lists (GoMap), in the order in which `range` visits them; what
--   they show, without that order, the room pointers and the channels, is `view` of Hub/View.
-- - internal/gateway/ws_handle.go: Protocol, World and Ws. HandleWS is handle_ws: read_loop with
--   one function for each case of the switch (on_auth, on_join, on_leave, on_send, on_private,
--   on_history, on_ping), cleanup for the statements after the loop, deferred for the deferred
--   calls. pushUndelivered is push_undelivered, sendJSON is send_json. Client, Conn and Send of one
--   connection are its number. Ws/Acts says what a frame means for who is online and who is in which
--   room. The deadlines, the pings and the wait at the end of one connection are Ws/Watch: the state
--   `Watch` and the events `Happening`, one of which is a millisecond that passes; a frame is handled
--   between two of them, `received` and `handled`, for as long as the events between say.
-- - internal/auth/service.go: Auth. Register, Login, Validate and ParseToken are register, login,
--   validate and parse_token; the table of users, bcrypt and the JWT library are the parameters
--   `Users`, `Crypt` and `Tokens` of Auth/Backend.
-- - internal/gateway/middleware.go: Middleware. AuthMiddleware and AdminMiddleware are
--   auth_middleware and admin_middleware, functions of the Authorization header; Limit is limit, over
--   the parameter `SortedSets`, whose laws say what its four commands do, with IPKey and LoginKey as ip_key and login_key; CORSMiddleware is
--   allow_origin and is_preflight.
-- - internal/gateway/api.go: Http, Site and Api. A handler reads a `Request` and gives a `Response`,
--   as a statement on `Site`: the chat, the table of users, the sorted sets of the limiter and the
--   names of the files. Register and Login are rest_register and rest_login, over the parameter
--   `AuthClient`, of which Api/Service makes one from Auth; OnlineUsers, Health and AdminStats are
--   in Api/Status, AdminUsers, AdminBanUser and AdminUnbanUser in Api/Admin, over the parameter
--   `Roles`, which panic when there is no database (on_db); Upload is upload.
-- - cmd/gateway/main.go: Gateway. The mux behind its middlewares is serve, a path's pattern is route;
--   loadConfig is load_config, and main up to the server is start_gateway.
-- - cmd/authsvc/main.go: Auth/Start. main up to the server is start_auth.
-- - The gateway as a whole: System. An event opens a connection, handles one of its frames, ends
--   its loop or ends its handler, or lets a write goroutine or a saving goroutine run; `run` runs
--   any sequence of them, in any order. An event runs whole, although the code holds a lock only in
--   each function of the hub: Hub/Race and Ws/Race are about what may come in between. A turn of a
--   write goroutine fails when the network, as the event says, or the closed connection refuses the
--   write, and then it is the last (write_turn).
-- - The gateway's process: Process. Between the events of System its other handlers serve requests,
--   each whole; act_all runs any sequence of both.
-- - Go is the monad of statements that change shared state and may panic; Go/Keeps, Go/Turns and
--   Go/Ends have the rules for what statements keep, change and reach. Hub/Rules is the record of
--   what a property of the hub shows of each of its functions, from which Ws/Holds and System/Holds
--   have it for every handler and every run. Common has the shared names and lemmas, Text
--   the numerals of fmt.Sprintf and what is used of strings and path/filepath.
--
-- Conventions: what time.Now, rand.Intn, the auth service and MySQL answer while a frame is handled
-- is the record `Env`, any value of it. The frames of a connection are the list that ReadMessage
-- returns before its first error, so that the loop is recursion on that list. A time is in
-- milliseconds, which is what the gateway sends and MongoDB keeps, and in seconds for a token. A nil slice and an empty one are
-- both the empty list. Payloads are kept as values in place of their JSON text, which
-- json.Marshal can write for all of them. The fuel of a decimal numeral is the number plus one.
--
-- Not modelled: the upgrade of a connection, which the library does, and the logs; the errors of
-- Redis, which the code ignores; the servers for HTTP and gRPC, with their timeouts, and how the
-- two processes end; what a handler answers when the client has gone; the directory of Upload,
-- ./uploads, of which only the names of the files are kept; Close of the MongoDB store; the
-- generated code of api/. The handlers of internal/gateway/api.go run whole, one at a time. In
-- Ws/Watch a read or a write fails at its deadline and a ticker ticks at each period, as Go
-- documents it, the cleanup takes no time, and the writes of the ping goroutine and of the write
-- goroutine do not disturb each other.
pub mod Common
pub mod GoMap
pub mod Go
pub mod Text
pub mod Message
pub mod Storage
pub mod Protocol
pub mod Hub
pub mod World
pub mod Ws
pub mod System
pub mod Auth
pub mod Http
pub mod Site
pub mod Api
pub mod Gateway
pub mod Process
pub mod Middleware
mod Tests
