-- ===== src/Lib.antt =====
-- zshell-gateway: a gateway between MCP clients and remote devices (Go).
--
-- internal/device keeps the devices that are connected, their sessions, the calls that wait for an
-- answer, and the file transfers between two devices. internal/gateway authorizes clients (OAuth with
-- PKCE and a PIN), signs and verifies access tokens, keeps the registered clients in a file and reads
-- the configuration. The gateway's MCP tools call the device manager.
--
-- Which file models which part:
--   Base, Dict            shared notation; Go's maps as association lists
--   Text                  what the program uses of strings, encoding/hex, encoding/base64 and UTF-8
--   Device/Types          the data of internal/device/protocol.go, manager.go and transfer.go. Sessions
--                         are handles into a store, since devices, transfers and calls share them.
--   Device/Session        internal/device/manager.go, the methods of Session
--   Device/Registry       internal/device/manager.go, the devices by name (Attach, List, resolve, touch)
--   Device/Calls          internal/device/manager.go, Call, Ping and Monitor. A select is split into the
--                         code up to it and the code of the case that fires (Wake).
--   Device/Lifecycle      internal/device/manager.go, readLoop, Serve, Detach and Close
--   Device/Transfer       internal/device/transfer.go: State (status, cancellation, failure), History
--                         (pruning), Start, Chunks (the relay), Handlers (messages of the two devices),
--                         Endings (timer, lost device, shutdown); the other children are proofs
--   Device/Frame          internal/device/transfer.go, the binary frame of a chunk
--   Device/Events         all entry points of the manager as events, and runs of events; Stable says what
--                         events leave alone, so that an invariant needs the transfer operations only
--   Device/Http           internal/device/http.go: Transport (queues, the pending chunk), Sessions (table,
--                         hello, polls, messages), Chunks, Route (ServeHTTP); Relay and Table are machines
--                         of their steps
--   Device/WebSocket      internal/device/websocket.go and the bearer token of both transports
--   Gateway/Types         the data of internal/gateway/oauth.go, oauth_clients.go and jwt.go
--   Gateway/Jwt           internal/gateway/jwt.go
--   Gateway/Checks        internal/gateway/oauth.go, the checks on parameters, redirect URIs, PKCE, PIN
--   Gateway/Codes         internal/gateway/oauth.go, authorization codes
--   Gateway/ClientsFile   internal/gateway/oauth_clients.go, with every system call that may fail
--   Gateway/Endpoints     internal/gateway/oauth.go, the HTTP endpoints
--   Gateway/Config        internal/gateway/config.go
--   Gateway/Tools         internal/gateway/tools.go: Json (the fields of an object), Format (the text
--                         shown to a client), Results, Calls (the tools of a device), Transfers,
--                         Schema and Specs (toolSpecs with the schemas of the arguments)
--   Examples              concrete inputs
--
-- Conventions. An operation takes the state and gives the new state; errors are values. The events of a
-- run are ordered as they take the locks. Each section of StartTransfer and of Call
-- is an event of its own; so is a failure of a transfer that a handler has decided on. The handler of a
-- chunk and the other handlers that keep the transfer's relayMu are one event, although they leave
-- transferMu while they send. Attach, Detach, Close and a tick of Monitor are one event each.
-- start_transfer, begin_call and start_call are the compositions of the sections with nothing between.
-- Times are natural numbers of nanoseconds; uint64 sums are taken modulo 2^64; `activeCalls` is an
-- integer. Device/Transfer/Abstract is the machine of six states that the transfers implement. An HTTP
-- handler that waits takes the case of its select that is ready, or is blocked. A comparison in constant
-- time is equality of bytes. The answers of the network are an argument (Net): nothing is assumed of
-- them. Texts are lists of code points, and their length is that of their UTF-8.
--
-- Fuel: the pruning loop runs on the number of entries, which is enough since each round drops one;
-- decimal text has twenty digits, enough for a uint64. Everything else is structural recursion.
--
-- Parameters: random bytes, SHA-256, HMAC, JSON, URL, IP and media type parsing, the environment, the
-- text of floating point numbers, and which system calls fail. A number of a JSON object is carried as
-- its text in the format %.0f.
--
-- Not modelled: the registration of the MCP tools with the SDK (annotations, security schemes, and the
-- schemas of device_list and of the transfer tools), the server's wiring (internal/gateway/server.go,
-- cmd/zshell-gateway), the connections of net/http and of golang.org/x/net/websocket (deadlines, payload
-- limits), the HTML page and the JSON text of responses, logging, and text that is not valid UTF-8.
pub mod Base
pub mod Dict
pub mod Text
pub mod Device
pub mod Gateway
pub mod Examples
