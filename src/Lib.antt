-- ===== src/Lib.antt =====
-- HooshiXAgent: the tunnel between an Edge Agent and the Tunnel Gateway.
--
-- The Gateway serves public requests through a WebSocket that the Agent opened. Frames carry
-- control messages and the data of many streams; each stream has a bounded queue that is charged to
-- byte budgets, and in the second protocol version a credit window that its sender keeps to. The
-- Gateway registers the sessions of a device, routes to one of them, and lets an Agent resume a
-- session on a new transport. The Agent reports the state of its tunnels.
--
-- Frame     internal/contractv1/frame.go: `EncodeFrame`, `DecodeFrame`, `SequenceTracker`.
-- Window    internal/tunnelwindow/window.go: `Take`, `Add`, `Close`, `InitialCredit`.
-- Stream    internal/gateway/session.go, type `stream`: `enqueue`, `Read`, `ReadDatagram`,
--           `finish`, `discardRetained`, and the stream's part of `detachStream`.
-- Budget    internal/gateway/gatewayresources/resources.go, `ByteBudget`, which Stream uses;
--           Budget/Buffer is the `BudgetBuffer` beside it, Budget/Agent is
--           internal/agent/agentbudget/budget.go.
-- Float     what the limiters do with `float64`, and the bounds on its rounding.
-- Limiter   the token buckets and the keyed admission limiter of the same resources.go;
--           Limiter/Bucket has the rate, Limiter/InFlight the bounds on the work in flight.
-- Writer    internal/gateway/session.go: `sendFrame`, `writeLoop` and `writeQueued`; Writer/Sequences
--           has the numbers of the frames, Writer/Order the order of the requests. It uses Frame.
-- Session   internal/gateway/session.go: the streams of a session, with Session/Open for
--           `openStreamTarget`, Session/Handle for `handleControl` and `handleData`, Session/Chunks
--           for `sendBytes` and the waits of its `Take`. It uses Stream and Window.
-- Header    internal/gateway/gateway.go: `responseHeaderLimitReader`; Header/Search has its search
--           for the empty line, Header/Limit any sequence of reads.
-- Registry  internal/gateway/gateway.go: `registerSession`, `unregisterSession`,
--           `sessionForDevice`.
-- Json      internal/contractv1/strict_json.go: the walk over the tokens of a payload, with the
--           trees it is to accept in Json/Grammar; Json/Members has the gates on the members.
-- Contract  internal/contractv1/validation.go: the checks on identifiers, base64 and times;
--           Contract/Transcript has the bytes that are signed, and their verification.
-- Control   internal/contractv1/validation.go, `ValidateControlPayload`: Control/Payload and
--           Control/Dispatch have the cases of its switch. It uses Json and Contract.
-- Records   internal/contractv1/validation.go: the records of the control panel and their parsers.
-- Resume    internal/gateway/gateway.go, `resumeSession`, with `resumeInto` of session.go; it uses
--           Contract.
-- Health    internal/agent/tunnelstates/machine.go; Health/Aggregate is aggregate.go beside it.
-- Base      the Boolean tests, lists, integers and results that the others share.
--
-- A byte is a number, a string or a byte slice a list of bytes. A method that holds a mutex is one
-- step. A call that would wait returns that it waits, with nothing changed, and is made again. Code
-- that is lock-free (the budgets' compare-and-swap loops) is taken as one step per call. Counters
-- of rejections keep their wrap-around at 64 bits; byte counts and times are numbers without bound,
-- which the limits keep far below 63 bits. A budget that is released below zero panics in the
-- source, after it was changed: the model returns the panic and no budget. Loops are over a list,
-- except for the walk of Json, which has fuel of twice the number of tokens and two, and never runs
-- out of it, and the cutting of a payload in `sendBytes`, which has as many
-- passes as the payload has bytes. Its attempts to take credit are a list of turns, each with what
-- others did to the window before it.
--
-- What the standard library does (UTF-8, JSON, base64, hex, RFC 3339 times, SHA-256, Ed25519) is a
-- parameter of Contract, Control and Records, and the metadata service, the clock, the random source
-- and the connection are parameters of Resume. Whether a write fails and which arm a `select` takes
-- are inputs of the steps of Writer, and whether a message can be sent is one of the steps of Session.
-- The one hypothesis on all of these is that base64 text has no NUL byte.
-- The allowances and rates of the limiters are numbers of any `Float64`; the theorem on the rate of a
-- token bucket has the known bounds on their rounding for hypotheses.
--
-- Not modelled: the timers around a session (heartbeat and the expiry of its authorization), HTTP,
-- TCP and UDP ingress, the aggregate record of the Gateway's resources, the metadata sources,
-- connectors, configuration, the Agent's own session, state files and supervisor, enrollment and the
-- user interfaces: they are network, file system and user interface code around these parts.
pub mod Base
pub mod Float
pub mod Frame
pub mod Window
pub mod Stream
pub mod Budget
pub mod Limiter
pub mod Writer
pub mod Session
pub mod Header
pub mod Registry
pub mod Json
pub mod Contract
pub mod Control
pub mod Records
pub mod Resume
pub mod Health
