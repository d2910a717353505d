-- ===== src/Lib.antt =====
-- Verification of fancy-go, a Go library of small tools for services: a JSON-RPC client and
-- server over framed channels, websocket channels and an agent that forwards websockets, errors
-- with codes, a single-flight executor, a reader of curl command lines, and helpers for logging,
-- for the end of a process and for gRPC over plain HTTP.
--
-- The parts and how they interact. A connection becomes a channel of messages, each a frame of
-- its length and its JSON text (net-filter/json-rpc/json-msg.go). A client numbers its calls,
-- writes them to a channel and hands the answers to the callers that wait
-- (net-filter/json-rpc/json-rpc-cli.go); a session reads requests from a channel, answers each
-- in a goroutine, and writes answers and events from one goroutine
-- (net-filter/json-rpc/json-rpc-server.go). Both ends speak of failures by the errors of
-- error-code: the server sends a text and a code, the client makes a coded error of them; the
-- HTTP handler of utils/grpc_util puts code and text into its responses. The channel that
-- reconnects wakes its callers by the conditions of cond-chan; the agent reads whole messages by
-- net-filter/websocket-util; the logger prints errors by ToLog of error-code, and its hook sends
-- what is left when utils/app ends the process. mutex-task and the curl reader stand alone.
--
-- Framing (Decimal, Split, Frame, Scanner, Stream, Writer, End, Channel, Shared, Sound):
-- net-filter/json-rpc/json-msg.go. SplitJson is split_json, ReadCtx is read_ctx, WriteCtx is
-- write_ctx; bufio.Scanner is modelled as they use it, with its buffer of 64 KiB. The connection
-- is a parameter: reads that cut the bytes anywhere, and a writer with the contract of
-- io.Writer. The scan and the loop of WriteCtx recurse on fuel, each with a theorem that the
-- fuel given is enough. Shared has the goroutines that call WriteCtx at once, with its mutex.
--
-- Message: the types Message and Error, encoding/json at them as a parameter with its round
-- trip, and ToBin of utils/json-util/json-util.go at messages. JsonUtil: the functions of that
-- file at any value.
--
-- ErrorCode (Types, Code, Wrap, Preserve, Methods, Registry, Retry, Print, Log):
-- error-code/error-code.go, error-code/with-stack.go, error-code/log-error.go and
-- utils/err_util/err_util.go. An error is a tree of the layers of this program and of layers of
-- other packages, which are a parameter; a nil error is none. ToLog is to_log; the position of a
-- frame is a parameter. Print has the Format methods.
--
-- Client (State, Invariant, Answers, End, Emit): net-filter/json-rpc/json-rpc-cli.go. Call is
-- cut at the points where another goroutine can act; dispatch is one turn of the loop of init,
-- after ReadCtx has returned no error, and received what its variable holds then: nothing new at
-- the end of a framed channel. Loop says whether the loop still reads; its exits are moves of
-- Rpc.System. Numbers of calls wrap at 2^64, and the theorems are about clients that have
-- started fewer calls.
--
-- Server (State, Balance, Reply, Serve): net-filter/json-rpc/json-rpc-server.go. reply is what
-- handleMsg sends, step the moves of the goroutines of a session; Serve has the errors of the
-- writing goroutine and of Serve.
--
-- Rpc (Order, Dispatch, Counts, Conversation, System): a client and a session that talk to each
-- other. Order relates what a session writes to the requests it has read, Dispatch lets a client
-- read message by message, and Conversation puts the framed channel between them. System has the
-- steps of both, with a queue for each direction and with the ends of the client's loop by its
-- context or by an error of ReadCtx; Client, Serves, Steps, Safety, Once, Placed and Kept below
-- it have its invariants, and Answered works off what is under way, with the number of moves
-- still needed as fuel. In dispatch, taking a call out of the map, reading its result and
-- sending its outcome are one step.
--
-- Websocket (Demux, Channel, Handshake, Serve, Reconnect, Calls, Frames):
-- net-filter/json-rpc/json-msg-ws.go and net-filter/websocket-util/websocket-util.go. turn is a
-- turn of the loop of readFn; the frames are given, as json.Unmarshal reads them. Channel has
-- the writes of wsChannel, with encoding/json and the connection as parameters. Serve is
-- handleWs and the dial of a channel that reconnects. Reconnect is getInner and Close of
-- autoReconnectChannel, cut where the mutex is released, with the condition channels of
-- CondChan, and Calls its methods over what getInner returns. receive_full_frame is
-- ReceiveFullFrame over a list of arrivals, which say what the websocket library does with each
-- frame, and over the method WritePong of the connection, which golang.org/x/net does not have;
-- as the loop takes one arrival a turn, it needs no fuel.
--
-- Agent (Subscribers, Pipe, Relay, Dial, Source): net-filter/ws-agent. Dial is what ServeHttp
-- asks of the target, Source what it does with its source and the writes of frameIo, pipe one
-- direction of startPipe, Relay puts it after ReadCtx of frameIo (called more often than there
-- are messages, which is enough), and Subscribers the list of NewLogSubPoint, in which a
-- callback is its client's number and its code pointer a parameter.
--
-- App (Exit, Ends): utils/app/app.go. The steps of step are those of callers, tasks, hooks,
-- waitWg, the timeout and the two selects; a closed channel and the timeout may both be ready,
-- and either branch may be taken.
--
-- MutexTask (System, Invariant, Safety, Endings, Keys, Results): mutex-task/mutex-task.go. Exec
-- is a step relation over any number of threads; the mutex makes the steps under it atomic.
-- Endings reads off the steps which key each thread was called for and how its execution has
-- ended.
--
-- CondChan (Wakes): cond-chan/cond-chan.go, with its channels numbered in the order they are
-- made, those that are closed, and the receives that wait.
--
-- Curl (Parse, Items, Factory): spider/curl-to-go/curl-to-go.go. Items reads the same words
-- independently of the loop.
--
-- Logger (Level, Entry, Report, Output, Registry, AliLog): utils/logger. Level has the levels by
-- their numbers. Entry keeps all entries and their maps in a store, since an entry holds
-- references (unilog.go, and Logger of logger.go); Refine, Derive, Log and Runs relate the store
-- to plain values. Report has logLevel with the record that hooks get, and logErr, which uses
-- ToLog and GetCode of error-code. Output has the lines that are written and where they go.
-- Registry has Logger with its options, Notify, and the functions that log by one entry
-- (direct.go). AliLog is the text of a configuration and what groupHook.Fire sends (ali-log.go);
-- Start is InitAliLog, Parse has the printing of pairs, Rename and Fields the names under which
-- the fields of a record are sent.
--
-- Grpc (Route, Handler, Dispatch): utils/grpc_util/http_rpc_handler.go. A response is what the
-- handler has written when it returns.
--
-- Base holds the names that all use: numbers are the native ones, a text is a list of its bytes,
-- a map with text keys is an association list (Base.Dict). Tests holds the theorems at concrete
-- inputs.
--
-- Not modelled: the positions of callers in the logger, logging calls of the other parts, the
-- reading of handlers by reflection, and what third-party packages do, which are parameters.
-- Contexts appear as steps that may happen at any time. The hundred empty reads after which
-- bufio.Scanner gives up are left out, and TrimSpace cuts the white space of ASCII only.
pub mod Base
pub mod JsonUtil
pub mod Message
pub mod Framing
pub mod ErrorCode
pub mod MutexTask
pub mod Agent
pub mod App
pub mod CondChan
pub mod Curl
pub mod Logger
pub mod Grpc
pub mod Client
pub mod Rpc
pub mod Server
pub mod Websocket
mod Tests
