-- ===== src/Server/State.antt =====
-- `JsonRpcSession`: what one request is answered, and the steps of a session that is served.
use fancy_go.Base.{
  ℕ, zero, suc, Bool, true, false, ◌||◌, List, [], ◌∷◌, ◌++◌, Option, none, some, Bytes, codes,
  if◌then◌else◌,
}
use fancy_go.Base.Dict.{Dict, lookup}
use fancy_go.Base.Int.{negsuc}
use fancy_go.Message.{RpcError, Message}
use fancy_go.ErrorCode.Types.{Errors, Err, leaf, error_text}

-- What a handler comes to, for a result type that encoding/json marshals.
pub data Handled (lib : Errors) (Value : Type 0) : Type 0 where
  returns : Value → Option (Err lib) → Handled lib Value
  panics_error : Err lib → Handled lib Value
  panics_value : Bytes → Handled lib Value

-- The handlers, which are given by the user of the package: a handler's result depends on the
-- parameters and on the state that it finds.
pub record Api (lib : Errors) : Type 1 where
  pub World : Type 0
  pub Value : Type 0
  pub nil_value : Value
  pub marshal : Value → Bytes × Option (Err lib)
  pub func_map : Dict (World → Bytes → Handled lib Value)
  pub convert_rpc_error : Option (Err lib) → Option (Err lib)

-- `RpcFuncToRaw`: `read` is `json.Unmarshal` into a fresh `U`, whose error is not looked at.
unfoldable pub rpc_func_to_raw :
    {lib : Errors} {World U V : Type 0}
    → (Bytes → U × Option (Err lib))
    → (World → U → Handled lib V)
    → World
    → Bytes
    → Handled lib V
rpc_func_to_raw read rpc_func world message = rpc_func world (read message).0

-- The k-th of the messages, and the others.
unfoldable pub pick : ℕ → List Message → Option (Message × List Message)
pick k [] = none
pick zero (m ∷ ms) = some (m, ms)
pick (suc k) (m ∷ ms) = elim (pick k ms) [ none ↦ none | some (n, rest) ↦ some (n, m ∷ rest) ]

module _ {lib : Errors} (api : Api lib) where
  open api use {World, Value, nil_value, marshal, func_map, convert_rpc_error}

  unfoldable pub handle_rpc_call : World → Bytes → Bytes → Handled lib Value
  handle_rpc_call world method params = elim (lookup method func_map) [
    | none ↦
        returns nil_value
          (some (leaf (lib.new (codes "unknown method [" ++ (method ++ codes "]")))))
    | some hdlr ↦ hdlr world params
  ]

  -- `result` and `err` when the deferred function has recovered.
  unfoldable pub recover_call : Handled lib Value → Value × Option (Err lib)
  recover_call (returns v err) = (v, convert_rpc_error err)
  recover_call (panics_error e) = (nil_value, some e)
  recover_call (panics_value s) = (nil_value, some (leaf (lib.new s)))

  unfoldable pub error_of : Err lib → RpcError
  error_of e = record { code = negsuc 0; message = error_text e }

  -- The message that `handleMsg` sends.
  unfoldable pub reply : World → Message → Message
  unfolding recover_call error_of
  reply world msg =
      let (result, err) = recover_call (handle_rpc_call world msg.method msg.params) in
      elim err [
        | some e ↦ record {
          id = msg.id;
          method = [];
          params = [];
          result = [];
          error = some (error_of e);
        }
        | none ↦
            let (bin, failed) = marshal result in
            record {
              id = msg.id;
              method = [];
              params = [];
              result = bin;
              error = elim failed [ none ↦ none | some e ↦ some (error_of e) ];
            }
      ]

  -- `running` are the goroutines of `handleMsg` that have not sent yet, `out` is the channel, of
  -- capacity one, `writer` whether the writing goroutine runs, `reading` whether the loop of `Serve`
  -- does, `closed` whether the context is cancelled. The other fields record what has happened: requests read, requests answered into the
  -- channel, events sent into it, messages written, and messages whose write failed.
  pub record Session : Type 0 where
    pub running : List Message
    pub out : Option Message
    pub writer : Bool
    pub reading : Bool
    pub closed : Bool
    pub requests : List Message
    pub handled : List (World × Message)
    pub emitted : List Message
    pub written : List Message
    pub lost : List Message

  -- `Serve`, before its first turn.
  abbrev pub serve : Session
  serve = record {
    running = [];
    out = none;
    writer = true;
    reading = true;
    closed = false;
    requests = [];
    handled = [];
    emitted = [];
    written = [];
    lost = [];
  }

  -- The steps: the loop of `Serve` reads a request, or fails to; the context is cancelled; a goroutine
  -- sends its answer; `Emit` sends an event, whose data may fail to marshal; the writer writes, and
  -- the write and the callback may fail; the writer sees that the context is done.
  pub data Event : Type 0 where
    arrive : Message → Event
    read_failed : Event
    cancel : Event
    answer : ℕ → World → Event
    emit : Bytes → Option Bytes → Event
    write : Bool → Bool → Event
    writer_done : Event

  -- `Emit`, from what json.Marshal makes of the data; it waits while the channel is full.
  unfoldable pub emit_message : Session → Bytes → Option Bytes → Option Session
  emit_message s method none = some s
  emit_message s method (some bin) = elim s.out [
    | some full ↦ none
    | none ↦
        let msg : Message = record {
          id = 0;
          method = method;
          params = bin;
          result = [];
          error = none;
        } in
        some (record s { out = some msg; emitted = msg ∷ s.emitted })
  ]

  -- `none` for a step that is not possible.
  unfoldable pub step : Session → Event → Option Session
  unfolding pick emit_message
  step s (arrive msg) =
      if s.reading
      then some (record s { running = msg ∷ s.running; requests = msg ∷ s.requests })
      else none
  step s read_failed = some (record s { reading = false; closed = true })
  step s cancel = some (record s { closed = true })
  step s (answer k world) = elim s.out [
    | some full ↦ none
    | none ↦ elim (pick k s.running) [
      | none ↦ none
      | some (msg, rest) ↦ some (record s {
        running = rest;
        out = some (reply world msg);
        handled = (world, msg) ∷ s.handled;
      })
    ]
  ]
  step s (emit method data') = emit_message s method data'
  step s (write failed cb_failed) = elim s.out [
    | none ↦ none
    | some msg ↦
        if s.writer
        then some (record s {
          out = none;
          writer = if failed || cb_failed then false else true;
          closed = failed || cb_failed || s.closed;
          written = if failed then s.written else msg ∷ s.written;
          lost = if failed then msg ∷ s.lost else s.lost;
        })
        else none
  ]
  step s writer_done = if s.closed then some (record s { writer = false }) else none

  unfoldable pub run : Session → List Event → Option Session
  run s [] = some s
  run s (e ∷ es) = elim (step s e) [ none ↦ none | some s' ↦ run s' es ]
