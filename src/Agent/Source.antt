-- ===== src/Agent/Source.antt =====
-- net-filter/ws-agent/ws-agent.go: what `ServeHttp` does with its source once the target is connected;
-- net-filter/websocket-util/websocket-util.go: the writes of `frameIo`.
use fancy_go.Base.{ℕ, List, [], ◌∷◌, ◌++◌, Option, none, some, Bytes}
use fancy_go.ErrorCode.Types.{Errors, Err}
use fancy_go.Agent.Dial.{Served, server_error, piped}

-- `websocket.BinaryFrame`
abbrev pub binary_frame : ℕ
binary_frame = 2

-- A connection, by the type of the frames that `Write` makes and the frames that it has written.
pub record Socket : Type 0 where
  pub payload_type : ℕ
  pub protocol : List Bytes
  pub written : List (ℕ × Bytes)

-- `WriteCtx` of `frameIo`; `fails` is the error of `Write`.
unfoldable pub write_frame :
    {E : Type 0} → (Socket → Bytes → Option E) → ℕ → Bytes → Socket → Option E × Socket
write_frame fails payload_type bin ws =
    let ws = record ws { payload_type = payload_type } in
    elim (fails ws bin) [
      | some e ↦ (some e, ws)
      | none ↦ (none, record ws { written = ws.written ++ (payload_type, bin) ∷ [] })
    ]

-- The source: the answer of an error, a handshake that failed, or what the pipe came to.
pub data Source (lib : Errors) : Type 0 where
  refused : Bytes → Source lib
  not_handled : Source lib
  pipe_end : Option (Err lib) → Source lib

module _ {lib : Errors} where
  -- `ServeHttp` after the dial. `websocket.Server` sends the protocol that `Handshake` has set, that of
  -- the target; `accept` is whether its handshake with the source succeeds. Both connections are set to binary frames
  -- before the pipe starts.
  unfoldable pub serve_source :
      Socket
      → (List Bytes → Option Socket)
      → (Socket → Socket → Option (Err lib))
      → Served
      → Source lib
  serve_source target accept start (server_error text) = refused text
  serve_source target accept start (piped conf) = elim (accept target.protocol) [
    | none ↦ not_handled
    | some conn ↦ pipe_end (
        start (record conn { payload_type = binary_frame })
          (record target { payload_type = binary_frame }))
  ]
