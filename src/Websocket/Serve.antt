-- ===== src/Websocket/Serve.antt =====
-- net-filter/json-rpc/json-msg-ws.go: `handleWs` of `WsHttpHandler`, and the connection of
-- `NewAutoReconnectChannelFromWebsocketAddr`.
use fancy_go.Base.{
  ◌≡◌, refl, Bool, List, [], ◌∷◌, ◌++◌, Option, none, some, Bytes, codes, ◌⊎◌, inl, inr,
  if◌then◌else◌,
}
use fancy_go.Message.{Message}
use fancy_go.ErrorCode.Types.{Errors, Err, pkg_wrap}

-- `readMsg` of a channel, from what `readFn` returns: the variable of the caller, and the error.
unfoldable pub read_msg : {E : Type 0} → Message → E ⊎ Message → Message × Option E
read_msg msg (inl e) = (msg, some e)
read_msg msg (inr m) = (m, none)

-- A context, by the connection that stands in it under `ctxKeyWsConn`.
abbrev pub Context : Type 0 → Type 0
Context Conn = Option Conn

-- `WsConnFromCtx`; `none` is the panic of its type assertion.
unfoldable pub ws_conn_from_ctx : {Conn : Type 0} → Context Conn → Option Conn
ws_conn_from_ctx ctx = ctx

-- What is done with the connection, in order: its channels go to `OnChannel`; the session is served
-- with a context, and may return or panic; its end is logged; the context is cancelled and the
-- connection closed by the deferred calls.
pub data Action (Conn : Type 0) (lib : Errors) : Type 0 where
  on_channel : Context Conn → Action Conn lib
  log_nil : Action Conn lib
  serves : Context Conn → Action Conn lib
  log_end : Option (Err lib) → Action Conn lib
  cancel : Action Conn lib
  close : Conn → Action Conn lib

-- How `Serve` of a session ends.
pub data Ended (lib : Errors) : Type 0 where
  returns : Option (Err lib) → Ended lib
  panics : Ended lib

module _ {Conn : Type 0} {lib : Errors} where
  abbrev deferred : Conn → List (Action Conn lib)
  deferred ws = cancel ∷ close ws ∷ []

  -- `handleWs`: `session` is what `OnChannel` returns, none for nil.
  unfoldable pub handle_ws :
      Conn → Context Conn → Option (Context Conn → Ended lib) → List (Action Conn lib)
  handle_ws ws request_ctx none = on_channel (some ws) ∷ log_nil ∷ deferred ws
  handle_ws ws request_ctx (some session) =
      on_channel (some ws)
      ∷ serves request_ctx
      ∷ elim (session request_ctx) [ panics ↦ deferred ws | returns e ↦ log_end e ∷ deferred ws ]

  -- Whatever the session does, also if it panics, the last two things are that the context is cancelled
  -- and then the connection closed.
  handle_ws-deferred :
      (ws : Conn) (ctx : Context Conn) (session : Option (Context Conn → Ended lib))
      → (before : List (Action Conn lib)) × (handle_ws ws ctx session
          ≡ before ++ cancel ∷ close ws ∷ [])
  unfolding handle_ws
  handle_ws-deferred ws ctx none = (on_channel (some ws) ∷ log_nil ∷ [], refl)
  handle_ws-deferred ws ctx (some session) = ended (session ctx)
    where
      ended :
          (r : Ended lib)
          → (before : List (Action Conn lib)) × (on_channel (some ws)
                ∷ serves ctx
                ∷ (elim r [ panics ↦ deferred ws | returns e ↦ log_end e ∷ deferred ws ])
              ≡ before ++ cancel ∷ close ws ∷ [])
      ended panics = (on_channel (some ws) ∷ serves ctx ∷ [], refl)
      ended (returns e) = (on_channel (some ws) ∷ serves ctx ∷ log_end e ∷ [], refl)

-- `FixedAddrFn`
unfoldable pub fixed_addr : {lib : Errors} → Bytes → Err lib ⊎ Bytes
fixed_addr addr = inr addr

module _ {Conn : Type 0} {lib : Errors} where
  -- The function that `NewAutoReconnectChannelFromWebsocketAddr` makes new channels with: an error, or
  -- the connection of the client channel, and the one whose server channel a goroutine handles.
  unfoldable pub dial_channel :
      (Err lib ⊎ Bytes) → (Bytes → Err lib ⊎ Conn) → Bool → Err lib ⊎ (Conn × Option Conn)
  dial_channel (inl e) dial handles = inl (pkg_wrap e (codes "get websocket addr error"))
  dial_channel (inr addr) dial handles = elim (dial addr) [
    | inl e ↦ inl (pkg_wrap e (codes "websocket dial error"))
    | inr conn ↦ inr (conn, if handles then some conn else none)
  ]
