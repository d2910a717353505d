-- ===== src/Websocket/Calls.antt =====
-- net-filter/json-rpc/json-msg-ws.go: `ReadCtx` and `WriteCtx` of `autoReconnectChannel`, over what
-- `getInner` returns, and the function that makes its inner channels of an address.
use fancy_go.Base.{ℕ, List, [], ◌∷◌, Option, none, some, Bytes, codes, ◌⊎◌, inl, inr}
use fancy_go.Message.{Message}
use fancy_go.ErrorCode.Types.{Errors, Err, pkg_wrap}
use fancy_go.Websocket.Reconnect.{Signal, own, broken}

-- A turn of the loop of `ReadCtx`: whether the context is done before it, and else the error of
-- `getInner`, or what `ReadCtx` of the inner channel returns.
pub data Turn (lib : Errors) : Type 0 where
  context_ends : Err lib → Turn lib
  no_inner : Err lib → Turn lib
  read_fails : Err lib → Turn lib
  reads : Message → Turn lib

module _ {lib : Errors} where
  -- `ReadCtx` over the turns to come; `none` if it is still at work after them.
  unfoldable pub read_ctx : List (Turn lib) → Option (Err lib ⊎ Message)
  read_ctx [] = none
  read_ctx (context_ends e ∷ ts) = some (inl e)
  read_ctx (no_inner e ∷ ts) = read_ctx ts
  read_ctx (read_fails e ∷ ts) = read_ctx ts
  read_ctx (reads m ∷ ts) = some (inr m)

  -- `WriteCtx`, with the result of `getInner` and `WriteCtx` of each inner channel.
  unfoldable pub write_ctx : Err lib ⊎ (Signal × ℕ) → (ℕ → Option (Err lib)) → Option (Err lib)
  write_ctx (inl e) write = some e
  write_ctx (inr (s, k)) write = write k

  -- `WriteCtxWithBrokenSignal`: an inner channel with a signal of its own gives its own result.
  unfoldable pub write_ctx_with_broken_signal :
      Err lib ⊎ (Signal × ℕ)
      → (ℕ → Option (Err lib))
      → (ℕ → Option Signal × Option (Err lib))
      → Option Signal × Option (Err lib)
  write_ctx_with_broken_signal (inl e) write write_own = (none, some e)
  write_ctx_with_broken_signal (inr (own k', k)) write write_own = write_own k
  write_ctx_with_broken_signal (inr (broken g, k)) write write_own = (some (broken g), write k)

  -- The function that `NewAutoReconnectChannelFromWebsocketAddr` passes on: the address, and the
  -- connection that is dialled at it.
  unfoldable pub create_inner : {C : Type 0} → Err lib ⊎ Bytes → (Bytes → Err lib ⊎ C) → Err lib ⊎ C
  create_inner (inl e) dial = inl (pkg_wrap e (codes "get websocket addr error"))
  create_inner (inr addr) dial = elim (dial addr) [
    | inl e ↦ inl (pkg_wrap e (codes "websocket dial error"))
    | inr conn ↦ inr conn
  ]
