-- ===== src/Client/Emit.antt =====
-- net-filter/json-rpc/json-rpc-cli.go: `Emit`, which sends a message that nobody answers.
use fancy_go.Base.{Option, none, some, Bytes, codes, ◌⊎◌, inl, inr}
use fancy_go.Message.{Message, empty_message}
use fancy_go.ErrorCode.Types.{Errors, Err, pkg_wrap}

abbrev pub event : Bytes → Bytes → Message
event topic payload = record empty_message { method = topic; params = payload }

module _ {lib : Errors} where
  -- `marshalled` is what json.Marshal makes of the payload, `write` is `WriteCtx` of the channel.
  unfoldable pub emit_event :
      Bytes → Err lib ⊎ Bytes → (Message → Option (Err lib)) → Option (Err lib)
  emit_event topic (inl e) write = some (pkg_wrap e (codes "marshal payload error"))
  emit_event topic (inr payload) write = elim (write (event topic payload)) [
    | some e ↦ some (pkg_wrap e (codes "write message error"))
    | none ↦ none
  ]
