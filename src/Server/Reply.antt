-- ===== src/Server/Reply.antt =====
-- What a reply says of the call, and what the client makes of it.
use fancy_go.Base.{
  ◌≡◌, ◌≢◌, refl, [], Option, none, some, arith, Bytes, Option-cases, inl, inr, ◌⊎◌,
}
use fancy_go.Base.Int.{ℤ, negsuc, eq_int}
use fancy_go.Message.{Message, RpcError}
use fancy_go.ErrorCode.Types.{Errors, Err, error_text}
use fancy_go.ErrorCode.Code.{get_code, get_code_loop, chosen}
use fancy_go.ErrorCode.Wrap.{as_error, new_error}
use fancy_go.Server.State.{
  Api, Handled, returns, panics_error, panics_value, handle_rpc_call, recover_call, error_of, reply,
}
use fancy_go.Client.State.{outcome, Target}

module _ {lib : Errors} (api : Api lib) where
  open api use {World, marshal, convert_rpc_error}

  Handled-cases :
      (h : Handled lib api.Value)
      → ((v : api.Value) × (e : Option (Err lib)) × (h ≡ returns v e))
        ⊎ ((recover_call api h).1 ≢ none)
  unfolding recover_call
  Handled-cases (returns v e) = inl (v, e, refl)
  Handled-cases (panics_error e) = inr (λ h. cc)
  Handled-cases (panics_value s) = inr (λ h. cc)

  -- If the reply to a request carries no error, then the handler has returned a value with an
  -- error that ConvertRpcError makes nil, the value marshals, and the reply has the request's id
  -- and the marshalled value.
  reply_success :
      (w : World) (m : Message)
      → (reply api w m).error ≡ none
      → (v : api.Value) × (e : Option (Err lib)) × (handle_rpc_call api w m.method m.params
          ≡ returns v e)
        × (convert_rpc_error e ≡ none)
        × ((marshal v).1 ≡ none)
        × ((reply api w m).result ≡ (marshal v).0)
        × ((reply api w m).id ≡ m.id)
  unfolding reply recover_call
  reply_success w m g = elim (Handled-cases (handle_rpc_call api w m.method m.params)) [
    | inl (v, e, h) ↦ elim (Option-cases (convert_rpc_error e)) [
      | inl fine ↦
          (v, e, h, fine, ground (arith, h, fine), ground (arith, h, fine), ground (arith, h, fine))
      | inr (d, bad) ↦ absurd (ground (arith, h, bad))
    ]
    | inr failed ↦ absurd (ground (arith, failed))
  ]

  reply-failed :
      (w : World) (m : Message) (v : api.Value) (e0 : Option (Err lib)) (e : Err lib)
      → handle_rpc_call api w m.method m.params ≡ returns v e0
      → convert_rpc_error e0 ≡ some e
      → reply api w m
        ≡ record { id = m.id; method = []; params = []; result = []; error = some (error_of api e) }
  unfolding reply recover_call
  reply-failed w m v e0 e h c = ground (arith, h, c)

module _ (lib : Errors) (here : lib.Frame) where
  new_error-text : (c : ℤ) (s : Bytes) → error_text (as_error (new_error {lib = lib} here c s)) ≡ s
  unfolding error_text new_error
  new_error-text c s = lib.leaf_text-new s

  new_error-code :
      (s : Bytes) → get_code (some (as_error (new_error {lib = lib} here (negsuc 0) s))) ≡ negsuc 0
  unfolding get_code get_code_loop new_error chosen eq_int
  new_error-code s = rw (lib.code-new s) refl

module _ {lib : Errors} (here : lib.Frame) where
  outcome-error :
      (t : Target lib) (msg : Message) (e : RpcError)
      → msg.error ≡ some e
      → outcome here t msg ≡ some (as_error (new_error here e.code e.message))
  unfolding outcome
  outcome-error t msg e h = rw h refl

  -- When a handler returns an error that ConvertRpcError leaves an error, then a client that
  -- reads the reply gives its caller an error with the same text and the code -1, whatever code
  -- the error had.
  pub error_arrives :
      (api : Api lib) (w : api.World) (m : Message) (t : Target lib) (v : api.Value)
      (e0 : Option (Err lib)) (e : Err lib)
      → handle_rpc_call api w m.method m.params ≡ returns v e0
      → api.convert_rpc_error e0 ≡ some e
      → (c : Err lib) × (outcome here t (reply api w m) ≡ some c)
        × (error_text c ≡ error_text e)
        × (get_code (some c) ≡ negsuc 0)
  unfolding error_of
  error_arrives api w m t v e0 e h convert = (
    as_error (new_error here (negsuc 0) (error_text e)),
    outcome-error t (reply api w m) (error_of api e)
        (rw (reply-failed api w m v e0 e h convert) refl),
    new_error-text lib here (negsuc 0) (error_text e),
    new_error-code lib here (error_text e),
  )
