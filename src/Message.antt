-- ===== src/Message.antt =====
-- net-filter/json-rpc/json-rpc-server.go: `Message` and `Error`; encoding/json as the channels use
-- it, and `json_util.ToBin` of utils/json-util/json-util.go.
use fancy_go.Base.{ℕ, ◌≡◌, Option, none, some, [], Bytes}
use fancy_go.Base.Int.{ℤ}

pub record RpcError : Type 0 where
  pub code : ℤ
  pub message : Bytes

-- `json.RawMessage` is a byte slice; an absent one is `[]`.
pub record Message : Type 0 where
  pub id : ℕ
  pub method : Bytes
  pub params : Bytes
  pub result : Bytes
  pub error : Option RpcError

-- `Message{}`
abbrev pub empty_message : Message
empty_message = record { id = 0; method = []; params = []; result = []; error = none }

-- encoding/json at type `Message`: `encode` is `Encoder.Encode` without HTML escapes, its output
-- trimmed; `unmarshal` reads into `Message{}` and returns what stands there, with the error.
-- The documented round trip is for messages whose raw parts are compact JSON and whose texts are
-- valid UTF-8.
pub record JsonCodec : Type 1 where
  pub JsonError : Type 0
  pub encode : Message → Option Bytes
  pub unmarshal : Bytes → Message × Option JsonError
  pub IsPlain : Message → Type 0
  pub encode_plain : (m : Message) → IsPlain m → (b : Bytes) × (encode m ≡ some b)
  pub unmarshal-encode :
      (m : Message) (b : Bytes) → IsPlain m → encode m ≡ some b → unmarshal b ≡ (m, none)

-- `ToBin`: an error of the encoder gives nil.
unfoldable pub to_bin : JsonCodec → Message → Bytes
to_bin c m = elim (c.encode m) [ none ↦ [] | some b ↦ b ]

pub unmarshal-to_bin :
    (c : JsonCodec) (m : Message) → c.IsPlain m → c.unmarshal (to_bin c m) ≡ (m, none)
unfolding to_bin
unmarshal-to_bin c m plain = let (b, e) = c.encode_plain m plain in unmarshal-some b e
  where
    unmarshal-some :
        (b : Bytes)
        → c.encode m ≡ some b
        → c.unmarshal (elim (c.encode m) as (λ _. Bytes) [ none ↦ [] | some d ↦ d ]) ≡ (m, none)
    unmarshal-some b e = rw e (c.unmarshal-encode m b plain e)
